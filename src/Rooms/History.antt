-- ===== src/Rooms/History.antt =====
-- Histories of calls of the room service, one after another.
use astralrelay_online.Common.{ℕ, List, [], ◌∷◌, Faults}
use astralrelay_online.Common.Text.{Text}
use astralrelay_online.Rooms.Tables.{Db}
use astralrelay_online.Rooms.{create, invite, leave, set_role, transfer_creator, remove}

-- The arguments after the faults: the room, the acting user, then the rest.
pub data Call : Type 0 where
  creates : Faults → ℕ → ℕ → Text → ℕ → Call
  invites : Faults → ℕ → ℕ → ℕ → ℕ → Call
  leaves : Faults → ℕ → ℕ → Call
  sets_role : Faults → ℕ → ℕ → ℕ → Text → Call
  transfers : Faults → ℕ → ℕ → ℕ → Call
  removes : Faults → ℕ → ℕ → ℕ → Call

unfoldable pub step : Text → Db → Call → Db
step dom d (creates f room user name now) = (create f d dom room now name user).0
step dom d (invites f room inviter invitee now) = (invite f d now room inviter invitee).0
step dom d (leaves f room user) = (leave f d room user).0
step dom d (sets_role f room actor target role) = (set_role f d room actor target role).0
step dom d (transfers f room actor target) = (transfer_creator f d room actor target).0
step dom d (removes f room actor target) = (remove f d room actor target).0

unfoldable pub run : Text → Db → List Call → Db
run dom d [] = d
run dom d (c ∷ cs) = run dom (step dom d c) cs
