-- ===== src/Rooms/Leaders.antt =====
-- The creator of a room (server/internal/rooms/rooms.go).
use astralrelay_online.Common.{
  ℕ, ◌≡◌, ◌⊎◌, inl, inr, refl, true, false, ◌||◌, some, List, [], ◌∷◌, arith, ◌≢◌, Faults,
  Option-cases, ok,
}
use astralrelay_online.Common.Text.{Text, lit, text_eq}
use astralrelay_online.Rooms.Tables.{
  Role, creator, admin, member, Db, role_of, find_room, update_role, insert_room, insert_member,
  insert_member_ignore,
}
use astralrelay_online.Rooms.Lookup.{
  creator_of, replaced, role_of-update_role, role_of-delete_member, creator_of-update_creator,
}
use astralrelay_online.Rooms.{
  create, invite, leave, set_role, transfer_creator, remove, hand_over, parse_role,
}
use astralrelay_online.Rooms.History.{
  Call, creates, invites, leaves, sets_role, transfers, removes, step, run,
}
use astralrelay_online.Rooms.Authority.{parse_role-ne-creator, Holds}

-- Whoever has the role of creator in a room is the user that the room's row names.
abbrev LedAt : Db → ℕ → ℕ → Type 0
LedAt d room user = Holds d room user creator → creator_of room d.rooms ≡ some user

pub record IsLed (d : Db) : Type 0 where
  pub at : (room user : ℕ) → Holds d room user creator → creator_of room d.rooms ≡ some user

create-LedAt :
    (dom : Text) (d : Db) (f : Faults) (r u : ℕ) (name : Text) (now room user : ℕ)
    → LedAt d room user
    → LedAt (step dom d (creates f r u name now)) room user
unfolding step create role_of find_room insert_room insert_member
create-LedAt dom d f r u name now room user h = ground arith

invite-LedAt :
    (dom : Text) (d : Db) (f : Faults) (r inviter invitee now room user : ℕ)
    → LedAt d room user
    → LedAt (step dom d (invites f r inviter invitee now)) room user
unfolding step invite role_of insert_member_ignore
invite-LedAt dom d f r inviter invitee now room user h = ground arith

leave-LedAt :
    (dom : Text) (d : Db) (f : Faults) (r u room user : ℕ)
    → LedAt d room user
    → LedAt (step dom d (leaves f r u)) room user
unfolding step leave
leave-LedAt dom d f r u room user h = ground (arith, role_of-delete_member r u room user d.members)

set_role-LedAt :
    (dom : Text) (d : Db) (f : Faults) (r a t : ℕ) (role : Text) (room user : ℕ)
    → LedAt d room user
    → LedAt (step dom d (sets_role f r a t role)) room user
unfolding step set_role
set_role-LedAt dom d f r a t role room user h = elim (Option-cases (parse_role role)) [
  | inl e ↦ ground arith
  | inr (v, e) ↦
      ground (arith, parse_role-ne-creator role, role_of-update_role r t room user v d.members)
]

transfer-LedAt :
    (dom : Text) (d : Db) (f : Faults) (r a t room user : ℕ)
    → LedAt d room user
    → LedAt d room a
    → LedAt (step dom d (transfers f r a t)) room user
unfolding step transfer_creator
transfer-LedAt dom d f r a t room user h k = ground (
  arith,
  role_of-update_role r t room user creator d.members,
  role_of-update_role r a room user member (update_role r t creator d.members),
  creator_of-update_creator r t room d.rooms,
)

remove-LedAt :
    (dom : Text) (d : Db) (f : Faults) (r a t room user : ℕ)
    → LedAt d room user
    → LedAt (step dom d (removes f r a t)) room user
unfolding step remove
remove-LedAt dom d f r a t room user h =
    ground (arith, role_of-delete_member r t room user d.members)

step-IsLed : (dom : Text) (d : Db) (c : Call) → IsLed d → IsLed (step dom d c)
step-IsLed dom d (creates f r u name now) v = record {
  at = λ i j. create-LedAt dom d f r u name now i j (v.at i j);
}
step-IsLed dom d (invites f r a t now) v = record {
  at = λ i j. invite-LedAt dom d f r a t now i j (v.at i j);
}
step-IsLed dom d (leaves f r u) v = record { at = λ i j. leave-LedAt dom d f r u i j (v.at i j) }
step-IsLed dom d (sets_role f r a t role) v = record {
  at = λ i j. set_role-LedAt dom d f r a t role i j (v.at i j);
}
step-IsLed dom d (transfers f r a t) v = record {
  at = λ i j. transfer-LedAt dom d f r a t i j (v.at i j) (v.at i a);
}
step-IsLed dom d (removes f r a t) v = record {
  at = λ i j. remove-LedAt dom d f r a t i j (v.at i j);
}

run-IsLed : (dom : Text) (d : Db) (cs : List Call) → IsLed d → IsLed (run dom d cs)
unfolding run
run-IsLed dom d [] v = v
run-IsLed dom d (c ∷ cs) v = run-IsLed dom (step dom d c) cs (step-IsLed dom d c v)

-- From a database where every creator is the one that its room's row names, no history gives a
-- room two creators, and the creator stays the user that the row names.
pub run-unique_creator :
    (dom : Text) (d : Db) (cs : List Call) (room user other : ℕ)
    → IsLed d
    → Holds (run dom d cs) room user creator
    → Holds (run dom d cs) room other creator
    → (user ≡ other) × (creator_of room (run dom d cs).rooms ≡ some user)
run-unique_creator dom d cs room user other v h k =
    let w = run-IsLed dom d cs v in ground (arith, w.at room user h, w.at room other k)

-- What a transfer that is done has changed, and for whom.
abbrev pub Transferred : Db → Db → ℕ → ℕ → ℕ → Type 0
Transferred d e room actor target =
    Holds d room actor creator
    × (target ≢ actor)
    × Holds e room target creator
    × Holds e room actor member
    × (creator_of room e.rooms ≡ replaced target (creator_of room d.rooms))

-- Whatever calls fail, a transfer leaves every table as it was, or it was called by the room's creator
-- for another user, who is now the creator, the caller a member, and the row of the room names the new
-- creator.
pub transfer_creator_atomic :
    (f : Faults) (d : Db) (room actor target : ℕ)
    → let e = (transfer_creator f d room actor target).0 in
      (e ≡ d) ⊎ Transferred d e room actor target
unfolding transfer_creator
transfer_creator_atomic f d room actor target = ground (
  arith,
  role_of-update_role room target room target creator d.members,
  role_of-update_role room target room actor creator d.members,
  role_of-update_role room actor room target member (update_role room target creator d.members),
  role_of-update_role room actor room actor member (update_role room target creator d.members),
  creator_of-update_creator room target room d.rooms,
)

-- With no failing call, the creator's transfer to another member is done and reported so.
pub transfer_creator_done :
    (d : Db) (f : Faults) (room actor target : ℕ) (r : Role)
    → ((i : ℕ) → f i ≡ false)
    → Holds d room actor creator
    → Holds d room target r
    → target ≢ actor
    → transfer_creator f d room actor target ≡ (hand_over d room actor target, ok tt)
unfolding transfer_creator
transfer_creator_done d f room actor target r fine lead here other =
    ground (arith, fine 0, fine 1, fine 2, fine 3, fine 4, fine 5, fine 6)

-- A Commit that fails is reported as a transfer that was done, and nothing has changed.
pub transfer_commit_lost :
    (d : Db) (f : Faults) (room actor target : ℕ) (r : Role)
    → Holds d room actor creator
    → Holds d room target r
    → target ≢ actor
    → (f 0 || f 1 || f 2 || f 3 || f 4 || f 5) ≡ false
    → f 6 ≡ true
    → transfer_creator f d room actor target ≡ (d, ok tt)
unfolding transfer_creator
transfer_commit_lost d f room actor target r lead here other fine lost = ground arith

abbrev pub NoLeader : Db → ℕ → Type 0
NoLeader d room = (user : ℕ) → role_of room user d.members ≢ some creator

parse_role_member : parse_role (lit "member") ≡ some member
unfolding parse_role text_eq
parse_role_member = refl

-- An admin's SetRole of the creator to "member" is accepted, and leaves the room with no creator.
pub set_role_unseats_creator :
    (d : Db) (f : Faults) (room actor leader : ℕ)
    → IsLed d
    → ((i : ℕ) → f i ≡ false)
    → Holds d room actor admin
    → Holds d room leader creator
    → let (e, r) = set_role f d room actor leader (lit "member") in (r ≡ ok tt) × NoLeader e room
unfolding set_role
set_role_unseats_creator d f room actor leader v fine a l = (
  ground (arith, fine 0, fine 1, parse_role_member),
  λ user. ground (
    arith,
    fine 0,
    fine 1,
    parse_role_member,
    v.at room user,
    v.at room leader l,
    role_of-update_role room leader room user member d.members,
  ),
)
