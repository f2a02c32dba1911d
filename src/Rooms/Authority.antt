-- ===== src/Rooms/Authority.antt =====
-- Who may change which membership (server/internal/rooms/rooms.go).
use astralrelay_online.Common.{ℕ, ◌≡◌, ◌⊎◌, inl, inr, none, some, arith, ◌≢◌, Faults, Option-cases}
use astralrelay_online.Common.Text.{Text}
use astralrelay_online.Rooms.Tables.{
  Role, creator, admin, member, Db, role_of, update_role, insert_room, insert_member,
  insert_member_ignore,
}
use astralrelay_online.Rooms.Lookup.{role_of-update_role, role_of-delete_member}
use astralrelay_online.Rooms.{create, invite, leave, set_role, transfer_creator, remove, parse_role}
use astralrelay_online.Rooms.History.{
  Call, creates, invites, leaves, sets_role, transfers, removes, step,
}

abbrev pub Holds : Db → ℕ → ℕ → Role → Type 0
Holds d room user r = role_of room user d.members ≡ some r

abbrev pub Manages : Db → ℕ → ℕ → Type 0
Manages d room user = Holds d room user creator ⊎ Holds d room user admin

-- The one call that may change the membership of `user` in `room`, and the rights that it needs.
abbrev pub MayChange : Db → ℕ → ℕ → Call → Type 0
MayChange d room user (creates f r u name now) =
    (r ≡ room) × (u ≡ user) × (role_of room user d.members ≡ none)
MayChange d room user (invites f r inviter invitee now) =
    (r ≡ room) × (invitee ≡ user) × (role_of room user d.members ≡ none) × Manages d r inviter
MayChange d room user (leaves f r u) =
    (r ≡ room) × (u ≡ user) × (Holds d r u admin ⊎ Holds d r u member)
MayChange d room user (sets_role f r actor target role) =
    (r ≡ room)
    × (target ≡ user)
    × ((Holds d r actor creator) ⊎ (Holds d r actor admin × (parse_role role ≡ some member)))
MayChange d room user (transfers f r actor target) =
    (r ≡ room) × Holds d r actor creator × (target ≢ actor) × ((actor ≡ user) ⊎ (target ≡ user))
MayChange d room user (removes f r actor target) =
    (r ≡ room)
    × (target ≡ user)
    × ((Holds d r target member × Manages d r actor)
        ⊎ (Holds d r target admin × Holds d r actor creator))

-- A call leaves the role of `user` in `room` as it was, unless it has the right to change it.
abbrev Judged : Text → Db → Call → ℕ → ℕ → Type 0
Judged dom d c room user =
    (role_of room user (step dom d c).members ≡ role_of room user d.members)
    ⊎ MayChange d room user c

create-Judged :
    (dom : Text) (d : Db) (f : Faults) (r u : ℕ) (name : Text) (now room user : ℕ)
    → Judged dom d (creates f r u name now) room user
unfolding step create role_of insert_room insert_member
create-Judged dom d f r u name now room user = ground arith

invite-Judged :
    (dom : Text) (d : Db) (f : Faults) (r inviter invitee now room user : ℕ)
    → Judged dom d (invites f r inviter invitee now) room user
unfolding step invite role_of insert_member_ignore
invite-Judged dom d f r inviter invitee now room user = ground arith

leave-Judged :
    (dom : Text) (d : Db) (f : Faults) (r u room user : ℕ) → Judged dom d (leaves f r u) room user
unfolding step leave
leave-Judged dom d f r u room user = ground (arith, role_of-delete_member r u room user d.members)

-- SetRole never makes a creator.
pub parse_role-ne-creator : (t : Text) → parse_role t ≢ some creator
unfolding parse_role
parse_role-ne-creator t = ground arith

set_role-Judged :
    (dom : Text) (d : Db) (f : Faults) (r a t : ℕ) (role : Text) (room user : ℕ)
    → Judged dom d (sets_role f r a t role) room user
unfolding step set_role
set_role-Judged dom d f r a t role room user = elim (Option-cases (parse_role role)) [
  | inl e ↦ ground arith
  | inr (v, e) ↦
      ground (arith, parse_role-ne-creator role, role_of-update_role r t room user v d.members)
]

transfer-Judged :
    (dom : Text) (d : Db) (f : Faults) (r a t room user : ℕ)
    → Judged dom d (transfers f r a t) room user
unfolding step transfer_creator
transfer-Judged dom d f r a t room user = ground (
  arith,
  role_of-update_role r t room user creator d.members,
  role_of-update_role r a room user member (update_role r t creator d.members),
)

remove-Judged :
    (dom : Text) (d : Db) (f : Faults) (r a t room user : ℕ)
    → Judged dom d (removes f r a t) room user
unfolding step remove
remove-Judged dom d f r a t room user =
    ground (arith, role_of-delete_member r t room user d.members)

-- Whatever the call and whatever fails, the role of a user in a room stays as it was, unless the
-- call names that user and room and the acting user has the rights that `MayChange` lists.
pub step-MayChange :
    (dom : Text) (d : Db) (c : Call) (room user : ℕ)
    → (role_of room user (step dom d c).members ≡ role_of room user d.members)
      ⊎ MayChange d room user c
step-MayChange dom d (creates f r u name now) room user =
    create-Judged dom d f r u name now room user
step-MayChange dom d (invites f r a t now) room user = invite-Judged dom d f r a t now room user
step-MayChange dom d (leaves f r u) room user = leave-Judged dom d f r u room user
step-MayChange dom d (sets_role f r a t role) room user =
    set_role-Judged dom d f r a t role room user
step-MayChange dom d (transfers f r a t) room user = transfer-Judged dom d f r a t room user
step-MayChange dom d (removes f r a t) room user = remove-Judged dom d f r a t room user
