-- ===== src/Rooms/Leaderless.antt =====
-- A room of server/internal/rooms/rooms.go that has lost its creator.
use astralrelay_online.Common.{ℕ, ◌≡◌, inl, inr, refl, true, List, [], ◌∷◌, arith, Option-cases}
use astralrelay_online.Common.Text.{Text}
use astralrelay_online.Rooms.Tables.{
  creator, member, RoomRow, Db, role_of, find_room, update_role, update_creator, insert_room,
  insert_member, insert_member_ignore, is_some,
}
use astralrelay_online.Rooms.Lookup.{role_of-update_role, role_of-delete_member}
use astralrelay_online.Rooms.{create, invite, leave, set_role, transfer_creator, remove, parse_role}
use astralrelay_online.Rooms.History.{
  Call, creates, invites, leaves, sets_role, transfers, removes, step, run,
}
use astralrelay_online.Rooms.Authority.{parse_role-ne-creator}
use astralrelay_online.Rooms.Leaders.{NoLeader}

is_some-update_creator :
    (r u room : ℕ) (xs : List RoomRow)
    → is_some (find_room room (update_creator r u xs)) ≡ is_some (find_room room xs)
unfolding find_room update_creator
is_some-update_creator r u room [] = refl
is_some-update_creator r u room (x ∷ xs) = ground (arith, is_some-update_creator r u room xs)

-- No call deletes a room.
room_stays :
    (dom : Text) (d : Db) (c : Call) (room : ℕ)
    → is_some (find_room room d.rooms) ≡ true
    → is_some (find_room room (step dom d c).rooms) ≡ true
unfolding step
room_stays dom d (creates f r u name now) room e =
    unfold create find_room insert_room insert_member in ground arith
room_stays dom d (invites f r a t now) room e = unfold invite insert_member_ignore in ground arith
room_stays dom d (leaves f r u) room e = unfold leave in ground arith
room_stays dom d (sets_role f r a t role) room e = unfold set_role in ground arith
room_stays dom d (transfers f r a t) room e =
    unfold transfer_creator in ground (arith, is_some-update_creator r t room d.rooms)
room_stays dom d (removes f r a t) room e = unfold remove in ground arith

NoLeader-step :
    (dom : Text) (d : Db) (c : Call) (room : ℕ)
    → is_some (find_room room d.rooms) ≡ true
    → NoLeader d room
    → NoLeader (step dom d c) room
unfolding step
NoLeader-step dom d (creates f r u name now) room e h user =
    unfold create role_of insert_room insert_member in ground (arith, h user)
NoLeader-step dom d (invites f r a t now) room e h user =
    unfold invite role_of insert_member_ignore in ground (arith, h user)
NoLeader-step dom d (leaves f r u) room e h user =
    unfold leave in ground (arith, h user, role_of-delete_member r u room user d.members)
NoLeader-step dom d (sets_role f r a t role) room e h user =
    unfold set_role in
    elim (Option-cases (parse_role role)) [
      | inl e ↦ ground (arith, h user)
      | inr (v, e) ↦
          ground (
            arith,
            h user,
            parse_role-ne-creator role,
            role_of-update_role r t room user v d.members,
          )
    ]
NoLeader-step dom d (transfers f r a t) room e h user =
    unfold transfer_creator in
    ground (
      arith,
      h user,
      h a,
      role_of-update_role r t room user creator d.members,
      role_of-update_role r a room user member (update_role r t creator d.members),
    )
NoLeader-step dom d (removes f r a t) room e h user =
    unfold remove in ground (arith, h user, role_of-delete_member r t room user d.members)

-- A room that is there and has no creator has none after any further calls.
pub leaderless_forever :
    (dom : Text) (d : Db) (cs : List Call) (room : ℕ)
    → is_some (find_room room d.rooms) ≡ true
    → NoLeader d room
    → NoLeader (run dom d cs) room
unfolding run
leaderless_forever dom d [] room e h = h
leaderless_forever dom d (c ∷ cs) room e h =
    leaderless_forever dom (step dom d c) cs room (room_stays dom d c room e)
      (NoLeader-step dom d c room e h)
