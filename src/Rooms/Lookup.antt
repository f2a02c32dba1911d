-- ===== src/Rooms/Lookup.antt =====
-- What the statements of rooms.go do to a lookup.
use mathlib.Core.Option
use astralrelay_online.Common.{
  ℕ, ◌≡◌, ◌⊎◌, ◌&&◌, Option, none, some, List, [], ◌∷◌, ◌==◌, if◌then◌else◌, arith,
}
use astralrelay_online.Rooms.Tables.{
  Role, RoomRow, MemberRow, Db, role_of, find_room, update_role, delete_member, update_creator,
  insert_member,
}

abbrev pub given : Role → Option Role → Option Role
given v none = none
given v (some r) = some v

-- The user that the row of a room names as its creator.
abbrev pub creator_of : ℕ → List RoomRow → Option ℕ
creator_of r xs = Option.map (λ x. x.creator_id) (find_room r xs)

pub role_of-update_role :
    (r u i j : ℕ) (v : Role) (ms : List MemberRow)
    → role_of i j (update_role r u v ms)
      ≡ (if (r == i) && (u == j) then given v (role_of i j ms) else role_of i j ms)
unfolding role_of update_role
role_of-update_role r u i j v [] = ground arith
role_of-update_role r u i j v (m ∷ ms) = ground (arith, role_of-update_role r u i j v ms)

pub role_of-delete_member :
    (r u i j : ℕ) (ms : List MemberRow)
    → role_of i j (delete_member r u ms) ≡ (if (r == i) && (u == j) then none else role_of i j ms)
unfolding role_of delete_member
role_of-delete_member r u i j [] = ground arith
role_of-delete_member r u i j (m ∷ ms) = ground (arith, role_of-delete_member r u i j ms)

abbrev pub replaced : ℕ → Option ℕ → Option ℕ
replaced u none = none
replaced u (some v) = some u

pub creator_of-update_creator :
    (r u i : ℕ) (xs : List RoomRow)
    → creator_of i (update_creator r u xs)
      ≡ (if r == i then replaced u (creator_of i xs) else creator_of i xs)
unfolding find_room update_creator
creator_of-update_creator r u i [] = ground arith
creator_of-update_creator r u i (x ∷ xs) = ground (arith, creator_of-update_creator r u i xs)

-- A new row is found under its key alone, and its key was free.
pub insert_member-cases :
    (m : MemberRow) (d : Db)
    → (insert_member m d ≡ none)
      ⊎ ((insert_member m d ≡ some (record d { members = m ∷ d.members }))
          × (role_of m.room_id m.user_id d.members ≡ none))
unfolding insert_member
insert_member-cases m d = ground arith
