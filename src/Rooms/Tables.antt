-- ===== src/Rooms/Tables.antt =====
-- The tables rooms, room_members and users (db/migrations), and the SQL statements that
-- server/internal/rooms/rooms.go runs on them. A UUID is a number.
use astralrelay_online.Common.{
  ℕ, Bool, true, false, ◌&&◌, ◌||◌, not, Option, none, some, List, [], ◌∷◌, ◌==◌, if◌then◌else◌,
}
use astralrelay_online.Common.Text.{Text, text_eq, to_lower}

-- CHECK (role IN ('creator', 'admin', 'member'))
pub data Role : Type 0 where
  creator admin member : Role

abbrev pub is_creator : Role → Bool
is_creator creator = true
is_creator admin = false
is_creator member = false

abbrev pub is_admin : Role → Bool
is_admin creator = false
is_admin admin = true
is_admin member = false

pub record RoomRow : Type 0 where
  pub id : ℕ
  pub name : Text
  pub domain : Text
  pub creator_id : ℕ
  pub created_at : ℕ

pub record MemberRow : Type 0 where
  pub room_id : ℕ
  pub user_id : ℕ
  pub role : Role
  pub joined_at : ℕ

pub record UserRow : Type 0 where
  pub id : ℕ
  pub username : Text
  pub domain : Text

pub record Db : Type 0 where
  pub rooms : List RoomRow
  pub members : List MemberRow
  pub users : List UserRow

-- WHERE room_id = r AND user_id = u
abbrev pub keyed : ℕ → ℕ → MemberRow → Bool
keyed r u m = (m.room_id == r) && (m.user_id == u)

-- SELECT role FROM room_members WHERE room_id = r AND user_id = u
unfoldable pub role_of : ℕ → ℕ → List MemberRow → Option Role
role_of r u [] = none
role_of r u (m ∷ ms) = if keyed r u m then some m.role else role_of r u ms

-- SELECT … FROM rooms WHERE id = r
unfoldable pub find_room : ℕ → List RoomRow → Option RoomRow
find_room r [] = none
find_room r (x ∷ xs) = if x.id == r then some x else find_room r xs

unfoldable pub has_user : ℕ → List UserRow → Bool
has_user u [] = false
has_user u (x ∷ xs) = (x.id == u) || has_user u xs

abbrev pub is_some {ℓ} : {A : Type ℓ} → Option A → Bool
is_some none = false
is_some (some a) = true

-- UPDATE room_members SET role = v WHERE room_id = r AND user_id = u
unfoldable pub update_role : ℕ → ℕ → Role → List MemberRow → List MemberRow
update_role r u v [] = []
update_role r u v (m ∷ ms) =
    (if keyed r u m then record m { role = v } else m) ∷ update_role r u v ms

-- DELETE FROM room_members WHERE room_id = r AND user_id = u
unfoldable pub delete_member : ℕ → ℕ → List MemberRow → List MemberRow
delete_member r u [] = []
delete_member r u (m ∷ ms) =
    let rest = delete_member r u ms in if keyed r u m then rest else m ∷ rest

-- UPDATE rooms SET creator_id = u WHERE id = r
unfoldable pub update_creator : ℕ → ℕ → List RoomRow → List RoomRow
update_creator r u [] = []
update_creator r u (x ∷ xs) =
    (if x.id == r then record x { creator_id = u } else x) ∷ update_creator r u xs

-- INSERT INTO rooms; `none` is a violated primary or foreign key.
unfoldable pub insert_room : RoomRow → Db → Option Db
insert_room x d =
    if is_some (find_room x.id d.rooms) || not (has_user x.creator_id d.users)
    then none
    else some (record d { rooms = x ∷ d.rooms })

-- INSERT INTO room_members; `none` is a violated primary or foreign key.
unfoldable pub insert_member : MemberRow → Db → Option Db
insert_member m d =
    if is_some (role_of m.room_id m.user_id d.members)
      || not (is_some (find_room m.room_id d.rooms) && has_user m.user_id d.users)
    then none
    else some (record d { members = m ∷ d.members })

-- INSERT INTO room_members … ON CONFLICT (room_id, user_id) DO NOTHING
unfoldable pub insert_member_ignore : MemberRow → Db → Option Db
unfolding insert_member
insert_member_ignore m d =
    if is_some (role_of m.room_id m.user_id d.members) then some d else insert_member m d

-- SELECT id FROM users WHERE LOWER(username) = LOWER(name) AND domain = dom
unfoldable pub find_user : Text → Text → List UserRow → Option ℕ
find_user name dom [] = none
find_user name dom (x ∷ xs) =
    if text_eq (to_lower x.username) (to_lower name) && text_eq x.domain dom
    then some x.id
    else find_user name dom xs

-- SELECT … FROM room_members WHERE user_id = u, by its rooms
unfoldable pub rooms_of : ℕ → List MemberRow → List ℕ
rooms_of u [] = []
rooms_of u (m ∷ ms) = let rest = rooms_of u ms in if m.user_id == u then m.room_id ∷ rest else rest
