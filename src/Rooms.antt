-- ===== src/Rooms.antt =====
-- server/internal/rooms/rooms.go: the room service, with the database as a value. An operation
-- takes the outcomes of its database calls and returns the new database beside its result.
pub mod Tables
pub mod Addr
mod Lookup
pub mod History
pub mod Authority
pub mod Leaders
pub mod Leaderless
mod Examples
use mathlib.Core.Option
use astralrelay_online.Common.{
  ℕ, ◌+◌, ◌≡◌, Bool, true, false, ◌&&◌, ◌||◌, not, Option, none, some, List, [], ◌∷◌, ◌++◌, ◌==◌,
  if◌then◌else◌, keep_if, Result, ok, err, arith, Faults, map,
}
use astralrelay_online.Common.Text.{
  Text, text_eq, lit, to_lower, trim_space, trim_prefix, is_empty, index,
}
use Addr.{until_colon, room_addr}
use Tables.{
  Role, creator, admin, member, is_creator, is_admin, RoomRow, MemberRow, UserRow, Db, role_of,
  find_room, update_role, delete_member, update_creator, insert_room, insert_member,
  insert_member_ignore, find_user, is_some, rooms_of,
}

pub data RoomError : Type 0 where
  db_error not_member forbidden creator_cannot_leave invalid_role transfer_to_self : RoomError
  user_not_found username_required : RoomError

abbrev pub Answer : Type 0 → Type 0
Answer A = Db × Result RoomError A

-- A statement that may fail, and the error that it then gives.
unfoldable pub exec : Bool → Db → Option Db → Answer (Unit {0})
exec true d r = (d, err db_error)
exec false d none = (d, err db_error)
exec false d (some d') = (d', ok tt)

unfoldable pub get_member_role : Bool → Db → ℕ → ℕ → Result RoomError Role
get_member_role fault d room user =
    if fault
    then err db_error
    else elim (role_of room user d.members) [ none ↦ err not_member | some r ↦ ok r ]

-- role == "creator" || role == "admin", and no error
unfoldable pub can_manage : Result RoomError Role → Bool
can_manage (ok r) = is_creator r || is_admin r
can_manage (err e) = false

unfoldable pub holds_creator : Result RoomError Role → Bool
holds_creator (ok r) = is_creator r
holds_creator (err e) = false

abbrev after_insert : Faults → Answer (Unit {0}) → MemberRow → RoomRow → Answer RoomRow
after_insert f (d, err e) m x = (d, err e)
after_insert f (d, ok u) m x =
    let (d', r) = exec (f 1) d (insert_member m d) in
    elim r [ ok _ ↦ (d', ok x) | err e ↦ (d', err e) ]

-- Two statements outside any transaction.
unfoldable pub create : Faults → Db → Text → ℕ → ℕ → Text → ℕ → Answer RoomRow
unfolding exec
create f d domain room_id now name user =
    after_insert f (exec (f 0) d (insert_room row d)) joined row
  where
    row : RoomRow
    row = record { id = room_id; name = name; domain = domain; creator_id = user; created_at = now }

    joined : MemberRow
    joined = record { room_id = room_id; user_id = user; role = creator; joined_at = now }

unfoldable pub get : Bool → Db → ℕ → ℕ → Result RoomError RoomRow
get fault d room user = if fault then err db_error else elim (find_room room d.rooms) [
  | none ↦ err not_member
  | some x ↦ if is_some (role_of room user d.members) then ok x else err not_member
]

unfoldable pub is_member : Bool → Db → ℕ → ℕ → Result RoomError Bool
is_member fault d room user =
    if fault then err db_error else ok (is_some (role_of room user d.members))

unfoldable pub invite : Faults → Db → ℕ → ℕ → ℕ → ℕ → Answer (Unit {0})
unfolding exec get_member_role can_manage
invite f d now room inviter invitee =
    if can_manage (get_member_role (f 0) d room inviter)
    then exec (f 1) d (insert_member_ignore joined d)
    else (d, err forbidden)
  where
    joined : MemberRow
    joined = record { room_id = room; user_id = invitee; role = member; joined_at = now }

unfoldable pub leave : Faults → Db → ℕ → ℕ → Answer (Unit {0})
unfolding exec get_member_role
leave f d room user = elim (get_member_role (f 0) d room user) [
  | err e ↦ (d, err e)
  | ok r ↦
      if is_creator r
      then (d, err creator_cannot_leave)
      else exec (f 1) d (some (record d { members = delete_member room user d.members }))
]

-- The two roles that SetRole accepts.
unfoldable pub parse_role : Text → Option Role
parse_role t =
    if text_eq t (lit "admin")
    then some admin
    else if text_eq t (lit "member")
    then some member
    else none

unfoldable pub set_role : Faults → Db → ℕ → ℕ → ℕ → Text → Answer (Unit {0})
unfolding exec get_member_role can_manage holds_creator
set_role f d room actor target new_role = elim (parse_role new_role) [
  | none ↦ (d, err invalid_role)
  | some v ↦
      let acting = get_member_role (f 0) d room actor in
      if not (can_manage acting)
      then (d, err forbidden)
      else if is_admin v && not (holds_creator acting)
      then (d, err forbidden)
      else exec (f 1) d (some (record d { members = update_role room target v d.members }))
]

-- The three statements of the transaction, in the order of the source.
unfoldable pub hand_over : Db → ℕ → ℕ → ℕ → Db
hand_over d room actor target = record d {
  members = update_role room actor member (update_role room target creator d.members);
  rooms = update_creator room target d.rooms;
}

-- Calls 2 to 5 are Begin and the statements; an error of Commit, call 6, is dropped by the source.
unfoldable pub transfer_creator : Faults → Db → ℕ → ℕ → ℕ → Answer (Unit {0})
unfolding get_member_role holds_creator hand_over
transfer_creator f d room actor target =
    if not (holds_creator (get_member_role (f 0) d room actor))
    then (d, err forbidden)
    else elim (get_member_role (f 1) d room target) [
      | err e ↦ (d, err e)
      | ok r ↦
          if target == actor
          then (d, err transfer_to_self)
          else if f 2 || f 3 || f 4 || f 5
          then (d, err db_error)
          else if f 6
          then (d, ok tt)
          else (hand_over d room actor target, ok tt)
    ]

-- targetRole == "creator" || (targetRole == "admin" && actorRole != "creator")
unfoldable pub is_protected : Result RoomError Role → Role → Bool
unfolding holds_creator
is_protected acting r = is_creator r || (is_admin r && not (holds_creator acting))

unfoldable pub remove : Faults → Db → ℕ → ℕ → ℕ → Answer (Unit {0})
unfolding exec get_member_role can_manage is_protected
remove f d room actor target =
    let acting = get_member_role (f 0) d room actor in
    if not (can_manage acting)
    then (d, err forbidden)
    else elim (get_member_role (f 1) d room target) [
      | err e ↦ (d, err e)
      | ok r ↦
          if is_protected acting r
          then (d, err forbidden)
          else exec (f 2) d (some (record d { members = delete_member room target d.members }))
    ]

-- ResolveUserID
unfoldable pub resolve_user_id : Bool → Db → Text → Text → Result RoomError ℕ
unfolding until_colon
resolve_user_id fault d domain username =
    let name = trim_space (trim_prefix username (lit "@")) in
    if is_empty name
    then err username_required
    else if fault
    then err db_error
    else elim (find_user (until_colon name) domain d.users) [
      | none ↦ err user_not_found
      | some id ↦ ok id
    ]

-- The addresses of the rooms that a user is in; a membership's room exists by its foreign key.
unfoldable pub get_room_addrs_for_user :
    (ℕ → Text) → Bool → Db → Text → ℕ → Result RoomError (List Text)
get_room_addrs_for_user uuid_string fault d domain user =
    if fault
    then err db_error
    else ok (map (λ r. room_addr uuid_string r domain) (rooms_of user d.members))
