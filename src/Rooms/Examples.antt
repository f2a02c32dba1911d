-- ===== src/Rooms/Examples.antt =====
-- Tests of the model of server/internal/rooms/rooms.go, and its theorems at concrete inputs.
use astralrelay_online.Common.{
  ℕ, ◌≡◌, ◌⊎◌, refl, some, List, [], ◌∷◌, ◌==◌, arith, ◌≢◌, Faults, no_faults, err,
}
use astralrelay_online.Common.Text.{Text, lit}
use astralrelay_online.Rooms.Tables.{
  Role, creator, admin, member, RoomRow, MemberRow, UserRow, Db, role_of, find_room, update_role,
  update_creator, delete_member, insert_member_ignore, has_user,
}
use astralrelay_online.Rooms.Lookup.{creator_of}
use astralrelay_online.Rooms.{invite, leave, transfer_creator, remove, forbidden}
use astralrelay_online.Rooms.History.{Call, leaves, transfers, removes, step, run}
use astralrelay_online.Rooms.Authority.{Holds, MayChange, step-MayChange}
use astralrelay_online.Rooms.Leaders.{
  IsLed, NoLeader, Transferred, run-unique_creator, transfer_creator_atomic,
}

abbrev lobby : RoomRow
lobby = record { id = 7; name = lit "lobby"; domain = lit "a.org"; creator_id = 1; created_at = 0 }

abbrev row : ℕ → Role → MemberRow
row u r = record { room_id = 7; user_id = u; role = r; joined_at = 0 }

abbrev user : ℕ → Text → UserRow
user i name = record { id = i; username = name; domain = lit "a.org" }

-- User 1 created room 7, user 2 is an admin, user 3 a member, and user 4 stands outside.
abbrev db : Db
db = record {
  rooms = lobby ∷ [];
  members = row 1 creator ∷ row 2 admin ∷ row 3 member ∷ [];
  users = user 1 (lit "Ann") ∷ user 2 (lit "bob") ∷ user 3 (lit "eve") ∷ user 4 (lit "joe") ∷ [];
}

db-IsLed : IsLed db
unfolding role_of find_room
db-IsLed = record { at = λ room u. ground arith }

member_cannot_invite : invite no_faults db 5 7 3 4 ≡ (db, err forbidden)
unfolding invite role_of
member_cannot_invite = refl

admin_invites : role_of 7 4 (invite no_faults db 5 7 2 4).0.members ≡ some member
unfolding invite role_of insert_member_ignore find_room has_user
admin_invites = refl

admin_cannot_remove_creator : remove no_faults db 7 2 1 ≡ (db, err forbidden)
unfolding remove role_of
admin_cannot_remove_creator = refl

step-MayChange_example :
    (role_of 7 3 (step (lit "a.org") db (removes no_faults 7 2 3)).members ≡ role_of 7 3 db.members)
    ⊎ MayChange db 7 3 (removes no_faults 7 2 3)
step-MayChange_example = step-MayChange (lit "a.org") db (removes no_faults 7 2 3) 7 3

abbrev handover : List Call
handover = transfers no_faults 7 1 2 ∷ leaves no_faults 7 1 ∷ []

two_leads : Holds (run (lit "a.org") db handover) 7 2 creator
unfolding run step transfer_creator leave role_of update_role delete_member update_creator
two_leads = refl

run-unique_creator_example :
    (◌≡◌ {A = ℕ} 2 2) × (creator_of 7 (run (lit "a.org") db handover).rooms ≡ some 2)
run-unique_creator_example =
    run-unique_creator (lit "a.org") db handover 7 2 2 db-IsLed two_leads two_leads

transfer_creator_atomic_example :
    ((transfer_creator no_faults db 7 1 3).0 ≡ db)
    ⊎ Transferred db (transfer_creator no_faults db 7 1 3).0 7 1 3
transfer_creator_atomic_example = transfer_creator_atomic no_faults db 7 1 3

three_ne_one : ◌≢◌ {A = ℕ} 3 1
three_ne_one = omega arith

-- Only the Commit fails.
abbrev lost_commit : Faults
lost_commit i = i == 6

abbrev orphaned : Db
orphaned = record db { members = row 1 member ∷ row 2 admin ∷ [] }

orphaned-NoLeader : NoLeader orphaned 7
unfolding role_of
orphaned-NoLeader u = ground arith

abbrev plain_uuid : ℕ → Text
plain_uuid n = lit "0-1"
