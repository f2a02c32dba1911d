-- ===== src/Relay/Examples.antt =====
-- Tests of the model of server/internal/relay/relay.go, and its theorems at concrete inputs.
use astralrelay_online.Common.{
  ℕ, ◌+◌, ◌≤◌, ◌≡◌, ◌≢◌, refl, true, false, none, some, List, [], ◌∷◌, if◌then◌else◌, arith, Result,
  ok, err, no_faults, map, All, take, keep_if, reverse,
}
use astralrelay_online.Common.Text.{
  Text, lit, text_eq, index, has_prefix, trim_space, trim_right, trim_left, trim_prefix, is_space,
  to_lower, lower_byte,
}
use astralrelay_online.Common.Int64.{slt}
use astralrelay_online.Common.Decimal.{itoa}
use astralrelay_online.Rooms.Tables.{member, Db, role_of}
use astralrelay_online.Rooms.Addr.{is_room_addr, parse_room_addr, until_colon}
use astralrelay_online.Relay.Queue.{
  MessageRow, queued, RelayDb, LocalUser, user_by_id, find_event, find_key, insert_message,
  insert_key, local_user,
}
use astralrelay_online.Relay.{
  Service, SendInput, SendError, replay_timestamp, remote_recipient, send, deliver, enqueue,
  is_remote, is_replay, admit, identified, message_of, FederatedEvent, accept_transaction,
}
use astralrelay_online.Relay.Reading.{mark_read}
use astralrelay_online.Relay.Sync.{
  SyncPage, event_of, sync, selected, recipients_of, address_of, effective_limit, order_rows,
  insert_row, is_among,
}
use astralrelay_online.Relay.Delivery.{
  AcceptSpec, accept_transaction-AcceptSpec, accept_transaction_twice,
}
use astralrelay_online.Relay.Sending.{send_twice, room_checker, send_to_room}
use astralrelay_online.Relay.Paging.{key_of}
use astralrelay_online.Relay.FirstLoad.{first_load_drops_newest}
use astralrelay_online.Relay.Receipts.{Marked, mark_read-Marked}

abbrev rooms : Db
rooms = record {
  rooms =
      record { id = 7; name = lit "x"; domain = lit "a.org"; creator_id = 1; created_at = 0 } ∷ [];
  members = record { room_id = 7; user_id = 1; role = member; joined_at = 0 } ∷ [];
  users = [];
}

-- UUIDs in decimal, hashes that keep the text, and no base64.
abbrev service : Service
service = record {
  domain = lit "a.org";
  rooms = some (room_checker false itoa rooms (lit "a.org"));
  sha256 = λ t. t;
  uuid_parse = λ t. if text_eq t (lit "7") then some 7 else none;
  uuid_string = itoa;
  unbase64 = λ t. none;
}

abbrev ann : LocalUser
ann = record { id = 1; username = lit "Ann"; domain = lit "a.org" }

abbrev row : Text → ℕ → MessageRow
row id at = record {
  event_id = id;
  sender = lit "@b:b.org";
  recipient = lit "@Ann:a.org";
  sender_device = lit "1";
  ciphertext = lit "zzz";
  ciphertexts = none;
  session_id = [];
  timestamp = at;
  status = queued;
  created_at = at;
  expires_at = at + 604800;
}

abbrev db : RelayDb
db = record {
  queue = row (lit "e1") 10 ∷ row (lit "e2") 20 ∷ row (lit "e3") 30 ∷ [];
  idempotency_keys = [];
  read_receipts = [];
  sync_cursors = [];
  users = ann ∷ [];
}

abbrev message : Text → Text → SendInput
message recipient key = record {
  event_id = [];
  sender = lit "@Ann:a.org";
  recipient = recipient;
  sender_user_id = 1;
  sender_device = lit "1";
  ciphertext = lit "zz";
  ciphertexts = [];
  session_id = [];
  timestamp = 1000;
  idempotency_key = key;
}

abbrev mine : SendInput
mine = message (lit "@ann:a.org") (lit "k")

abbrev to_room : SendInput
to_room = message (lit "!7:a.org") (lit "k")

abbrev sent : RelayDb × Result SendError Text
sent = send no_faults service 1000 (lit "n1") db mine

sent_test : sent.1 ≡ ok (lit "n1")
unfolding send deliver enqueue is_replay is_remote admit identified room_checker index text_eq
    is_room_addr has_prefix parse_room_addr role_of find_key insert_message find_event message_of
    trim_space trim_right trim_left until_colon trim_prefix is_space local_user to_lower lower_byte
    insert_key
sent_test = refl

late_test : (send no_faults service 2000 (lit "n1") db mine).1 ≡ err replay_timestamp
unfolding send is_replay identified
late_test = refl

away_test :
    (send no_faults service 1000 (lit "n1") db (message (lit "@b:b.org") [])).1
    ≡ err (remote_recipient (lit "n1"))
unfolding send is_replay identified is_remote text_eq index
away_test = refl

no_fault : (k : ℕ) → no_faults k ≡ false
no_fault k = refl

send_twice_example : send no_faults service 1010 (lit "n2") sent.0 mine ≡ (sent.0, ok (lit "n1"))
unfolding send deliver enqueue is_replay is_remote admit identified room_checker index text_eq
    is_room_addr has_prefix parse_room_addr role_of find_key insert_message find_event message_of
    trim_space trim_right trim_left until_colon trim_prefix is_space local_user to_lower lower_byte
    insert_key
send_twice_example =
    send_twice no_faults service 1000 1010 (lit "n1") (lit "n2") db mine mine (lit "n1") no_fault
      refl sent_test refl refl refl refl

room_test : (send no_faults service 1000 (lit "n1") db to_room).1 ≡ ok (lit "n1")
unfolding send deliver enqueue is_replay is_remote admit identified room_checker index text_eq
    is_room_addr has_prefix parse_room_addr role_of find_key insert_message find_event message_of
    trim_space trim_right trim_left until_colon trim_prefix is_space local_user to_lower lower_byte
    insert_key
room_test = refl

send_to_room_example :
    (r : ℕ) × (t : Text) × (dom : Text) × (parse_room_addr (lit "!7:a.org") ≡ some (t, dom))
    × (service.uuid_parse t ≡ some r)
    × (role_of r 1 rooms.members ≢ none)
unfolding is_room_addr has_prefix
send_to_room_example =
    send_to_room no_faults service 1000 (lit "n1") db to_room (lit "n1") false itoa rooms refl refl
      room_test

abbrev event : Text → FederatedEvent
event id = record {
  event_id = id;
  sender = lit "@b:b.org";
  recipient = lit "@Ann:a.org";
  sender_device = lit "1";
  ciphertext = lit "zz";
  session_id = [];
  timestamp = 50;
}

abbrev events : List FederatedEvent
events = event (lit "e3") ∷ event (lit "f1") ∷ []

accept_transaction-AcceptSpec_example :
    AcceptSpec db events (accept_transaction no_faults 50 db events)
accept_transaction-AcceptSpec_example = accept_transaction-AcceptSpec no_faults 50 db events

accept_transaction_twice_example :
    let once = accept_transaction no_faults 50 db events in
    (once.accepted ≡ lit "e3" ∷ lit "f1" ∷ [])
    × (accept_transaction no_faults 60 once.db events
        ≡ record { db = once.db; accepted = lit "e3" ∷ lit "f1" ∷ []; rejected = [] })
accept_transaction_twice_example = accept_transaction_twice no_faults 50 60 db events no_fault

mark_read-Marked_example :
    Marked service
      (lit "@Ann:a.org")
      1
      db
      (lit "e1" ∷ [])
      (mark_read no_faults 0 service (lit "@Ann:a.org") 1 db (lit "e1" ∷ []))
mark_read-Marked_example =
    mark_read-Marked service (lit "@Ann:a.org") 1 no_faults 0 db (lit "e1" ∷ [])

found : user_by_id 1 db.users ≡ some ann
unfolding user_by_id
found = refl

all_rows :
    order_rows none
      (keep_if (selected (recipients_of service 1 (address_of ann)) (address_of ann) none) db.queue)
    ≡ row (lit "e3") 30 ∷ row (lit "e2") 20 ∷ row (lit "e1") 10 ∷ []
unfolding order_rows insert_row keep_if selected recipients_of address_of is_among text_eq
all_rows = refl

first_load_drops_newest_example :
    let me = address_of ann in
    let ev = event_of service me (key_of service 4 me) in
    (page : SyncPage) × ((sync no_faults service 1 4 none 2 db).1 ≡ ok page)
    × (page.events
        ≡ reverse (map ev (take (effective_limit 2) (row (lit "e2") 20 ∷ row (lit "e1") 10 ∷ []))))
    × (page.delivered ≡ [])
    × All (λ m. selected (recipients_of service 1 me) me none m ≡ true → m.created_at ≤ 30) db.queue
unfolding effective_limit slt
first_load_drops_newest_example =
    first_load_drops_newest no_faults service 1 4 2 db ann (row (lit "e3") 30)
      (row (lit "e2") 20 ∷ row (lit "e1") 10 ∷ []) refl refl found all_rows (omega arith)
