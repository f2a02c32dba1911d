-- ===== src/Relay.antt =====
-- server/internal/relay/relay.go: the message queue. Sending, and accepting from other servers, over
-- the tables as a value.
pub mod Queue
pub mod Reading
pub mod Sync
pub mod Delivery
pub mod Sending
pub mod Ordering
pub mod Cursor
pub mod Paging
pub mod Following
pub mod FirstLoad
pub mod Receipts
mod Examples
use astralrelay_online.Common.{
  ℕ, suc, ◌+◌, ◌*◌, ◌≡◌, Bool, true, false, not, ◌&&◌, ◌||◌, Option, none, some, List, [], ◌∷◌,
  ◌++◌, ◌==◌, if◌then◌else◌, arith, Result, ok, err, take, drop, length, ltb, Faults, map,
}
use astralrelay_online.Common.Text.{
  Text, lit, text_eq, has_prefix, is_empty, trim_space, to_lower, trim_prefix, index,
}
use astralrelay_online.Common.Int64.{slt, sub64, add64}
use astralrelay_online.Rooms.Addr.{is_room_addr, parse_room_addr, until_colon}
use Queue
use Queue.{
  MessageRow, Status, queued, RelayDb, RoomChecker, find_event, insert_message, find_key,
  insert_key, local_user, add_receipt,
}

-- The service, with the packages crypto/sha256, encoding/base64 and github.com/google/uuid.
pub record Service : Type 0 where
  pub domain : Text
  pub rooms : Option RoomChecker
  pub sha256 : Text → Text
  pub uuid_parse : Text → Option ℕ
  pub uuid_string : ℕ → Text
  pub unbase64 : Text → Option Text

pub record SendInput : Type 0 where
  pub event_id : Text
  pub sender : Text
  pub recipient : Text
  pub sender_user_id : ℕ
  pub sender_device : Text
  pub ciphertext : Text
  pub ciphertexts : List (Text × Text)
  pub session_id : Text
  pub timestamp : ℕ
  pub idempotency_key : Text

pub data SendError : Type 0 where
  replay_timestamp invalid_room_addr invalid_room_id not_room_member check_failed : SendError
  recipient_not_found db_error insert_failed : SendError
  remote_recipient : Text → SendError

-- The part behind the first colon, if it is not empty.
unfoldable pub extract_domain : Text → Text
extract_domain addr = elim (index addr b':') [
  | none ↦ []
  | some i ↦ if ltb (i + 1) (length addr) then drop (i + 1) addr else []
]

-- timestamp < now - 300 || timestamp > now + 60
unfoldable pub is_replay : ℕ → ℕ → Bool
unfolding sub64 add64 slt
is_replay now ts = slt ts (sub64 now 300) || slt (add64 now 60) ts

abbrev admit_room : Service → RoomChecker → SendInput → Option SendError
admit_room s rooms in' = elim (parse_room_addr in'.recipient) [
  | none ↦ some invalid_room_addr
  | some (room, dom) ↦ elim (s.uuid_parse room) [
    | none ↦ some invalid_room_id
    | some rid ↦ elim (rooms.is_member rid in'.sender_user_id) [
      | none ↦ some not_room_member
      | some m ↦ if m then none else some not_room_member
    ]
  ]
]

abbrev user_of : Text → Text
user_of recipient = trim_space (until_colon (trim_prefix recipient (lit "@")))

abbrev admit_user : Faults → Service → RelayDb → SendInput → Option SendError
admit_user f s d in' =
    if is_empty (user_of in'.recipient)
    then none
    else if f 0
    then some check_failed
    else if local_user (user_of in'.recipient) s.domain d.users
    then none
    else some recipient_not_found

-- The checks of a local recipient; `none` is admitted.
unfoldable pub admit : Faults → Service → RelayDb → SendInput → Option SendError
admit f s d in' = elim s.rooms [
  | none ↦ admit_user f s d in'
  | some rooms ↦ if is_room_addr in'.recipient then admit_room s rooms in' else admit_user f s d in'
]

unfoldable pub message_of : ℕ → SendInput → MessageRow
message_of now in' = record {
  event_id = in'.event_id;
  sender = in'.sender;
  recipient = in'.recipient;
  sender_device = in'.sender_device;
  ciphertext = elim in'.ciphertexts [ [] ↦ in'.ciphertext | c ∷ cs ↦ [] ];
  ciphertexts = elim in'.ciphertexts [ [] ↦ none | c ∷ cs ↦ some (c ∷ cs) ];
  session_id = in'.session_id;
  timestamp = in'.timestamp;
  status = queued;
  created_at = now;
  expires_at = now + 7 * 24 * 3600;
}

-- The two inserts; an error of the second is dropped.
unfoldable pub enqueue :
    Faults → Service → ℕ → RelayDb → SendInput → RelayDb × Result SendError Text
enqueue f s now d in' =
    if f 2 then (d, err insert_failed) else elim (insert_message (message_of now in') d) [
      | none ↦ (d, err insert_failed)
      | some d' ↦
          if is_empty in'.idempotency_key || f 3
          then (d', ok in'.event_id)
          else (insert_key (s.sha256 in'.idempotency_key) in'.event_id d', ok in'.event_id)
    ]

-- From the idempotency key on.
unfoldable pub deliver :
    Faults → Service → ℕ → RelayDb → SendInput → RelayDb × Result SendError Text
deliver f s now d in' =
    if is_empty in'.idempotency_key
    then enqueue f s now d in'
    else if f 1
    then (d, err db_error)
    else elim (find_key (s.sha256 in'.idempotency_key) d.idempotency_keys) [
      | some existing ↦ (d, ok existing)
      | none ↦ enqueue f s now d in'
    ]

-- `fresh` is "evt_" and a new UUID.
unfoldable pub identified : Text → SendInput → SendInput
identified fresh in' = record in' {
  event_id = if is_empty in'.event_id then fresh else in'.event_id;
}

unfoldable pub is_remote : Service → SendInput → Bool
unfolding extract_domain
is_remote s in' =
    not (is_empty (extract_domain in'.recipient))
    && not (text_eq (extract_domain in'.recipient) s.domain)

unfoldable pub send :
    Faults → Service → ℕ → Text → RelayDb → SendInput → RelayDb × Result SendError Text
send f s now fresh d in0 =
    let in' = identified fresh in0 in
    if is_replay now in'.timestamp
    then (d, err replay_timestamp)
    else if is_remote s in'
    then (d, err (remote_recipient in'.event_id))
    else elim (admit f s d in') [ some e ↦ (d, err e) | none ↦ deliver f s now d in' ]

pub record FederatedEvent : Type 0 where
  pub event_id : Text
  pub sender : Text
  pub recipient : Text
  pub sender_device : Text
  pub ciphertext : Text
  pub session_id : Text
  pub timestamp : ℕ

unfoldable pub federated_message : ℕ → FederatedEvent → MessageRow
federated_message now e = record {
  event_id = e.event_id;
  sender = e.sender;
  recipient = e.recipient;
  sender_device = e.sender_device;
  ciphertext = e.ciphertext;
  ciphertexts = none;
  session_id = e.session_id;
  timestamp = e.timestamp;
  status = queued;
  created_at = now;
  expires_at = now + 7 * 24 * 3600;
}

-- Whether the event is accepted. A failing look is taken for "not there", a failing insert rejects.
unfoldable pub accept_event : Bool → Bool → ℕ → RelayDb → FederatedEvent → RelayDb × Bool
unfolding federated_message
accept_event look_fails insert_fails now d e =
    if not look_fails && find_event e.event_id d.queue
    then (d, true)
    else if insert_fails
    then (d, false)
    else elim (insert_message (federated_message now e) d) [
      | none ↦ (d, false)
      | some d' ↦ (d', true)
    ]

pub record Accepted : Type 0 where
  pub db : RelayDb
  pub accepted : List Text
  pub rejected : List Text

-- The loop; the calls of the event at place `i` are 2 i and 2 i + 1.
unfoldable pub accept_from : Faults → ℕ → ℕ → RelayDb → List FederatedEvent → Accepted
accept_from f i now d [] = record { db = d; accepted = []; rejected = [] }
accept_from f i now d (e ∷ es) =
    let step = accept_event (f (2 * i)) (f (2 * i + 1)) now d e in
    let rest = accept_from f (i + 1) now step.0 es in
    if step.1
    then record rest { accepted = e.event_id ∷ rest.accepted }
    else record rest { rejected = e.event_id ∷ rest.rejected }

unfoldable pub accept_transaction : Faults → ℕ → RelayDb → List FederatedEvent → Accepted
unfolding accept_from
accept_transaction f now d events = accept_from f 0 now d events
