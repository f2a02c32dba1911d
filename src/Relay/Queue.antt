-- ===== src/Relay/Queue.antt =====
-- The tables message_queue, idempotency_keys, read_receipts and sync_cursors (db/migrations), and
-- the SQL statements that server/internal/relay/relay.go runs on them.
use astralrelay_online.Common.{
  ℕ, Bool, true, false, ◌&&◌, ◌||◌, Option, none, some, List, [], ◌∷◌, ◌++◌, ◌==◌, if◌then◌else◌,
}
use astralrelay_online.Common.Text.{Text, text_eq, to_lower}

pub data Status : Type 0 where
  queued delivered : Status

abbrev pub is_queued : Status → Bool
is_queued queued = true
is_queued delivered = false

pub record MessageRow : Type 0 where
  pub event_id : Text
  pub sender : Text
  pub recipient : Text
  pub sender_device : Text
  pub ciphertext : Text
  pub ciphertexts : Option (List (Text × Text))
  pub session_id : Text
  pub timestamp : ℕ
  pub status : Status
  pub created_at : ℕ
  pub expires_at : ℕ

pub record LocalUser : Type 0 where
  pub id : ℕ
  pub username : Text
  pub domain : Text

pub record RelayDb : Type 0 where
  pub queue : List MessageRow
  pub idempotency_keys : List (Text × Text)
  pub read_receipts : List (Text × Text)
  pub sync_cursors : List (ℕ × ℕ × ℕ)
  pub users : List LocalUser

-- The interface RoomChecker; `none` is an error.
pub record RoomChecker : Type 0 where
  pub is_member : ℕ → ℕ → Option Bool
  pub get_room_addrs_for_user : ℕ → Option (List Text)

-- SELECT … FROM message_queue WHERE event_id = id
unfoldable pub get_event : Text → List MessageRow → Option MessageRow
get_event id [] = none
get_event id (m ∷ ms) = if text_eq m.event_id id then some m else get_event id ms

abbrev pub is_found {ℓ} : {A : Type ℓ} → Option A → Bool
is_found none = false
is_found (some a) = true

-- SELECT EXISTS(SELECT 1 FROM message_queue WHERE event_id = id)
unfoldable pub find_event : Text → List MessageRow → Bool
find_event id [] = false
find_event id (m ∷ ms) = text_eq m.event_id id || find_event id ms

-- INSERT INTO message_queue; `none` is the violated UNIQUE of event_id.
unfoldable pub insert_message : MessageRow → RelayDb → Option RelayDb
insert_message m d =
    if find_event m.event_id d.queue then none else some (record d { queue = d.queue ++ m ∷ [] })

-- SELECT event_id FROM idempotency_keys WHERE key_hash = h
unfoldable pub find_key : Text → List (Text × Text) → Option Text
find_key h [] = none
find_key h ((k, v) ∷ m) = if text_eq k h then some v else find_key h m

-- INSERT INTO idempotency_keys, whose error is dropped: a key that is there stays.
unfoldable pub insert_key : Text → Text → RelayDb → RelayDb
insert_key h id d =
    if is_found (find_key h d.idempotency_keys)
    then d
    else record d { idempotency_keys = (h, id) ∷ d.idempotency_keys }

-- SELECT EXISTS(SELECT 1 FROM users WHERE LOWER(username) = LOWER(name) AND domain = dom)
unfoldable pub local_user : Text → Text → List LocalUser → Bool
local_user name dom [] = false
local_user name dom (u ∷ us) =
    (text_eq (to_lower u.username) (to_lower name) && text_eq u.domain dom)
    || local_user name dom us

-- SELECT username, domain FROM users WHERE id = i
unfoldable pub user_by_id : ℕ → List LocalUser → Option LocalUser
user_by_id i [] = none
user_by_id i (u ∷ us) = if u.id == i then some u else user_by_id i us

unfoldable pub has_receipt : Text → Text → List (Text × Text) → Bool
has_receipt id reader [] = false
has_receipt id reader ((e, r) ∷ rs) = (text_eq e id && text_eq r reader) || has_receipt id reader rs

-- INSERT INTO read_receipts … ON CONFLICT (event_id, reader_addr) DO NOTHING
unfoldable pub add_receipt : Text → Text → RelayDb → RelayDb
unfolding has_receipt
add_receipt id reader d =
    if has_receipt id reader d.read_receipts
    then d
    else record d { read_receipts = (id, reader) ∷ d.read_receipts }

abbrev pub mark_row : Text → MessageRow → MessageRow
mark_row id m = if text_eq m.event_id id then record m { status = delivered } else m

-- UPDATE message_queue SET status = 'delivered' WHERE event_id = id
unfoldable pub mark_delivered : Text → List MessageRow → List MessageRow
mark_delivered id [] = []
mark_delivered id (m ∷ ms) = mark_row id m ∷ mark_delivered id ms

abbrev pub without_cursor : ℕ → ℕ → List (ℕ × ℕ × ℕ) → List (ℕ × ℕ × ℕ)
without_cursor u v [] = []
without_cursor u v ((a, b, c) ∷ cs) =
    let rest = without_cursor u v cs in if (a == u) && (b == v) then rest else (a, b, c) ∷ rest

-- INSERT INTO sync_cursors … ON CONFLICT (user_id, device_id) DO UPDATE SET cursor
unfoldable pub set_cursor : ℕ → ℕ → ℕ → RelayDb → RelayDb
set_cursor u v c d = record d { sync_cursors = (u, v, c) ∷ without_cursor u v d.sync_cursors }
