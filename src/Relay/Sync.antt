-- ===== src/Relay/Sync.antt =====
-- Sync of server/internal/relay/relay.go: a page of messages and its cursor. Times of creation are
-- numbers, and a cursor is such a time; `none` stands for the empty text.
use astralrelay_online.Common.{
  ℕ, suc, Bool, true, false, ◌&&◌, ◌||◌, Option, none, some, List, [], ◌∷◌, ◌++◌, ◌==◌,
  if◌then◌else◌, Result, ok, err, take, length, ltb, leb, Faults, map, reverse, keep_if,
}
use astralrelay_online.Common.Text.{Text, lit, text_eq, has_prefix, is_empty}
use astralrelay_online.Common.Int64.{slt}
use astralrelay_online.Relay.Queue.{
  MessageRow, Status, is_queued, RelayDb, LocalUser, user_by_id, mark_delivered, set_cursor,
}
use astralrelay_online.Relay.{Service, SendError, db_error}
use astralrelay_online.Relay.Reading.{DeliveredUpdate}

pub record SyncEvent : Type 0 where
  pub event_id : Text
  pub sender : Text
  pub recipient : Text
  pub sender_device : Text
  pub timestamp : ℕ
  pub ciphertext : Text
  pub session_id : Text
  pub status : Status

pub record SyncPage : Type 0 where
  pub events : List SyncEvent
  pub next_cursor : Option ℕ
  pub delivered : List DeliveredUpdate

unfoldable pub is_among : Text → List Text → Bool
is_among a [] = false
is_among a (b ∷ bs) = text_eq a b || is_among a bs

-- The WHERE of the query.
unfoldable pub selected : List Text → Text → Option ℕ → MessageRow → Bool
selected recipients me since m =
    (is_among m.recipient recipients || text_eq m.sender me)
    && elim since [ none ↦ true | some c ↦ is_queued m.status && ltb c m.created_at ]

-- ORDER BY created_at, and created_at DESC for a first load.
abbrev pub goes_before : Option ℕ → MessageRow → MessageRow → Bool
goes_before none a b = leb b.created_at a.created_at
goes_before (some c) a b = leb a.created_at b.created_at

unfoldable pub insert_row : Option ℕ → MessageRow → List MessageRow → List MessageRow
insert_row since m [] = m ∷ []
insert_row since m (x ∷ xs) =
    if goes_before since m x then m ∷ x ∷ xs else x ∷ insert_row since m xs

unfoldable pub order_rows : Option ℕ → List MessageRow → List MessageRow
order_rows since [] = []
order_rows since (m ∷ ms) = insert_row since m (order_rows since ms)

-- The rows of the query, with its LIMIT of one more than asked.
unfoldable pub query_rows : List Text → Text → Option ℕ → ℕ → List MessageRow → List MessageRow
query_rows recipients me since limit queue =
    take (suc limit) (order_rows since (keep_if (selected recipients me since) queue))

unfoldable pub lookup_text : Text → List (Text × Text) → Text
lookup_text k [] = []
lookup_text k ((j, v) ∷ m) = if text_eq j k then v else lookup_text k m

-- The recipient's own ciphertext of a room message: by device, then by address.
abbrev own_ciphertext : Text → Text → List (Text × Text) → Text
own_ciphertext device_key me cts =
    if is_empty (lookup_text device_key cts) then lookup_text me cts else lookup_text device_key cts

unfoldable pub decode_ciphertext : Service → Text → Text → Text
decode_ciphertext s fallback ct = if is_empty ct then fallback else elim (s.unbase64 ct) [
  | some dec ↦ dec
  | none ↦ if has_prefix ct (lit "sig1:") || has_prefix ct (lit "sk1:") then ct else fallback
]

unfoldable pub event_of : Service → Text → Text → MessageRow → SyncEvent
unfolding decode_ciphertext lookup_text
event_of s me device_key m = record {
  event_id = m.event_id;
  sender = m.sender;
  recipient = m.recipient;
  sender_device = m.sender_device;
  timestamp = m.timestamp;
  ciphertext = elim m.ciphertexts [
    | none ↦ m.ciphertext
    | some cts ↦ decode_ciphertext s m.ciphertext (own_ciphertext device_key me cts)
  ];
  session_id = m.session_id;
  status = m.status;
}

-- The loop over the rows: the cursor of the row at the limit, and that of the last row.
unfoldable pub scan_rows : ℕ → ℕ → ℕ → ℕ → List MessageRow → ℕ × ℕ
scan_rows limit count cursor last [] = (cursor, last)
scan_rows limit count cursor last (m ∷ ms) =
    scan_rows limit (suc count) (if suc count == limit then m.created_at else cursor) m.created_at
      ms

-- A first load comes newest first, and is turned round.
abbrev pub in_order {ℓ} : {A : Type ℓ} → Option ℕ → List A → List A
in_order none es = reverse es
in_order (some c) es = es

unfoldable pub mark_incoming :
    Faults → ℕ → Text → RelayDb → List SyncEvent → RelayDb × List DeliveredUpdate
mark_incoming f i me d [] = (d, [])
mark_incoming f i me d (e ∷ es) =
    let d' = if f i then d else record d { queue = mark_delivered e.event_id d.queue } in
    let told = mark_incoming f (suc i) me d' es in
    let rest = mark_incoming f i me d es in
    if text_eq e.sender me
    then rest
    else (told.0, record { sender_addr = e.sender; event_id = e.event_id } ∷ told.1)

-- What follows the query: the page, or an empty answer.
unfoldable pub finish :
    Faults → Service → ℕ → ℕ → Text → Option ℕ → ℕ → RelayDb → List MessageRow → RelayDb × SyncPage
finish f s user device me since limit d rows =
    let events = in_order since (map (event_of s me (me ++ (b':' ∷ s.uuid_string device))) rows) in
    let (cursor, last) = scan_rows limit 0 0 0 rows in
    let (d', told) = mark_incoming f 3 me d events in
    if ltb limit (length events)
    then (d, record { events = take limit events; next_cursor = some cursor; delivered = [] })
    else if length events == 0
    then (d, record { events = []; next_cursor = none; delivered = [] })
    else (
      (if f 2 then d' else set_cursor user device last d'),
      record { events = events; next_cursor = some last; delivered = told },
    )

unfoldable pub effective_limit : ℕ → ℕ
effective_limit limit = if slt 0 limit then limit else 100

unfoldable pub address_of : LocalUser → Text
address_of u = b'@' ∷ (u.username ++ (b':' ∷ u.domain))

-- The user's address and those of the user's rooms; an error of the rooms service leaves them out.
unfoldable pub recipients_of : Service → ℕ → Text → List Text
recipients_of s user me = me ∷ elim s.rooms [
  | none ↦ []
  | some rooms ↦ elim (rooms.get_room_addrs_for_user user) [ none ↦ [] | some addrs ↦ addrs ]
]

unfoldable pub sync :
    Faults → Service → ℕ → ℕ → Option ℕ → ℕ → RelayDb → RelayDb × Result SendError SyncPage
sync f s user device since limit d = elim (if f 0 then none else user_by_id user d.users) [
  | none ↦ (d, err db_error)
  | some u ↦
      if f 1
      then (d, err db_error)
      else (let me = address_of u in
          let lim = effective_limit limit in
          let done =
            finish f s user device me since lim d
              (query_rows (recipients_of s user me) me since lim d.queue) in
          (done.0, ok done.1))
]
