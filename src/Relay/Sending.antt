-- ===== src/Relay/Sending.antt =====
-- Send of server/internal/relay/relay.go: what a message needs, and messages that are sent twice.
use astralrelay_online.Common.{
  ℕ, ◌+◌, ◌≤◌, ◌≡◌, ◌≢◌, inl, inr, ap, sym, ◌∙◌, Bool, true, false, none, some, [], ◌∷◌, ◌++◌,
  arith, ok, err, Faults, Option-cases,
}
use astralrelay_online.Common.Text.{Text, text_eq_refl, is_empty}
use astralrelay_online.Common.Int64.{biased}
use astralrelay_online.Common.Int64.{IsClock, IsInt64}
use astralrelay_online.Rooms
use astralrelay_online.Rooms.Tables.{Db, role_of}
use astralrelay_online.Rooms.Addr.{is_room_addr, parse_room_addr}
use astralrelay_online.Relay.Queue.{RelayDb, RoomChecker, insert_message, find_key, insert_key}
use astralrelay_online.Relay.{
  Service, SendInput, SendError, send, deliver, enqueue, admit, is_replay, is_remote, identified,
  message_of,
}
use astralrelay_online.Relay.Delivery.{is_replay_iff}

send_checks :
    (f : Faults) (s : Service) (now : ℕ) (fresh : Text) (d : RelayDb) (m : SendInput) (id : Text)
    → (send f s now fresh d m).1 ≡ ok id
    → (is_replay now m.timestamp ≡ false)
      × (is_remote s (identified fresh m) ≡ false)
      × (admit f s d (identified fresh m) ≡ none)
unfolding send identified
send_checks f s now fresh d m id h = ground arith

-- A message that is accepted has its time between 300 s before and 60 s after the clock, a local
-- recipient, and passes the checks of its recipient.
pub send_needs :
    (f : Faults) (s : Service) (now : ℕ) (fresh : Text) (d : RelayDb) (m : SendInput) (id : Text)
    → IsClock now
    → IsInt64 m.timestamp
    → (send f s now fresh d m).1 ≡ ok id
    → (biased now ≤ biased m.timestamp + 300)
      × (biased m.timestamp ≤ biased now + 60)
      × (is_remote s (identified fresh m) ≡ false)
      × (admit f s d (identified fresh m) ≡ none)
send_needs f s now fresh d m id c w h =
    let (a, b, e) = send_checks f s now fresh d m id h in
    let window = (is_replay_iff now m.timestamp c w).0 a in (window.0, window.1, b, e)

-- A message that is refused changes no table.
pub send_refused :
    (f : Faults) (s : Service) (now : ℕ) (fresh : Text) (d : RelayDb) (m : SendInput)
    (e : SendError)
    → (send f s now fresh d m).1 ≡ err e
    → (send f s now fresh d m).0 ≡ d
unfolding send deliver enqueue insert_message
send_refused f s now fresh d m e h = ground arith

find_key-insert_key :
    (h id : Text) (d : RelayDb)
    → find_key h d.idempotency_keys ≡ none
    → find_key h (insert_key h id d).idempotency_keys ≡ some id
unfolding insert_key find_key
find_key-insert_key h id d new = ground (arith, text_eq_refl h)

-- After a message with a key is accepted, the key is found with the event's identifier.
deliver_keyed :
    (f : Faults) (s : Service) (now : ℕ) (d : RelayDb) (m : SendInput) (id : Text)
    → ((k : ℕ) → f k ≡ false)
    → is_empty m.idempotency_key ≡ false
    → (deliver f s now d m).1 ≡ ok id
    → find_key (s.sha256 m.idempotency_key) (deliver f s now d m).0.idempotency_keys ≡ some id
unfolding deliver enqueue insert_message
deliver_keyed f s now d m id fine keyed h =
    let stored = record d { queue = d.queue ++ message_of now m ∷ [] } in
    ground (
      arith,
      fine 1,
      fine 2,
      fine 3,
      find_key-insert_key (s.sha256 m.idempotency_key) m.event_id stored,
    )

-- A key that is found answers with its event, and nothing changes.
deliver_found :
    (f : Faults) (s : Service) (now : ℕ) (d : RelayDb) (m : SendInput) (id : Text)
    → f 1 ≡ false
    → is_empty m.idempotency_key ≡ false
    → find_key (s.sha256 m.idempotency_key) d.idempotency_keys ≡ some id
    → deliver f s now d m ≡ (d, ok id)
unfolding deliver
deliver_found f s now d m id fine keyed found = ground arith

-- A message that passes the checks is delivered.
send-eq-deliver :
    (f : Faults) (s : Service) (now : ℕ) (fresh : Text) (d : RelayDb) (m : SendInput)
    → is_replay now m.timestamp ≡ false
    → is_remote s (identified fresh m) ≡ false
    → admit f s d (identified fresh m) ≡ none
    → send f s now fresh d m ≡ deliver f s now d (identified fresh m)
unfolding send identified
send-eq-deliver f s now fresh d m a b c = ground arith

-- A message that is sent again under its key, whatever else the second call holds, gets the
-- identifier of the first and is not queued again, if no call fails and it passes the checks.
pub send_twice :
    (f : Faults) (s : Service) (now later : ℕ) (fresh fresh' : Text) (d : RelayDb)
    (m m' : SendInput) (id : Text)
    → ((k : ℕ) → f k ≡ false)
    → is_empty m.idempotency_key ≡ false
    → (send f s now fresh d m).1 ≡ ok id
    → m'.idempotency_key ≡ m.idempotency_key
    → is_replay later m'.timestamp ≡ false
    → is_remote s (identified fresh' m') ≡ false
    → admit f s (send f s now fresh d m).0 (identified fresh' m') ≡ none
    → send f s later fresh' (send f s now fresh d m).0 m' ≡ ((send f s now fresh d m).0, ok id)
send_twice f s now later fresh fresh' d m m' id fine keyed sent same window local allowed =
    let (a, b, e) = send_checks f s now fresh d m id sent in
    let first = send-eq-deliver f s now fresh d m a b e in
    let found =
      deliver_keyed f s now d (identified fresh m) id fine (unfold identified in keyed)
        (ap (λ r. r.1) (sym first) ∙ sent) in
    send-eq-deliver f s later fresh' _ m' window local allowed
    ∙ deliver_found f s later _ (identified fresh' m') id (fine 1)
        (unfold identified in rw same keyed) (unfold identified in rw (first, same) found)

-- The rooms service behind the interface that the relay takes.
unfoldable pub room_checker : Bool → (ℕ → Text) → Db → Text → RoomChecker
unfolding Rooms.is_member Rooms.get_room_addrs_for_user
room_checker fault uuid_string d domain = record {
  is_member =
      λ room user. elim (Rooms.is_member fault d room user) [ ok b ↦ some b | err e ↦ none ];
  get_room_addrs_for_user = λ user.
      elim (Rooms.get_room_addrs_for_user uuid_string fault d domain user) [
        | ok l ↦ some l
        | err e ↦ none
      ];
}

-- A message to a room is accepted only from a member: the address parses, its first part is a UUID,
-- and the sending user has a role in that room.
pub send_to_room :
    (f : Faults) (s : Service) (now : ℕ) (fresh : Text) (d : RelayDb) (m : SendInput) (id : Text)
    (fault : Bool) (uuid_string : ℕ → Text) (rooms : Db)
    → s.rooms ≡ some (room_checker fault uuid_string rooms s.domain)
    → is_room_addr m.recipient ≡ true
    → (send f s now fresh d m).1 ≡ ok id
    → (r : ℕ) × (t : Text) × (dom : Text) × (parse_room_addr m.recipient ≡ some (t, dom))
      × (s.uuid_parse t ≡ some r)
      × (role_of r m.sender_user_id rooms.members ≢ none)
unfolding admit identified room_checker
send_to_room f s now fresh d m id fault uuid_string rooms has room sent =
    let (a, b, e) = send_checks f s now fresh d m id sent in
    elim (Option-cases (parse_room_addr m.recipient)) [
      | inl bad ↦ absurd (ground arith)
      | inr ((t, dom), p) ↦ elim (Option-cases (s.uuid_parse t)) [
        | inl bad ↦ absurd (ground arith)
        | inr (r, q) ↦ (r, t, dom, p, q, λ z. ground arith)
      ]
    ]
