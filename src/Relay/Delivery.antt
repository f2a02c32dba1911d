-- ===== src/Relay/Delivery.antt =====
-- What the queue of server/internal/relay/relay.go holds after messages are accepted and sent.
use astralrelay_online.Common.{
  ℕ, ◌+◌, ◌*◌, ◌≤◌, ◌≡◌, ◌↔◌, inl, inr, refl, ap, Bool, true, false, ◌||◌, List, [], ◌∷◌, ◌++◌,
  arith, length, Faults, map, All, Bool-cases,
}
use astralrelay_online.Common.Text.{Text, text_eq, text_eq_refl}
use astralrelay_online.Common.Int64.{biased}
use astralrelay_online.Common.Int64.{IsClock, IsInt64}
use astralrelay_online.Relay.Queue.{MessageRow, RelayDb, find_event, insert_message}
use astralrelay_online.Relay.{
  is_replay, FederatedEvent, federated_message, accept_event, accept_from, accept_transaction,
  Accepted,
}

pub find_event-append :
    (id : Text) (ms : List MessageRow) (m : MessageRow)
    → find_event id (ms ++ m ∷ []) ≡ (find_event id ms || text_eq m.event_id id)
unfolding find_event
find_event-append id [] m = ground arith
find_event-append id (x ∷ ms) m = ground (arith, find_event-append id ms m)

abbrev pub InQueue : RelayDb → Text → Type 0
InQueue d id = find_event id d.queue ≡ true

-- One event: what was queued stays, the event is queued if it is accepted, and an event that is
-- there already, or a call that succeeds, is accepted.
accept_event_lem :
    (a b : Bool) (now : ℕ) (d : RelayDb) (e : FederatedEvent) (id : Text)
    → let (d', done) = accept_event a b now d e in
      (InQueue d id → InQueue d' id)
      × (done ≡ true → InQueue d' e.event_id)
      × (a ≡ false → b ≡ false → done ≡ true)
      × (a ≡ false → InQueue d e.event_id → (d' ≡ d) × (done ≡ true))
unfolding accept_event insert_message
accept_event_lem a b now d e id = ground (
  arith,
  find_event-append id d.queue (federated_message now e),
  find_event-append e.event_id d.queue (federated_message now e),
  text_eq_refl e.event_id,
)

accept_from_keeps :
    (f : Faults) (i now : ℕ) (d : RelayDb) (es : List FederatedEvent) (id : Text)
    → InQueue d id
    → InQueue (accept_from f i now d es).db id
unfolding accept_from
accept_from_keeps f i now d [] id h = h
accept_from_keeps f i now d (e ∷ es) id h =
    let step = accept_event (f (2 * i)) (f (2 * i + 1)) now d e in
    let one = accept_event_lem (f (2 * i)) (f (2 * i + 1)) now d e id in
    ground (arith, accept_from_keeps f (i + 1) now step.0 es id (one.0 h))

-- What AcceptTransaction does to the queue and answers.
abbrev pub AcceptSpec : RelayDb → List FederatedEvent → Accepted → Type 0
AcceptSpec d es r =
    (length r.accepted + length r.rejected ≡ length es)
    × All (InQueue r.db) r.accepted
    × ((id : Text) → InQueue d id → InQueue r.db id)

accept_from-AcceptSpec :
    (f : Faults) (i now : ℕ) (d : RelayDb) (es : List FederatedEvent)
    → AcceptSpec d es (accept_from f i now d es)
unfolding accept_from
accept_from-AcceptSpec f i now d [] = (refl, tt, λ id h. h)
accept_from-AcceptSpec f i now d (e ∷ es) =
    let step = accept_event (f (2 * i)) (f (2 * i + 1)) now d e in
    let (count, there, keeps) = accept_from-AcceptSpec f (i + 1) now step.0 es in
    let one = accept_event_lem (f (2 * i)) (f (2 * i + 1)) now d e e.event_id in
    let stays = accept_from_keeps f (i + 1) now step.0 es e.event_id in
    elim (Bool-cases step.1) [
      | inl done ↦ (
        rw done (omega arith),
        rw done (stays (one.1 done), there),
        λ id h. rw done (
            accept_from_keeps f (i + 1) now step.0 es id
              ((accept_event_lem (f (2 * i)) (f (2 * i + 1)) now d e id).0 h)),
      )
      | inr refused ↦ (
        rw refused (omega arith),
        rw refused there,
        λ id h. rw refused (
            accept_from_keeps f (i + 1) now step.0 es id
              ((accept_event_lem (f (2 * i)) (f (2 * i + 1)) now d e id).0 h)),
      )
    ]

-- Whatever calls fail, accepted and rejected events are as many as were sent, what is accepted is in
-- the queue, and what was in the queue stays there.
pub accept_transaction-AcceptSpec :
    (f : Faults) (now : ℕ) (d : RelayDb) (es : List FederatedEvent)
    → AcceptSpec d es (accept_transaction f now d es)
unfolding accept_transaction
accept_transaction-AcceptSpec f now d es = accept_from-AcceptSpec f 0 now d es

-- With no failing call every event is accepted.
accept_from_all :
    (f : Faults) (i now : ℕ) (d : RelayDb) (es : List FederatedEvent)
    → ((k : ℕ) → f k ≡ false)
    → (accept_from f i now d es).accepted ≡ map (λ e. e.event_id) es
unfolding accept_from
accept_from_all f i now d [] fine = refl
accept_from_all f i now d (e ∷ es) fine =
    let step = accept_event (f (2 * i)) (f (2 * i + 1)) now d e in
    let one = accept_event_lem (f (2 * i)) (f (2 * i + 1)) now d e e.event_id in
    let done = one.2 (fine (2 * i)) (fine (2 * i + 1)) in
    rw done (ap (◌∷◌ e.event_id) (accept_from_all f (i + 1) now step.0 es fine))

-- Events that are all there are accepted, and change nothing.
accept_from_again :
    (f : Faults) (i now : ℕ) (d : RelayDb) (es : List FederatedEvent)
    → ((k : ℕ) → f k ≡ false)
    → All (InQueue d) (map (λ e. e.event_id) es)
    → accept_from f i now d es
      ≡ record { db = d; accepted = map (λ e. e.event_id) es; rejected = [] }
unfolding accept_from
accept_from_again f i now d [] fine there = refl
accept_from_again f i now d (e ∷ es) fine there =
    let step = accept_event (f (2 * i)) (f (2 * i + 1)) now d e in
    let one = accept_event_lem (f (2 * i)) (f (2 * i + 1)) now d e e.event_id in
    let (same, done) = one.3 (fine (2 * i)) there.0 in
    rw (done, same) (ground (arith, accept_from_again f (i + 1) now d es fine there.1))

-- A transaction that is received twice, with no failing call, is accepted whole both times, and the
-- second time changes nothing.
pub accept_transaction_twice :
    (f : Faults) (now later : ℕ) (d : RelayDb) (es : List FederatedEvent)
    → ((k : ℕ) → f k ≡ false)
    → let once = accept_transaction f now d es in
      (once.accepted ≡ map (λ e. e.event_id) es)
      × (accept_transaction f later once.db es
          ≡ record { db = once.db; accepted = map (λ e. e.event_id) es; rejected = [] })
unfolding accept_transaction
accept_transaction_twice f now later d es fine =
    let all = accept_from_all f 0 now d es fine in
    let there = (accept_from-AcceptSpec f 0 now d es).1 in
    (all, accept_from_again f 0 later (accept_from f 0 now d es).db es fine (rw all at there))

-- A timestamp is in the window exactly from 300 s before the clock to 60 s after it.
pub is_replay_iff :
    (now ts : ℕ)
    → IsClock now
    → IsInt64 ts
    → (is_replay now ts ≡ false) ↔ ((biased now ≤ biased ts + 300) × (biased ts ≤ biased now + 60))
unfolding is_replay
is_replay_iff now ts c w = (λ h. ground arith, λ h. ground arith)
