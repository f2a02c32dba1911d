-- ===== src/Gateway/Checks.antt =====
-- What the handler of a transaction lets through, and what it does with it.
use astralrelay_online.Common.{
  ℕ, ◌≡◌, ◌≢◌, ◌⊎◌, inl, inr, refl, ap, sym, ◌∙◌, true, false, Option, none, some, List, [], ◌∷◌,
  ◌++◌, if◌then◌else◌, arith, ok, Result-cases, Option-cases, All, length, map,
}
use astralrelay_online.Common.Text.{Text, text_eq, text_eq_iff, is_empty}
use astralrelay_online.Federation.Security.{
  SecurityService, is_blocked, check_allowlist_for_transaction,
}
use astralrelay_online.Federation.Limits.{
  TransactionEvent, TransactionRequest, validate_transaction,
}
use astralrelay_online.Federation.Signing.{Request, verify_request}
use astralrelay_online.Relay.{FederatedEvent, accept_transaction}
use astralrelay_online.Relay.Delivery.{
  InQueue, accept_transaction-AcceptSpec, accept_transaction_twice,
}
use astralrelay_online.Common.Segments.{length-map}
use astralrelay_online.Gateway

-- What the security service has to say for an origin and its transaction.
abbrev pub Trusts : Option SecurityService → ℕ → Text → TransactionRequest → Type 0
Trusts none now origin req = Unit {0}
Trusts (some s) now origin req =
    (is_blocked s origin ≡ false)
    × (check_allowlist_for_transaction s origin ≡ ok tt)
    × (validate_transaction req now ≡ none)

-- A transaction that passed every check.
abbrev pub Passed :
    Gateway.Handler → Gateway.Outcomes → Gateway.Site → Request → Text → TransactionRequest → Type 0
Passed h o s r body req =
    (r.headers.origin ≢ [])
    × ((h.main_only_domain ≡ []) ⊎ (r.headers.origin ≡ h.main_only_domain))
    × ((key : Text) × (h.fetch_server_key r.headers.origin ≡ some key)
        × (verify_request h.crypto o.verify_now o.verify_later r (Gateway.limited_body h body) key
            ≡ ok tt))
    × (h.parse_json (Gateway.limited_body h body) ≡ some req)
    × Trusts s.security o.validate_now r.headers.origin req

security_refusal-none :
    (sec : Option SecurityService) (now : ℕ) (origin : Text) (req : TransactionRequest)
    → Gateway.security_refusal sec origin ≡ none
    → Gateway.is_invalid sec req now ≡ false
    → Trusts sec now origin req
unfolding Gateway.security_refusal Gateway.is_invalid
security_refusal-none none now origin req a b = tt
security_refusal-none (some s) now origin req a b = ground arith

admit_signed_lem :
    (h : Gateway.Handler) (o : Gateway.Outcomes) (s : Gateway.Site) (r : Request) (body key : Text)
    (req : TransactionRequest)
    → Gateway.admit_signed h o s r body key ≡ ok req
    → (verify_request h.crypto o.verify_now o.verify_later r body key ≡ ok tt)
      × (h.parse_json body ≡ some req)
      × (Gateway.is_invalid s.security req o.validate_now ≡ false)
unfolding Gateway.admit_signed
admit_signed_lem h o s r body key req e =
    elim (Result-cases (verify_request h.crypto o.verify_now o.verify_later r body key)) [
      | inr (x, bad) ↦ absurd (ground arith)
      | inl (u, good) ↦ (good, ground arith, ground arith)
    ]

admit_lem :
    (h : Gateway.Handler) (o : Gateway.Outcomes) (s : Gateway.Site) (r : Request) (body : Text)
    (req : TransactionRequest)
    → Gateway.admit h o s r body ≡ ok req
    → (is_empty r.headers.origin ≡ false)
      × ((is_empty h.main_only_domain ≡ true)
          ⊎ (text_eq r.headers.origin h.main_only_domain ≡ true))
      × (Gateway.security_refusal s.security r.headers.origin ≡ none)
      × ((key : Text) × (h.fetch_server_key r.headers.origin ≡ some key)
          × (Gateway.admit_signed h o s r (Gateway.limited_body h body) key ≡ ok req))
unfolding Gateway.admit
admit_lem h o s r body req e = elim (Option-cases (h.fetch_server_key r.headers.origin)) [
  | inl no_key ↦ absurd (ground arith)
  | inr (key, fetched) ↦ (ground arith, ground arith, ground arith, (key, fetched, ground arith))
]

is_empty_nil : (t : Text) → is_empty t ≡ true → t ≡ []
is_empty_nil [] e = refl
is_empty_nil (c ∷ t) e = absurd (ground arith)

admit-Passed :
    (h : Gateway.Handler) (o : Gateway.Outcomes) (s : Gateway.Site) (r : Request) (body : Text)
    (req : TransactionRequest)
    → Gateway.admit h o s r body ≡ ok req
    → Passed h o s r body req
admit-Passed h o s r body req e =
    let (origin, main, trust, (key, fetched, signed)) = admit_lem h o s r body req e in
    let (verified, parsed, valid) =
      admit_signed_lem h o s r (Gateway.limited_body h body) key req signed in
    (
      (λ z. ground arith),
      elim main [
        | inl all ↦ inl (is_empty_nil h.main_only_domain all)
        | inr same ↦ inr ((text_eq_iff r.headers.origin h.main_only_domain).0 same)
      ],
      (key, fetched, verified),
      parsed,
      security_refusal-none s.security o.validate_now r.headers.origin req trust valid,
    )

-- A request is refused and changes nothing, or it passed every check: an origin, the one allowed where
-- only one is, a signature by the key of the origin over the body up to the limit, and an origin and a
-- transaction that the security service lets through, if there is one.
pub transaction-Passed :
    (h : Gateway.Handler) (o : Gateway.Outcomes) (s : Gateway.Site) (r : Request) (body : Text)
    → ((e : Gateway.Refusal) × (Gateway.transaction h o s r body ≡ (s, Gateway.refused e)))
      ⊎ ((req : TransactionRequest) × Passed h o s r body req)
unfolding Gateway.transaction
transaction-Passed h o s r body = elim (Result-cases (Gateway.admit h o s r body)) [
  | inl (req, fine) ↦ inr (req, admit-Passed h o s r body req fine)
  | inr (e, bad) ↦ inl (e, rw (bad, Gateway.transaction) refl)
]

ids_federated :
    (h : Gateway.Handler) (es : List TransactionEvent)
    → map (λ e. e.event_id) (map (Gateway.federated h) es) ≡ map (λ e. e.event_id) es
unfolding Gateway.federated
ids_federated h [] = refl
ids_federated h (e ∷ es) = ap (◌∷◌ e.event_id) (ids_federated h es)

notices_all :
    (h : Gateway.Handler) (es : List TransactionEvent)
    → Gateway.notices (map (Gateway.federated h) es) (map (λ e. e.event_id) es)
      ≡ map (λ e. (e.recipient, e.event_id)) es
unfolding Gateway.notices Gateway.federated
notices_all h [] = refl
notices_all h (e ∷ es) = ap (◌∷◌ (e.recipient, e.event_id)) (notices_all h es)

length-map_ids : (es : List FederatedEvent) → length (map (λ e. e.event_id) es) ≡ length es
length-map_ids es = length-map (λ e. e.event_id) es

nil_of_length : (xs : List Text) → length xs ≡ 0 → xs ≡ []
nil_of_length [] h = refl
nil_of_length (x ∷ xs) h = absurd (omega arith)

-- With no failing call of the relay, a transaction for this server is accepted whole: every event is in
-- the queue, nothing that was there is lost, and each recipient is told of the recipient's own event.
pub deliver_whole :
    (h : Gateway.Handler) (o : Gateway.Outcomes) (s : Gateway.Site) (origin : Text)
    (req : TransactionRequest)
    → ((k : ℕ) → o.relay k ≡ false)
    → let (s', reply) = Gateway.deliver h o s origin req in
      (reply ≡ Gateway.done (map (λ e. e.event_id) req.events) [])
      × All (InQueue s'.relay) (map (λ e. e.event_id) req.events)
      × ((id : Text) → InQueue s.relay id → InQueue s'.relay id)
      × (s'.notified
          ≡ s.notified
            ++ (if h.has_hub then map (λ e. (e.recipient, e.event_id)) req.events else []))
unfolding Gateway.deliver
deliver_whole h o s origin req fine =
    let events = map (Gateway.federated h) req.events in
    let r = accept_transaction o.relay o.accept_now s.relay events in
    let (count, there, keeps) = accept_transaction-AcceptSpec o.relay o.accept_now s.relay events in
    let ids = ids_federated h req.events in
    let all =
      (accept_transaction_twice o.relay o.accept_now o.accept_now s.relay events fine).0 ∙ ids in
    let none_left =
      nil_of_length r.rejected
        (omega (arith, count, length-map_ids events, ap length (all ∙ sym ids))) in
    (rw (all, none_left) refl, rw all at there, keeps, rw (all, notices_all h req.events) refl)
