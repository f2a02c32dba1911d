-- ===== src/Federation/Validity.antt =====
-- What ValidateTransaction of server/internal/federation/security.go accepts, and which event it names.
use astralrelay_online.Common.{
  ℕ, zero, suc, ◌+◌, ◌≤◌, ◌≡◌, ◌↔◌, inl, inr, false, Option, none, some, List, [], ◌∷◌, arith, All,
  length, Option-cases, subst,
}
use astralrelay_online.Common.Int64.{biased, IsClock, IsInt64}
use astralrelay_online.Federation.Limits.{
  TransactionEvent, TransactionRequest, LimitError, transaction_id_too_long,
  transaction_id_required, too_many_events, events_required, event_id_too_long, sender_too_long,
  recipient_too_long, ciphertext_too_long, session_id_too_long, timestamp_out_of_window,
  out_of_window, validate_event, validate_events, validate_transaction,
}

-- The limits, and a time from 360 s before to 60 s after the server's.
pub record InLimits (now : ℕ) (e : TransactionEvent) : Type 0 where
  pub event_id : length e.event_id ≤ 128
  pub sender : length e.sender ≤ 256
  pub recipient : length e.recipient ≤ 256
  pub ciphertext : length e.ciphertext ≤ 131072
  pub session_id : length e.session_id ≤ 64
  pub not_old : biased now ≤ biased e.timestamp + 360
  pub not_ahead : biased e.timestamp ≤ biased now + 60

-- The difference may wrap, and the window is still that of the integers.
pub out_of_window-window :
    (now ts : ℕ)
    → IsClock now
    → IsInt64 ts
    → (out_of_window now ts ≡ false)
      ↔ ((biased now ≤ biased ts + 360) × (biased ts ≤ biased now + 60))
unfolding out_of_window
out_of_window-window now ts c w = (λ h. ground arith, λ h. ground arith)

validate_event_iff :
    (now i : ℕ) (e : TransactionEvent)
    → IsClock now
    → IsInt64 e.timestamp
    → (validate_event now i e ≡ none) ↔ InLimits now e
unfolding validate_event
validate_event_iff now i e c w =
    let t = out_of_window-window now e.timestamp c w in
    (λ h. ground (arith, t), λ h. ground (arith, t))

abbrev pub AllInt64 : List TransactionEvent → Type 0
AllInt64 = All (λ e. IsInt64 e.timestamp)

-- The index that an error of the loop names.
abbrev pub error_index : LimitError → Option ℕ
error_index transaction_id_too_long = none
error_index transaction_id_required = none
error_index too_many_events = none
error_index events_required = none
error_index (event_id_too_long i) = some i
error_index (sender_too_long i) = some i
error_index (recipient_too_long i) = some i
error_index (ciphertext_too_long i) = some i
error_index (session_id_too_long i) = some i
error_index (timestamp_out_of_window i) = some i

validate_event-index :
    (now i : ℕ) (e : TransactionEvent) (x : LimitError)
    → validate_event now i e ≡ some x
    → error_index x ≡ some i
unfolding validate_event
validate_event-index now i e x h = ground arith

-- The events before the one at index `k` are in the limits, and that one is not.
abbrev pub FirstBad : ℕ → List TransactionEvent → ℕ → Type 0
FirstBad now [] k = ⊥
FirstBad now (e ∷ es) zero = ¬ InLimits now e
FirstBad now (e ∷ es) (suc k) = InLimits now e × FirstBad now es k

first_bad :
    (now i : ℕ) (es : List TransactionEvent) (x : LimitError)
    → IsClock now
    → AllInt64 es
    → validate_events now i es ≡ some x
    → (k : ℕ) × (error_index x ≡ some (i + k)) × FirstBad now es k
unfolding validate_events
first_bad now i [] x c w h = cc
first_bad now i (e ∷ es) x c w h = elim (Option-cases (validate_event now i e)) [
  | inl fine ↦
      let (k, at, bad) = first_bad now (i + 1) es x c w.1 (ground arith) in
      (suc k, ground arith, ((validate_event_iff now i e c w.0).0 fine, bad))
  | inr (y, found) ↦
      let same : x ≡ y = ground arith in
      (
        0,
        ground (arith, validate_event-index now i e y found),
        λ fits. cc (found, (validate_event_iff now i e c w.0).1 fits),
      )
]

-- An error that names an event names the first one that breaks a limit.
pub validate_transaction-FirstBad :
    (req : TransactionRequest) (now k : ℕ) (x : LimitError)
    → IsClock now
    → AllInt64 req.events
    → validate_transaction req now ≡ some x
    → error_index x ≡ some k
    → FirstBad now req.events k
unfolding validate_transaction
validate_transaction-FirstBad req now k x c w h named =
    let (j, at, bad) = first_bad now 0 req.events x c w (ground arith) in
    let same : j ≡ k = ground arith in subst (FirstBad now req.events) same bad
