-- ===== src/Federation/Limits.antt =====
-- ValidateTransaction of server/internal/federation/security.go: sizes and the time window.
use astralrelay_online.Common.{
  ℕ, ◌+◌, Bool, ◌||◌, Option, none, some, List, [], ◌∷◌, ◌==◌, if◌then◌else◌, ltb, length,
}
use astralrelay_online.Common.Text.{Text, is_empty}
use astralrelay_online.Common.Int64.{sub64, neg64, slt}

-- An event of a transaction; the timestamp is the bit pattern of an int64.
pub record TransactionEvent : Type 0 where
  pub event_id : Text
  pub type : Text
  pub sender : Text
  pub recipient : Text
  pub timestamp : ℕ
  pub ciphertext : Text
  pub session_id : Text

pub record TransactionRequest : Type 0 where
  pub transaction_id : Text
  pub origin : Text
  pub destination : Text
  pub events : List TransactionEvent

abbrev pub max_events : ℕ
max_events = 100

abbrev pub max_event_id_len : ℕ
max_event_id_len = 128

abbrev pub max_transaction_id_len : ℕ
max_transaction_id_len = 128

abbrev pub max_user_id_len : ℕ
max_user_id_len = 256

abbrev pub max_ciphertext_len : ℕ
max_ciphertext_len = 65536

abbrev pub max_session_id_len : ℕ
max_session_id_len = 64

abbrev pub timestamp_window : ℕ
timestamp_window = 300

pub data LimitError : Type 0 where
  transaction_id_too_long transaction_id_required too_many_events events_required : LimitError
  event_id_too_long sender_too_long recipient_too_long ciphertext_too_long : ℕ → LimitError
  session_id_too_long timestamp_out_of_window : ℕ → LimitError

-- diff < -60 || diff > TimestampWindow + 60, of diff = now - timestamp
unfoldable pub out_of_window : ℕ → ℕ → Bool
unfolding sub64 neg64 slt
out_of_window now ts =
    let diff = sub64 now ts in slt diff (neg64 60) || slt (timestamp_window + 60) diff

-- The body of the loop; `none` goes on.
unfoldable pub validate_event : ℕ → ℕ → TransactionEvent → Option LimitError
unfolding out_of_window
validate_event now i e =
    if ltb max_event_id_len (length e.event_id)
    then some (event_id_too_long i)
    else if ltb max_user_id_len (length e.sender)
    then some (sender_too_long i)
    else if ltb max_user_id_len (length e.recipient)
    then some (recipient_too_long i)
    else if ltb (max_ciphertext_len + max_ciphertext_len) (length e.ciphertext)
    then some (ciphertext_too_long i)
    else if ltb max_session_id_len (length e.session_id)
    then some (session_id_too_long i)
    else if out_of_window now e.timestamp
    then some (timestamp_out_of_window i)
    else none

unfoldable pub validate_events : ℕ → ℕ → List TransactionEvent → Option LimitError
validate_events now i [] = none
validate_events now i (e ∷ es) =
    let rest = validate_events now (i + 1) es in
    elim (validate_event now i e) [ some x ↦ some x | none ↦ rest ]

-- `none` is the nil error.
unfoldable pub validate_transaction : TransactionRequest → ℕ → Option LimitError
validate_transaction req now =
    if ltb max_transaction_id_len (length req.transaction_id)
    then some transaction_id_too_long
    else if is_empty req.transaction_id
    then some transaction_id_required
    else if ltb max_events (length req.events)
    then some too_many_events
    else if length req.events == 0
    then some events_required
    else validate_events now 0 req.events
