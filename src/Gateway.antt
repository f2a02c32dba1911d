-- ===== src/Gateway.antt =====
-- The handler of a transaction in server/internal/api/handlers_federation.go, over the services of
-- federation and relay.
pub mod Checks
mod Examples
use astralrelay_online.Common.{
  ℕ, ◌≡◌, Bool, true, false, not, ◌&&◌, Option, none, some, List, [], ◌∷◌, ◌++◌, if◌then◌else◌,
  take, ltb, Result, ok, err, map, Faults,
}
use astralrelay_online.Common.Text.{Text, lit, text_eq, is_empty, trim_space, to_lower}
use astralrelay_online.Federation.Security.{
  SecurityService, is_blocked, check_allowlist_for_transaction, note_success,
}
use astralrelay_online.Federation.Limits.{
  TransactionEvent, TransactionRequest, validate_transaction,
}
use astralrelay_online.Federation.Signing.{Crypto, Request, verify_request}
use astralrelay_online.Relay.Queue.{RelayDb}
use astralrelay_online.Relay.{FederatedEvent, Accepted, accept_transaction}

-- The federationHandler, with FetchServerKey, ForwardTransaction and the packages for signatures,
-- JSON and base64; a base64 text that is bad decodes to what `decode_base64` says.
pub record Handler : Type 0 where
  pub domain : Text
  pub main_only_domain : Text
  pub max_body : ℕ
  pub has_hub : Bool
  pub has_db : Bool
  pub forward : Option (Text → TransactionRequest → Bool)
  pub fetch_server_key : Text → Option Text
  pub crypto : Crypto
  pub parse_json : Text → Option TransactionRequest
  pub decode_base64 : Text → Text

-- What the handler changes; `notified` is what went to the hub, oldest first.
pub record Site : Type 0 where
  pub security : Option SecurityService
  pub relay : RelayDb
  pub federation_peers : List (Text × Text)
  pub notified : List (Text × Text)

-- The readings of the clock, and the calls that fail.
pub record Outcomes : Type 0 where
  pub verify_now : ℕ
  pub verify_later : ℕ
  pub validate_now : ℕ
  pub accept_now : ℕ
  pub read_fails : Bool
  pub peer_fails : Bool
  pub can_open : Bool
  pub relay : Faults

pub data Refusal : Type 0 where
  origin_required main_only invalid_body blocked not_allowed invalid_origin : Refusal
  invalid_signature invalid_json invalid_transaction relay_failed wrong_destination : Refusal

pub data Reply : Type 0 where
  refused : Refusal → Reply
  relayed : Reply
  done : List Text → List Text → Reply

-- io.LimitReader with the handler's limit, or 1 MB.
unfoldable pub limited_body : Handler → Text → Text
limited_body h body = take (if ltb 0 h.max_body then h.max_body else 1048576) body

unfoldable pub security_refusal : Option SecurityService → Text → Option Refusal
security_refusal none origin = none
security_refusal (some s) origin =
    if is_blocked s origin
    then some blocked
    else elim (check_allowlist_for_transaction s origin) [ err e ↦ some not_allowed | ok u ↦ none ]

unfoldable pub is_invalid : Option SecurityService → TransactionRequest → ℕ → Bool
is_invalid none req now = false
is_invalid (some s) req now = elim (validate_transaction req now) [ none ↦ false | some e ↦ true ]

-- From the signature on.
unfoldable pub admit_signed :
    Handler → Outcomes → Site → Request → Text → Text → Result Refusal TransactionRequest
admit_signed h o s r body key =
    elim (verify_request h.crypto o.verify_now o.verify_later r body key) [
      | err e ↦ err invalid_signature
      | ok u ↦ elim (h.parse_json body) [
        | none ↦ err invalid_json
        | some req ↦
            if is_invalid s.security req o.validate_now then err invalid_transaction else ok req
      ]
    ]

-- The checks, in the order of the source.
unfoldable pub admit :
    Handler → Outcomes → Site → Request → Text → Result Refusal TransactionRequest
admit h o s r body =
    let origin = r.headers.origin in
    if is_empty origin
    then err origin_required
    else if not (is_empty h.main_only_domain) && not (text_eq origin h.main_only_domain)
    then err main_only
    else if o.read_fails
    then err invalid_body
    else elim (security_refusal s.security origin) [
      | some e ↦ err e
      | none ↦ elim (h.fetch_server_key origin) [
        | none ↦ err invalid_origin
        | some key ↦ admit_signed h o s r (limited_body h body) key
      ]
    ]

unfoldable pub put_peer : Text → Text → List (Text × Text) → List (Text × Text)
put_peer d e [] = (d, e) ∷ []
put_peer d e ((k, v) ∷ ps) = if text_eq k d then (d, e) ∷ ps else (k, v) ∷ put_peer d e ps

-- INSERT INTO federation_peers, whose error is dropped.
unfoldable pub note_peer : Handler → Outcomes → Site → Text → Site
note_peer h o s origin =
    let d = to_lower (trim_space origin) in
    if h.has_db && not o.peer_fails
    then record s {
      federation_peers =
          put_peer d (lit "https://" ++ d ++ lit "/federation/v1") s.federation_peers;
    }
    else s

unfoldable pub federated : Handler → TransactionEvent → FederatedEvent
federated h e = record {
  event_id = e.event_id;
  sender = e.sender;
  recipient = e.recipient;
  sender_device = e.sender;
  ciphertext = h.decode_base64 e.ciphertext;
  session_id = e.session_id;
  timestamp = e.timestamp;
}

-- The calls of Notify: the recipient of the event at the index of the accepted identifier.
unfoldable pub notices : List FederatedEvent → List Text → List (Text × Text)
notices (e ∷ es) (a ∷ ids) = (e.recipient, a) ∷ notices es ids
notices _ _ = []

abbrev trusted : Bool → Option SecurityService → Text → Option SecurityService
trusted can_open none origin = none
trusted can_open (some s) origin = some (note_success can_open s origin)

-- A transaction for this server.
unfoldable pub deliver : Handler → Outcomes → Site → Text → TransactionRequest → Site × Reply
deliver h o s origin req =
    let events = map (federated h) req.events in
    let r = accept_transaction o.relay o.accept_now s.relay events in
    (
      record s {
        security = trusted o.can_open s.security origin;
        relay = r.db;
        notified = s.notified ++ (if h.has_hub then notices events r.accepted else []);
      },
      done r.accepted r.rejected,
    )

-- A transaction for another server.
unfoldable pub forward_on : Handler → Site → TransactionRequest → Site × Reply
forward_on h s req = elim h.forward [
  | none ↦ (s, refused wrong_destination)
  | some send ↦ (s, (if send req.destination req then relayed else refused relay_failed))
]

unfoldable pub transaction : Handler → Outcomes → Site → Request → Text → Site × Reply
transaction h o s r body = elim (admit h o s r body) [
  | err e ↦ (s, refused e)
  | ok req ↦
      let s1 = note_peer h o s r.headers.origin in
      if text_eq req.destination h.domain
      then deliver h o s1 r.headers.origin req
      else forward_on h s1 req
]
