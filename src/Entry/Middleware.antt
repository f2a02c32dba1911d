-- ===== src/Entry/Middleware.antt =====
-- server/internal/api/middleware.go: who a request is from, and what is sent on to the home server.
use astralrelay_online.Common.{
  ℕ, Bool, not, ◌&&◌, ◌||◌, Option, none, some, [], ◌∷◌, ◌++◌, if◌then◌else◌, drop, Faults, Result,
  ok, err,
}
use astralrelay_online.Common.Text.{Text, lit, is_empty, has_prefix, text_eq}
use astralrelay_online.Auth.Tables.{Store}
use astralrelay_online.Auth.Tokens.{Service, AuthError, validate_token}
use astralrelay_online.Auth.Proxy.{ProxySession, get_proxy_session}

-- A status other than 200, with the error of the answer.
pub data Refusal : Type 0 where
  bad_request unauthorized : Text → Refusal
  internal_error : Refusal

-- What the context of a request has: an account's user and device, or a session for a home server.
pub data Caller : Type 0 where
  account : ℕ → ℕ → Caller
  proxied : ProxySession → Caller

abbrev pub bearer : Text
bearer = lit "Bearer "

-- extractToken of the header Authorization
unfoldable pub extract_token : Text → Text
extract_token h = if has_prefix h bearer then drop 7 h else []

abbrev pub session_caller : Store × Result AuthError ProxySession → Store × Result Refusal Caller
session_caller (st, err e) = (st, err (unauthorized (lit "invalid_token")))
session_caller (st, ok p) = (st, ok (proxied p))

-- AuthMiddleware, up to the call of the next handler.
unfoldable pub auth_middleware : Service → Faults → ℕ → Text → Store → Store × Result Refusal Caller
auth_middleware s f now header st =
    if is_empty (extract_token header)
    then (st, err (unauthorized (lit "missing_token")))
    else elim (validate_token s (f 0) now (extract_token header) st.tokens) [
      | some (u, v) ↦ (st, ok (account u v))
      | none ↦ session_caller (get_proxy_session s (f 1) (f 2) now (extract_token header) st)
    ]

-- A request as it comes in; `tls` says whether it came over TLS.
pub record Incoming : Type 0 where
  pub tls : Bool
  pub host : Text
  pub method : Text
  pub path : Text
  pub raw_query : Text
  pub body : Text
  pub content_type : Text
  pub protocol_version : Text
  pub idempotency_key : Text

-- A request that is sent to the home server.
pub record Outgoing : Type 0 where
  pub method : Text
  pub url : Text
  pub body : Text
  pub authorization : Text
  pub content_type : Text
  pub protocol_version : Text
  pub idempotency_key : Text

unfoldable pub stays_local : Text → Bool
stays_local path =
    text_eq path (lit "/api/v1/users/search")
    || has_prefix path (lit "/api/v1/keys/bundle/")
    || has_prefix path (lit "/api/v1/keys/devices/")

unfoldable pub home_url : Incoming → Text → Text
home_url q domain =
    (if not q.tls && has_prefix q.host (lit "localhost") then lit "http" else lit "https")
    ++ (lit "://"
        ++ (domain ++ (q.path ++ (if is_empty q.raw_query then [] else b'?' ∷ q.raw_query))))

-- ProxyForwardMiddleware: the request to the home server, or none where the next handler has it.
unfoldable pub proxy_forward : Caller → Incoming → Option Outgoing
proxy_forward (account u v) q = none
proxy_forward (proxied p) q =
    if stays_local q.path
    then none
    else some (record {
      method = q.method;
      url = home_url q p.home_domain;
      body = q.body;
      authorization = bearer ++ p.home_token;
      content_type = q.content_type;
      protocol_version = q.protocol_version;
      idempotency_key = q.idempotency_key;
    })
