-- ===== src/Entry/Logins.antt =====
-- server/internal/api/handlers_auth.go: login, here or by the home server of the user. The domain of the
-- handler is that of the service.
use astralrelay_online.Common.{
  ℕ, ◌*◌, Bool, true, false, not, Option, none, some, List, [], ◌∷◌, if◌then◌else◌, Faults, Result,
  ok, err,
}
use astralrelay_online.Common.Text.{Text, lit, text_eq}
use astralrelay_online.Federation.Client.{Client, Network, ClientError}
use astralrelay_online.Federation.Requests.{user_lookup, auth_verify}
use astralrelay_online.Auth.Tables.{Store}
use astralrelay_online.Auth.Tokens.{Service, AuthError, invalid_credentials}
use astralrelay_online.Auth.Accounts.{Drawn, user_address}
use astralrelay_online.Auth.Login.{LoginResult, login}
use astralrelay_online.Auth.Proxy.{ProxySession, create_proxy_session}
use astralrelay_online.Entry.Middleware.{Refusal, bad_request, unauthorized, internal_error}
use astralrelay_online.Entry.Requests.{
  LoginRequest, VerifyResult, Codecs, LoginReply, login_name, login_input,
}

-- The loop over the peers, in the order in which the map gives them.
unfoldable pub find_home : Network → ℕ → Client → Text → List Text → Text → Client × Text
find_home n now c name [] domain = (c, domain)
find_home n now c name (p ∷ ps) domain =
    let asked = user_lookup n now c p name in
    elim asked.1 [
      | none ↦ find_home n now asked.0 name ps domain
      | some (user, home) ↦ (asked.0, home)
    ]

abbrev pub session_for : Text → VerifyResult → ProxySession
session_for domain v = record {
  home_domain = domain;
  home_token = v.access_token;
  user_id = v.user_id;
  device_id = v.device_id;
}

abbrev pub proxied_reply : VerifyResult → Text → LoginReply
proxied_reply v token = record {
  user_id = v.user_id;
  device_id = v.device_id;
  access_token = token;
  keys_backup = v.keys_backup;
}

abbrev pub verified : Codecs → Result ClientError Text → Option VerifyResult
verified k (err e) = none
verified k (ok body) = k.read_verify body

abbrev pub proxy_expiry : ℕ
proxy_expiry = 24 * 3600

abbrev pub proxied_result : VerifyResult → Result AuthError Text → Result Refusal LoginReply
proxied_result v (err e) = err internal_error
proxied_result v (ok token) = ok (proxied_reply v token)

-- Login by the home server; `bytes` is what rand.Read gives for the session's token.
unfoldable pub login_at_home :
    Codecs
    → Service
    → Network
    → Bool
    → Option Text
    → ℕ
    → Text
    → Text
    → LoginRequest
    → Client
    → Store
    → Client × Store × Result Refusal LoginReply
login_at_home k s n insert_fails bytes now domain name req c st =
    let called = auth_verify n now c domain (k.marshal (user_address name domain) req) in
    elim (verified k called.1) [
      | none ↦ (called.0, st, err (unauthorized (lit "invalid_credentials")))
      | some v ↦
          let made =
            create_proxy_session s bytes insert_fails now (session_for domain v) proxy_expiry st in
          (called.0, made.0, proxied_result v made.1)
    ]

abbrev both_base64 : Codecs → Option (Text × Text) → Option (Text × Text)
both_base64 k none = none
both_base64 k (some (salt, blob)) = some (k.base64 salt, k.base64 blob)

abbrev pub local_reply : Codecs → Service → LoginResult → LoginReply
local_reply k s res = record {
  user_id = res.user_id;
  device_id = s.uuid_string res.device_id;
  access_token = res.token;
  keys_backup = both_base64 k res.keys_backup;
}

abbrev is_bad_login : AuthError → Bool
is_bad_login invalid_credentials = true
is_bad_login _ = false

abbrev or_unauthorized : Result Refusal LoginReply → Result Refusal LoginReply
or_unauthorized (ok reply) = ok reply
or_unauthorized (err e) = err (unauthorized (lit "invalid_credentials"))

-- The end of the handler, for a user that has no account here or gave another password.
unfoldable pub login_elsewhere :
    Codecs
    → Service
    → Network
    → Bool
    → Option Text
    → ℕ
    → Text
    → List Text
    → LoginRequest
    → Option Client
    → Store
    → Option Client × Store × Result Refusal LoginReply
login_elsewhere k s n insert_fails bytes now name peers req none st =
    (none, st, err (unauthorized (lit "invalid_credentials")))
login_elsewhere k s n insert_fails bytes now name peers req (some c) st =
    let home = find_home n now c name peers s.domain in
    if text_eq home.1 s.domain
    then (some home.0, st, err (unauthorized (lit "invalid_credentials")))
    else let tried = login_at_home k s n insert_fails bytes now home.1 name req home.0 st in
      (some tried.0, tried.1, or_unauthorized tried.2)

unfoldable pub login_here :
    Codecs
    → Service
    → Network
    → Faults
    → Drawn
    → Bool
    → Option Text
    → ℕ
    → Text
    → List Text
    → ℕ
    → LoginRequest
    → Option Client
    → Store
    → Option Client × Store × Result Refusal LoginReply
login_here k s n f r insert_fails bytes now name peers device req c st =
    let done = login s f r now (login_input k name req device) st in
    elim done.1 [
      | ok res ↦ (c, done.0, ok (local_reply k s res))
      | err e ↦
          if is_bad_login e
          then login_elsewhere k s n insert_fails bytes now name peers req c done.0
          else (c, done.0, err internal_error)
    ]

-- The handler of login, after the body is decoded.
unfoldable pub handle_login :
    Codecs
    → Service
    → Network
    → Faults
    → Drawn
    → Bool
    → Option Text
    → ℕ
    → List Text
    → LoginRequest
    → Option Client
    → Store
    → Option Client × Store × Result Refusal LoginReply
handle_login k s n f r insert_fails bytes now peers req c st =
    let at = login_name s.domain req.username req.domain in
    let device = s.uuid_parse req.device_id in
    let here = login_here k s n f r insert_fails bytes now at.0 peers device.0 req c st in
    if not device.1
    then (c, st, err (bad_request (lit "invalid_request")))
    else if text_eq at.1 s.domain
    then here
    else elim c [
      | none ↦ here
      | some client ↦
          let tried = login_at_home k s n insert_fails bytes now at.1 at.0 req client st in
          (some tried.0, tried.1, tried.2)
    ]
