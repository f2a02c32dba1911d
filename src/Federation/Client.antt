-- ===== src/Federation/Client.antt =====
-- server/internal/federation/client.go: where another server is reached, and the requests to it. Times are
-- seconds. A request is what the client sends, its headers signed.
use astralrelay_online.Common.{
  ℕ, ◌+◌, Bool, true, false, ◌||◌, Option, none, some, List, [], ◌∷◌, ◌++◌, ◌==◌, ltb,
  if◌then◌else◌, Result, ok, err,
}
use astralrelay_online.Common.Text.{Text, lit, text_eq, is_empty, has_prefix}
use astralrelay_online.Common.Trim.{norm}
use astralrelay_online.Federation.Signing.{Crypto, Headers, sign_request}

abbrev pub discovery_cache_ttl : ℕ
discovery_cache_ttl = 300

pub record CachedEndpoint : Type 0 where
  pub domain : Text
  pub endpoint : Text
  pub expires : ℕ

-- The client, with its private key; `cache` is the map discoveryCache, newest first.
pub record Client : Type 0 where
  pub domain : Text
  pub main_domain : Text
  pub crypto : Crypto
  pub private_key : Text
  pub cache : List CachedEndpoint

pub record HttpRequest : Type 0 where
  pub method : Text
  pub url : Text
  pub body : Text
  pub headers : Option Headers

pub record HttpResponse : Type 0 where
  pub status : ℕ
  pub body : Text

-- httpClient.Do with the reading of the body, and encoding/json on the bodies; none is an error.
pub record Network : Type 0 where
  pub answer : HttpRequest → Option HttpResponse
  pub read_endpoint : Text → Option Text
  pub read_servers : Text → Option (List Text)
  pub read_devices : Text → Option (List Text)
  pub read_user : Text → Option (Text × Text)

pub data ClientError : Type 0 where
  unreachable bad_body : ClientError
  bad_status : ℕ → ClientError

unfoldable pub scheme : Text → Text
scheme domain =
    if has_prefix domain (lit "localhost") || has_prefix domain (lit "127.")
    then lit "http"
    else lit "https"

unfoldable pub url_at : Text → Text → Text
url_at domain path = scheme domain ++ (lit "://" ++ (domain ++ path))

unfoldable pub find_cached : Text → List CachedEndpoint → Option CachedEndpoint
find_cached d [] = none
find_cached d (e ∷ es) = if text_eq e.domain d then some e else find_cached d es

-- The endpoint of a cache entry that is not over.
abbrev pub fresh_endpoint : ℕ → Option CachedEndpoint → Option Text
fresh_endpoint now none = none
fresh_endpoint now (some e) = if ltb now e.expires then some e.endpoint else none

abbrev pub get_request : Text → HttpRequest
get_request url = record { method = lit "GET"; url = url; body = []; headers = none }

abbrev pub given_or : Text → Option Text → Text
given_or base none = base
given_or base (some e) = if is_empty e then base else e

abbrev pub endpoint_of : Network → Text → HttpResponse → Text
endpoint_of n base r = if r.status == 200 then given_or base (n.read_endpoint r.body) else base

unfoldable pub remember : Client → Text → Text → ℕ → Client
remember c domain endpoint now = record c {
  cache =
      record { domain = domain; endpoint = endpoint; expires = now + discovery_cache_ttl }
      ∷ c.cache;
}

-- The request of a discovery, and what its answer is remembered as.
unfoldable pub discover : Network → ℕ → Text → Client → Client × Result ClientError Text
discover n now remote c =
    elim (n.answer (get_request (url_at remote (lit "/.well-known/federation")))) [
      | none ↦ (c, err unreachable)
      | some r ↦
          let endpoint = endpoint_of n (url_at remote (lit "/federation/v1")) r in
          (remember c (norm remote) endpoint now, ok endpoint)
    ]

-- resolveEndpoint, and whether it has sent a request.
unfoldable pub resolve_endpoint :
    Network → ℕ → Text → Client → Client × Result ClientError Text × Bool
resolve_endpoint n now remote c = elim (fresh_endpoint now (find_cached (norm remote) c.cache)) [
  | some endpoint ↦ (c, ok endpoint, false)
  | none ↦ let found = discover n now remote c in (found.0, found.1, true)
]

-- strings.TrimSuffix(endpoint, "/")
unfoldable pub trim_slash : Text → Text
trim_slash [] = []
trim_slash (c ∷ []) = if c == b'/' then [] else c ∷ []
trim_slash (c ∷ d ∷ s) = c ∷ trim_slash (d ∷ s)

-- A request with the headers of signRequest.
unfoldable pub signed_call : Client → ℕ → Text → Text → Text → HttpRequest
signed_call c now method url body = record {
  method = method;
  url = url;
  body = body;
  headers = some (sign_request c.crypto c.private_key c.domain now method url body);
}

abbrev pub accept_ok : Option HttpResponse → Result ClientError Text
accept_ok none = err unreachable
accept_ok (some r) = if r.status == 200 then ok r.body else err (bad_status r.status)

-- A signed request to a path below the endpoint of a server.
unfoldable pub call_server :
    Network → ℕ → Client → Text → Text → Text → Text → Client × Result ClientError Text
call_server n now c remote method path body =
    let resolved = resolve_endpoint n now remote c in
    elim resolved.1 [
      | err e ↦ (resolved.0, err e)
      | ok endpoint ↦ (
        resolved.0,
        accept_ok (n.answer (signed_call c now method (trim_slash endpoint ++ path) body)),
      )
    ]
