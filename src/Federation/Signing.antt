-- ===== src/Federation/Signing.antt =====
-- Signed requests between servers: signRequest of server/internal/federation/client.go and
-- VerifyRequest of server/internal/federation/server.go.
use astralrelay_online.Common.{
  ℕ, suc, ◌+◌, Bool, ◌||◌, Option, none, some, [], ◌∷◌, ◌++◌, if◌then◌else◌, Result, ok, err, take,
  drop,
}
use mathlib.Core.Option
use astralrelay_online.Common.Text.{Text, lit, is_empty, has_prefix, index}
use astralrelay_online.Common.Int64.{sub64, slt}
use astralrelay_online.Common.Decimal.{itoa, parse_int}

-- crypto/sha256 with encoding/hex, crypto/ed25519 and encoding/base64.
pub record Crypto : Type 0 where
  pub hex_sha256 : Text → Text
  pub sign : Text → Text → Text
  pub verify : Text → Text → Text → Bool
  pub public_key : Text → Text
  pub base64 : Text → Text
  pub unbase64 : Text → Option Text

-- The four headers X-Server-Origin, -Destination, -Timestamp and -Signature.
pub record Headers : Type 0 where
  pub origin : Text
  pub dest : Text
  pub timestamp : Text
  pub signature : Text

-- What VerifyRequest reads of the request.
pub record Request : Type 0 where
  pub headers : Headers
  pub method : Text
  pub url_path : Text
  pub raw_query : Text

-- fmt.Sprintf("%s\n%s\n%s\n%s\n%s\n%s", …)
unfoldable pub signed_payload : Text → Text → Text → Text → Text → Text → Text
signed_payload origin dest ts method path hash =
    origin ++ (10 ∷ (dest ++ (10 ∷ (ts ++ (10 ∷ (method ++ (10 ∷ (path ++ (10 ∷ hash)))))))))

-- The hash of the body, or nothing for an empty body.
unfoldable pub body_hash : Crypto → Text → Text
body_hash cr body = if is_empty body then [] else cr.hex_sha256 body

-- strings.Index of a text; `none` for -1.
unfoldable pub index_text : Text → Text → Option ℕ
index_text [] p = if is_empty p then some 0 else none
index_text (c ∷ s) p =
    let rest = Option.map suc (index_text s p) in if has_prefix (c ∷ s) p then some 0 else rest

-- Everything before the first slash.
unfoldable pub until_slash : Text → Text
until_slash s = elim (index s b'/') [ none ↦ s | some i ↦ take i s ]

unfoldable pub url_dest : Text → Text
unfolding until_slash
url_dest url =
    if has_prefix url (lit "https://")
    then until_slash (drop 8 url)
    else if has_prefix url (lit "http://")
    then until_slash (drop 7 url)
    else []

unfoldable pub path_after : Text → Text
path_after rest = elim (index rest b'/') [
  | none ↦ lit "/"
  | some slash ↦ b'/' ∷ drop (slash + 1) rest
]

unfoldable pub url_path_of : Text → Text
unfolding path_after
url_path_of url = elim (index_text url (lit "://")) [
  | none ↦ lit "/"
  | some i ↦ path_after (drop (i + 3) url)
]

-- The headers; `now` is time.Now().Unix(), which is not negative.
unfoldable pub sign_request : Crypto → Text → Text → ℕ → Text → Text → Text → Headers
unfolding url_dest url_path_of body_hash
sign_request cr private_key domain now method url body = record {
  origin = domain;
  dest = url_dest url;
  timestamp = itoa now;
  signature = cr.base64 (
      cr.sign private_key (
        signed_payload domain (url_dest url) (itoa now) method (url_path_of url)
          (body_hash cr body)));
}

pub data VerifyError : Type 0 where
  missing_headers invalid_timestamp timestamp_out_of_window bad_base64 invalid_signature :
      VerifyError

-- now - timestamp > 300 || timestamp - now > 300, with one reading of the clock for each
unfoldable pub is_stale : ℕ → ℕ → ℕ → Bool
unfolding sub64 slt
is_stale now later ts = slt 300 (sub64 now ts) || slt 300 (sub64 ts later)

unfoldable pub request_path : Request → Text
request_path r = if is_empty r.raw_query then r.url_path else r.url_path ++ (b'?' ∷ r.raw_query)

abbrev any_empty : Headers → Bool
any_empty h = is_empty h.origin || is_empty h.dest || is_empty h.timestamp || is_empty h.signature

unfoldable pub verify_request :
    Crypto → ℕ → ℕ → Request → Text → Text → Result VerifyError (Unit {0})
unfolding is_stale body_hash request_path
verify_request cr now later r body origin_key =
    if any_empty r.headers then err missing_headers else elim (parse_int r.headers.timestamp) [
      | none ↦ err invalid_timestamp
      | some ts ↦
          if is_stale now later ts
          then err timestamp_out_of_window
          else elim (cr.unbase64 r.headers.signature) [
            | none ↦ err bad_base64
            | some sig ↦
                if cr.verify origin_key
                  (signed_payload r.headers.origin r.headers.dest r.headers.timestamp r.method
                    (request_path r) (body_hash cr body))
                  sig
                then ok tt
                else err invalid_signature
          ]
    ]
