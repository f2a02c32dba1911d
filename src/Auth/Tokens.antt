-- ===== src/Auth/Tokens.antt =====
-- Access tokens and WebSocket tokens: issueToken, ValidateToken, IssueWSToken, ValidateWSToken and
-- RevokeToken of server/internal/auth/auth.go. Times are seconds.
use astralrelay_online.Common.{
  ℕ, zero, suc, ◌+◌, ◌*◌, ◌/◌, ◌%◌, ◌^◌, Bool, false, not, ◌&&◌, ◌||◌, Option, none, some, List, [],
  ◌==◌, ltb, leb, if◌then◌else◌, Result, ok, err,
}
use astralrelay_online.Common.Text.{Text, lit, text_eq, is_empty}
use astralrelay_online.Dbenc.{Cipher}
use astralrelay_online.Auth.Tables.{AccessToken, is_live, revoke_where}

-- The claims as the code reads them: one that is missing, or is no string, reads as empty. The user
-- is the integer that the JSON holds.
pub record Claims : Type 0 where
  pub user_id : ℕ
  pub device_id : Text
  pub jti : Text
  pub typ : Text
  pub iss : Text
  pub aud : Text
  pub exp : Option ℕ

-- The service, with the packages jwt (signatures of HS256 under the service's secret), uuid, bcrypt
-- and crypto/sha256. `uuid_parse` gives uuid.Parse's value, and whether it has no error.
pub record Service : Type 0 where
  pub domain : Text
  pub enc : Cipher
  pub sign : Claims → Option Text
  pub verify : Text → Option Claims
  pub uuid_string : ℕ → Text
  pub uuid_parse : Text → ℕ × Bool
  pub bcrypt_hash : ℕ → Text → Option Text
  pub bcrypt_compare : Text → Text → Bool
  pub sha256 : Text → Text

abbrev pub token_expiry_hours : ℕ
token_expiry_hours = 24

abbrev pub ws_token_expiry_sec : ℕ
ws_token_expiry_sec = 60

abbrev pub token_audience : Text
token_audience = lit "api"

-- The steps by which an integer is over 53 bits.
unfoldable pub shift_of : ℕ → ℕ → ℕ
shift_of zero n = 0
shift_of (suc k) n = let rest = shift_of k (n / 2) in if ltb n (2 ^ 53) then 0 else suc rest

-- n / p to the nearest, and to the even one of two.
unfoldable pub half_even : ℕ → ℕ → ℕ
half_even n p =
    if ltb (n % p + n % p) p
    then n / p
    else if ltb p (n % p + n % p)
    then suc (n / p)
    else n / p + (n / p) % 2

-- int64(float64(n)) of a positive int64 that is not rounded up to 2^63.
unfoldable pub float_of_int : ℕ → ℕ
float_of_int n = let p = 2 ^ shift_of 11 n in half_even n p * p

-- The claims that issueToken signs.
abbrev pub access_claims : Service → ℕ → ℕ → ℕ → ℕ → Claims
access_claims s now u v jti = record {
  user_id = u;
  device_id = s.uuid_string v;
  jti = s.uuid_string jti;
  typ = lit "access";
  iss = s.domain;
  aud = token_audience;
  exp = some (now + token_expiry_hours * 3600);
}

-- issueToken, of which uuid.New() drew `jti`.
unfoldable pub issue_token : Service → ℕ → ℕ → ℕ → ℕ → Option Text
issue_token s now u v jti = s.sign (access_claims s now u v jti)

abbrev pub ws_claims : Service → ℕ → ℕ → ℕ → Claims
ws_claims s now u v = record {
  user_id = u;
  device_id = s.uuid_string v;
  jti = [];
  typ = lit "ws";
  iss = s.domain;
  aud = token_audience;
  exp = some (now + ws_token_expiry_sec);
}

unfoldable pub issue_ws_token : Service → ℕ → ℕ → ℕ → Option Text
issue_ws_token s now u v = s.sign (ws_claims s now u v)

abbrev pub is_expired : ℕ → Option ℕ → Bool
is_expired now none = false
is_expired now (some e) = leb e now

-- jwtParser.Parse: the signature, and the time of expiry if there is one.
unfoldable pub parse_token : Service → ℕ → Text → Option Claims
parse_token s now t = elim (s.verify t) [
  | none ↦ none
  | some c ↦ if is_expired now c.exp then none else some c
]

-- x != "" && x != y
abbrev pub differs : Text → Text → Bool
differs x y = not (is_empty x) && not (text_eq x y)

abbrev identity : Service → Claims → ℕ × ℕ
identity s c = (float_of_int c.user_id, (s.uuid_parse c.device_id).0)

-- `none` is ErrInvalidToken.
unfoldable pub validate_claims : Service → Bool → ℕ → Claims → List AccessToken → Option (ℕ × ℕ)
validate_claims s fails now c tokens =
    let jti = s.uuid_parse c.jti in
    if is_empty c.jti
    then none
    else if not jti.1
    then none
    else if fails || not (is_live now jti.0 tokens)
    then none
    else if differs c.typ (lit "access")
    then none
    else if differs c.iss s.domain
    then none
    else if differs c.aud token_audience
    then none
    else some (identity s c)

unfoldable pub validate_token : Service → Bool → ℕ → Text → List AccessToken → Option (ℕ × ℕ)
validate_token s fails now t tokens = elim (parse_token s now t) [
  | none ↦ none
  | some c ↦ validate_claims s fails now c tokens
]

unfoldable pub validate_ws_token : Service → ℕ → Text → Option (ℕ × ℕ)
validate_ws_token s now t = elim (parse_token s now t) [
  | none ↦ none
  | some c ↦
      if not (text_eq c.typ (lit "ws"))
      then none
      else if differs c.iss s.domain
      then none
      else if differs c.aud token_audience
      then none
      else some (identity s c)
]

pub data AuthError : Type 0 where
  username_taken invalid_token invalid_credentials keys_required too_many_prekeys : AuthError
  failed : AuthError

-- jti = j AND user_id = u
abbrev pub issued_to : ℕ → ℕ → AccessToken → Bool
issued_to j u t = (t.jti == j) && (t.user_id == u)

-- The second half of RevokeToken, after the user was found.
unfoldable pub revoke_claims :
    Service
    → Bool
    → ℕ
    → ℕ
    → Claims
    → List AccessToken
    → List AccessToken × Result AuthError (Unit {0})
revoke_claims s fails now u c tokens =
    let jti = s.uuid_parse c.jti in
    if is_empty c.jti || not jti.1
    then (tokens, err invalid_token)
    else if fails
    then (tokens, err failed)
    else (revoke_where now (issued_to jti.0 u) tokens, ok tt)

-- RevokeToken, which parses the token a second time; `later` is the clock then.
unfoldable pub revoke_token :
    Service
    → Bool
    → Bool
    → ℕ
    → ℕ
    → Text
    → List AccessToken
    → List AccessToken × Result AuthError (Unit {0})
revoke_token s fails update_fails now later t tokens = elim (validate_token s fails now t tokens) [
  | none ↦ (tokens, err invalid_token)
  | some who ↦ elim (parse_token s later t) [
    | none ↦ (tokens, err invalid_token)
    | some c ↦ revoke_claims s update_fails later who.0 c tokens
  ]
]
