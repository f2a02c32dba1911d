-- ===== src/Auth/Proxy.antt =====
-- Sessions of users whose home is another server: CreateProxySession and GetProxySessionByToken of
-- server/internal/auth/auth.go. Times are seconds.
use astralrelay_online.Common.{
  ℕ, ◌+◌, ◌*◌, ◌/◌, ◌%◌, Bool, not, ◌&&◌, ◌||◌, Option, none, some, List, [], ◌∷◌, ◌==◌, ltb, leb,
  if◌then◌else◌, length, keep_if, Result, ok, err, ◌-◌,
}
use astralrelay_online.Common.Text.{Text, text_eq}
use astralrelay_online.Auth.Tables.{ProxyRow, Store, find_session, is_found}
use astralrelay_online.Auth.Tokens.{Service, AuthError, invalid_token, failed}

pub record ProxySession : Type 0 where
  pub home_domain : Text
  pub home_token : Text
  pub user_id : Text
  pub device_id : Text

abbrev pub hex_digit : ℕ → ℕ
hex_digit n = if ltb n 10 then 48 + n else 87 + n

-- hex.EncodeToString
unfoldable pub hex_encode : Text → Text
hex_encode [] = []
hex_encode (c ∷ s) = hex_digit (c / 16) ∷ hex_digit (c % 16) ∷ hex_encode s

abbrev pub digit_of : ℕ → Option ℕ
digit_of c =
    if leb 48 c && leb c 57
    then some (c - 48)
    else if leb 97 c && leb c 102
    then some (c - 87)
    else if leb 65 c && leb c 70
    then some (c - 55)
    else none

abbrev then_byte : Option ℕ → Option ℕ → Option Text → Option Text
then_byte (some a) (some b) (some s) = some ((16 * a + b) ∷ s)
then_byte _ _ _ = none

-- hex.DecodeString, `none` where it has an error
unfoldable pub hex_decode : Text → Option Text
hex_decode [] = some []
hex_decode (c ∷ []) = none
hex_decode (c ∷ d ∷ s) = then_byte (digit_of c) (digit_of d) (hex_decode s)

-- CreateProxySession, for which rand.Read gave 32 bytes, or failed.
unfoldable pub create_proxy_session :
    Service → Option Text → Bool → ℕ → ProxySession → ℕ → Store → Store × Result AuthError Text
create_proxy_session s none insert_fails now p expires_in st = (st, err failed)
create_proxy_session s (some b) insert_fails now p expires_in st =
    let row : ProxyRow = record {
      token_hash = s.sha256 b;
      home_domain = p.home_domain;
      home_token = p.home_token;
      user_id = p.user_id;
      device_id = p.device_id;
      expires_at = now + expires_in;
    } in
    if insert_fails || is_found (find_session (s.sha256 b) st.sessions)
    then (st, err failed)
    else (record st { sessions = row ∷ st.sessions }, ok (hex_encode b))

-- DELETE FROM proxy_sessions WHERE token_hash = h
unfoldable pub delete_session : Text → List ProxyRow → List ProxyRow
delete_session h rs = keep_if (λ r. not (text_eq r.token_hash h)) rs

abbrev pub session_of : ProxyRow → ProxySession
session_of r = record {
  home_domain = r.home_domain;
  home_token = r.home_token;
  user_id = r.user_id;
  device_id = r.device_id;
}

abbrev pub answer_session :
    Bool → ℕ → Text → Store → Option ProxyRow → Store × Result AuthError ProxySession
answer_session delete_fails now h st none = (st, err invalid_token)
answer_session delete_fails now h st (some r) =
    if ltb r.expires_at now
    then (
      if delete_fails then st else record st { sessions = delete_session h st.sessions },
      err invalid_token,
    )
    else (st, ok (session_of r))

unfoldable pub get_proxy_session :
    Service → Bool → Bool → ℕ → Text → Store → Store × Result AuthError ProxySession
get_proxy_session s fails delete_fails now token st = elim (hex_decode token) [
  | none ↦ (st, err invalid_token)
  | some b ↦
      if not (length b == 32)
      then (st, err invalid_token)
      else if fails
      then (st, err failed)
      else answer_session delete_fails now (s.sha256 b) st (find_session (s.sha256 b) st.sessions)
]
