-- ===== src/Auth/Sessions.antt =====
-- A proxy session is found under its token until it expires, and is deleted then.
use astralrelay_online.Common.{
  ℕ, ◌+◌, ◌*◌, ◌/◌, ◌%◌, ◌<◌, ◌≡◌, inl, inr, refl, sym, ap, ◌∙◌, Bool, false, ◌||◌, not, ltb, none,
  some, List, [], ◌∷◌, ◌==◌, arith, Bool-cases, ok, err, length, All, keep_if, if◌then◌else◌,
}
use astralrelay_online.Common.Text.{Text, text_eq_refl}
use astralrelay_online.Auth.Tables.{ProxyRow, Store, find_session, is_found}
use astralrelay_online.Auth.Tokens.{Service, invalid_token}
use astralrelay_online.Auth.Proxy.{
  ProxySession, hex_digit, digit_of, hex_encode, hex_decode, create_proxy_session, delete_session,
  get_proxy_session,
}

digit_of-hex_digit : (n : ℕ) → n < 16 → digit_of (hex_digit n) ≡ some n
digit_of-hex_digit n small = ground arith

-- The hexadecimal form of bytes decodes to them.
pub hex_decode-hex_encode : (b : Text) → All (λ c. c < 256) b → hex_decode (hex_encode b) ≡ some b
unfolding hex_encode hex_decode
hex_decode-hex_encode [] h = refl
hex_decode-hex_encode (c ∷ b) h =
    let high : c / 16 < 16 = omega (arith, h.0) in
    let low : c % 16 < 16 = omega arith in
    let whole : 16 * (c / 16) + c % 16 ≡ c = omega arith in
    rw
      (
        digit_of-hex_digit (c / 16) high,
        digit_of-hex_digit (c % 16) low,
        hex_decode-hex_encode b h.1,
        whole,
      )
      refl

find_session-delete_session :
    (h : Text) (rs : List ProxyRow) → find_session h (delete_session h rs) ≡ none
unfolding find_session delete_session keep_if
find_session-delete_session h [] = refl
find_session-delete_session h (r ∷ rs) = ground (arith, find_session-delete_session h rs)

abbrev row_of : Service → Text → ℕ → ProxySession → ProxyRow
row_of s b expires_at p = record {
  token_hash = s.sha256 b;
  home_domain = p.home_domain;
  home_token = p.home_token;
  user_id = p.user_id;
  device_id = p.device_id;
  expires_at = expires_at;
}

pub created :
    (s : Service) (b : Text) (fails : Bool) (now expires_in : ℕ) (p : ProxySession)
    (st made : Store) (t : Text)
    → create_proxy_session s (some b) fails now p expires_in st ≡ (made, ok t)
    → (hex_encode b ≡ t)
      × (find_session (s.sha256 b) made.sessions ≡ some (row_of s b (now + expires_in) p))
unfolding create_proxy_session find_session
created s b fails now expires_in p st made t h =
    let row = row_of s b (now + expires_in) p in
    elim (Bool-cases (fails || is_found (find_session (s.sha256 b) st.sessions))) [
      | inl bad ↦ absurd (ground (arith, bad))
      | inr fine ↦
          let next : Store = record st { sessions = row ∷ st.sessions } in
          let same : next ≡ made = ground (arith, fine) in
          let found : find_session (s.sha256 b) next.sessions ≡ some row =
            rw (text_eq_refl (s.sha256 b)) refl in
          (ground (arith, fine), ap (λ x. find_session (s.sha256 b) x.sessions) (sym same) ∙ found)
    ]

-- A session that is created under 32 bytes is what its token gives up to the time of expiry, and
-- nothing changes then; after it the token is refused, and the session is deleted, if that call does
-- not fail, so that no session is under the token.
pub get_proxy_session-create_proxy_session :
    (s : Service) (b : Text) (fails delete_fails : Bool) (now later expires_in : ℕ)
    (p : ProxySession) (st made : Store) (t : Text)
    → length b ≡ 32
    → All (λ c. c < 256) b
    → create_proxy_session s (some b) fails now p expires_in st ≡ (made, ok t)
    → (get_proxy_session s false delete_fails later t made ≡ (
        if ltb (now + expires_in) later
        then (
          if delete_fails
              then made
              else record made { sessions = delete_session (s.sha256 b) made.sessions },
          err invalid_token,
        )
        else (made, ok p)))
      × (find_session (s.sha256 b) (delete_session (s.sha256 b) made.sessions) ≡ none)
unfolding get_proxy_session
get_proxy_session-create_proxy_session s b fails delete_fails now later expires_in p st made t len
      bytes h =
    let (token, found) = created s b fails now expires_in p st made t h in
    let decoded : hex_decode t ≡ some b =
      ap hex_decode (sym token) ∙ hex_decode-hex_encode b bytes in
    let size : not (length b == 32) ≡ false = ground arith in
    (
      rw (decoded, get_proxy_session) (rw (size, found) refl),
      find_session-delete_session (s.sha256 b) made.sessions,
    )
