-- ===== src/Auth/Kinds.antt =====
-- Access tokens and WebSocket tokens do not stand for each other.
use astralrelay_online.Common.{
  ℕ, ◌+◌, ◌^◌, ◌<◌, ◌≡◌, inl, inr, refl, Bool, true, none, some, List, leb, if◌then◌else◌, arith,
  Bool-cases,
}
use astralrelay_online.Common.Text.{Text, lit, text_eq, text_eq_refl}
use astralrelay_online.Auth.Tables.{AccessToken}
use astralrelay_online.Auth.Tokens.{
  Service, Claims, parse_token, validate_claims, validate_token, validate_ws_token, issue_token,
  issue_ws_token, access_claims, ws_claims, ws_token_expiry_sec,
}
use astralrelay_online.Auth.Standing.{IsSigning, parses, differs_self, float_exact}

expired :
    (s : Service) (now e : ℕ) (t : Text) (c : Claims)
    → s.verify t ≡ some c
    → c.exp ≡ some e
    → leb e now ≡ true
    → parse_token s now t ≡ none
unfolding parse_token
expired s now e t c signed limit late = rw (signed, parse_token) (rw (limit, late) refl)

no_jti :
    (s : Service) (fails : Bool) (now later u v : ℕ) (t : Text) (ts : List AccessToken)
    → s.verify t ≡ some (ws_claims s now u v)
    → validate_token s fails later t ts ≡ none
unfolding validate_token parse_token validate_claims
no_jti s fails now later u v t ts signed = ground (arith, signed)

ws_accepted :
    (s : Service) (now later u v : ℕ) (t : Text)
    → IsSigning s
    → u < 2 ^ 53
    → s.verify t ≡ some (ws_claims s now u v)
    → later < now + ws_token_expiry_sec
    → validate_ws_token s later t ≡ some (u, v)
unfolding validate_ws_token
ws_accepted s now later u v t sound small signed early =
    let c = ws_claims s now u v in
    let read = parses s later (now + ws_token_expiry_sec) t c signed refl early in
    rw (read, validate_ws_token)
      (rw
        (
          text_eq_refl (lit "ws"),
          differs_self s.domain,
          text_eq_refl (lit "api"),
          sound.parse-string v,
          float_exact u small,
        )
        refl)

-- A WebSocket token is accepted on the WebSocket for 60 seconds, as the user and the device that it was
-- issued to, and not after; and no other request accepts it, whatever is in the table of tokens.
pub issue_ws_token_accepted :
    (s : Service) (fails : Bool) (now later u v : ℕ) (t : Text) (ts : List AccessToken)
    → IsSigning s
    → u < 2 ^ 53
    → issue_ws_token s now u v ≡ some t
    → (validate_ws_token s later t
        ≡ (if leb (now + ws_token_expiry_sec) later then none else some (u, v)))
      × (validate_token s fails later t ts ≡ none)
unfolding issue_ws_token validate_ws_token
issue_ws_token_accepted s fails now later u v t ts sound small issued =
    let c = ws_claims s now u v in
    let signed = sound.verify-sign c t issued in
    let refused = no_jti s fails now later u v t ts signed in
    elim (Bool-cases (leb (now + ws_token_expiry_sec) later)) [
      | inl late ↦
          let gone = expired s later (now + ws_token_expiry_sec) t c signed refl late in
          (rw late (rw (gone, validate_ws_token) refl), refused)
      | inr early ↦ (
        rw early (ws_accepted s now later u v t sound small signed (ground (arith, early))),
        refused,
      )
    ]

-- No token that issueToken gave is accepted on the WebSocket.
pub issue_token-not_ws :
    (s : Service) (now later u v jti : ℕ) (t : Text)
    → IsSigning s
    → issue_token s now u v jti ≡ some t
    → validate_ws_token s later t ≡ none
unfolding issue_token validate_ws_token parse_token text_eq
issue_token-not_ws s now later u v jti t sound issued =
    let signed = sound.verify-sign (access_claims s now u v jti) t issued in ground (arith, signed)
