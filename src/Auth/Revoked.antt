-- ===== src/Auth/Revoked.antt =====
-- A token that is revoked, or whose device is revoked, is never accepted again.
use astralrelay_online.Common.{
  ℕ, ◌≡◌, ◌≢◌, inl, inr, refl, sym, ap, ◌∙◌, Bool, true, false, not, ◌&&◌, ◌||◌, none, some, List,
  [], ◌∷◌, ◌==◌, arith, Bool-cases, Option-cases, All, ok, keep_if,
}
use astralrelay_online.Common.Text.{Text}
use astralrelay_online.Auth.Tables.{
  AccessToken, Store, is_unrevoked, is_live, revoke_where, is_outdated, delete_device, has_device,
}
use astralrelay_online.Auth.Tokens.{
  Service, Claims, parse_token, validate_claims, validate_token, issued_to, revoke_claims,
  revoke_token, float_of_int,
}
use astralrelay_online.Auth.Devices.{on_device, revoke_device}
use astralrelay_online.Auth.Calls.{Call, revokes, drops, step, run}
use astralrelay_online.Auth.Frame.{Limits, Fits, IsKept}
use astralrelay_online.Auth.Frame.History.{run-Holds}

-- No row of the UUID is unrevoked.
unfoldable dead : ℕ → List AccessToken → Bool
dead j [] = true
dead j (t ∷ ts) = not ((t.jti == j) && is_unrevoked t) && dead j ts

-- Some row of the UUID is not in the statement's WHERE.
unfoldable pub escapes : ℕ → (AccessToken → Bool) → List AccessToken → Bool
escapes j p [] = false
escapes j p (t ∷ ts) = ((t.jti == j) && not (p t)) || escapes j p ts

-- The limits of a history in which the UUID is not drawn.
abbrev pub Undrawn : ℕ → Limits
Undrawn j = record {
  Fresh = λ i. i ≢ j;
  Spares = λ p. Unit;
  Leaves = λ v. Unit;
  Cleans = λ now. Unit;
}

dead-is_live : (now j : ℕ) (ts : List AccessToken) → dead j ts ≡ true → is_live now j ts ≡ false
unfolding dead is_live
dead-is_live now j [] h = refl
dead-is_live now j (t ∷ ts) h = ground (arith, dead-is_live now j ts)

dead-keep_if :
    (j : ℕ) (p : AccessToken → Bool) (ts : List AccessToken)
    → dead j ts ≡ true
    → dead j (keep_if p ts) ≡ true
unfolding dead keep_if
dead-keep_if j p [] h = refl
dead-keep_if j p (t ∷ ts) h = ground (arith, dead-keep_if j p ts)

dead-revoke_where :
    (now j : ℕ) (p : AccessToken → Bool) (ts : List AccessToken)
    → dead j ts ≡ true
    → dead j (revoke_where now p ts) ≡ true
unfolding dead revoke_where
dead-revoke_where now j p [] h = refl
dead-revoke_where now j p (t ∷ ts) h = ground (arith, dead-revoke_where now j p ts)

-- A statement that covers every row of the UUID leaves none of them unrevoked.
revoke_where-dead :
    (now j : ℕ) (p : AccessToken → Bool) (ts : List AccessToken)
    → escapes j p ts ≡ false
    → dead j (revoke_where now p ts) ≡ true
unfolding dead revoke_where escapes
revoke_where-dead now j p [] h = refl
revoke_where-dead now j p (t ∷ ts) h = ground (arith, revoke_where-dead now j p ts)

dead-IsKept : (j : ℕ) → IsKept (Undrawn j) (λ us ts. dead j ts ≡ true)
unfolding dead
dead-IsKept j = record {
  adds_user = λ u us ts new h. h;
  adds_token = λ t us ts fresh h. ground arith;
  revokes = λ now p us ts spares h. dead-revoke_where now j p ts h;
  deletes = λ v us ts leaves h. dead-keep_if j (λ t. not (t.device_id == v)) ts h;
  cleans = λ now us ts fine h. dead-keep_if j (λ t. not (is_outdated now t)) ts h;
}

refused :
    (s : Service) (fails : Bool) (now : ℕ) (t : Text) (c : Claims) (ts : List AccessToken)
    → s.verify t ≡ some c
    → dead (s.uuid_parse c.jti).0 ts ≡ true
    → validate_token s fails now t ts ≡ none
unfolding validate_token parse_token validate_claims
refused s fails now t c ts signed h =
    let out = dead-is_live now (s.uuid_parse c.jti).0 ts h in ground (arith, signed, out)

-- A history in which the UUID of a token is not drawn again does not bring a dead token back.
dead_stays :
    (s : Service) (fails : Bool) (now : ℕ) (t : Text) (c : Claims) (st : Store) (cs : List Call)
    → s.verify t ≡ some c
    → dead (s.uuid_parse c.jti).0 st.tokens ≡ true
    → All (Fits (Undrawn (s.uuid_parse c.jti).0) s) cs
    → validate_token s fails now t (run s st cs).tokens ≡ none
dead_stays s fails now t c st cs signed h fits =
    let j = (s.uuid_parse c.jti).0 in
    let after = run-Holds (Undrawn j) (λ us ts. dead j ts ≡ true) (dead-IsKept j) s st cs fits h in
    refused s fails now t c (run s st cs).tokens signed after

revoke_claims-dead :
    (s : Service) (fails : Bool) (now u : ℕ) (c : Claims) (ts : List AccessToken)
    → escapes (s.uuid_parse c.jti).0 (issued_to (s.uuid_parse c.jti).0 u) ts ≡ false
    → (revoke_claims s fails now u c ts).1 ≡ ok tt
    → dead (s.uuid_parse c.jti).0 (revoke_claims s fails now u c ts).0 ≡ true
unfolding revoke_claims
revoke_claims-dead s fails now u c ts covered h = ground (
  arith,
  revoke_where-dead now (s.uuid_parse c.jti).0 (issued_to (s.uuid_parse c.jti).0 u) ts covered,
)

who_is :
    (s : Service) (fails : Bool) (now : ℕ) (t : Text) (c : Claims) (ts : List AccessToken)
    (who : ℕ × ℕ)
    → s.verify t ≡ some c
    → validate_token s fails now t ts ≡ some who
    → who.0 ≡ float_of_int c.user_id
unfolding validate_token parse_token validate_claims
who_is s fails now t c ts who signed h = ground (arith, signed)

signed_claims :
    (s : Service) (now : ℕ) (t : Text) (d c : Claims)
    → parse_token s now t ≡ some d
    → s.verify t ≡ some c
    → d ≡ c
unfolding parse_token
signed_claims s now t d c h signed = let same : c ≡ d = ground (arith, signed) in sym same

revoke_token-dead :
    (s : Service) (fails update_fails : Bool) (now later : ℕ) (t : Text) (c : Claims)
    (ts : List AccessToken)
    → s.verify t ≡ some c
    → escapes (s.uuid_parse c.jti).0 (issued_to (s.uuid_parse c.jti).0 (float_of_int c.user_id)) ts
      ≡ false
    → (revoke_token s fails update_fails now later t ts).1 ≡ ok tt
    → dead (s.uuid_parse c.jti).0 (revoke_token s fails update_fails now later t ts).0 ≡ true
unfolding revoke_token
revoke_token-dead s fails update_fails now later t c ts signed covered h =
    elim (Option-cases (validate_token s fails now t ts)) [
      | inl bad ↦ absurd (ground (arith, bad))
      | inr (who, good) ↦
          let same = who_is s fails now t c ts who signed good in
          elim (Option-cases (parse_token s later t)) [
            | inl gone ↦ absurd (ground (arith, good, gone))
            | inr (d, read) ↦
                let parsed = signed_claims s later t d c read signed in
                let call : revoke_token s fails update_fails now later t ts
                    ≡ revoke_claims s update_fails later (float_of_int c.user_id) c ts =
                  rw (good, read, revoke_token) (rw (parsed, same) refl) in
                let done = ap (λ x. x.1) (sym call) ∙ h in
                rw call (
                  revoke_claims-dead s update_fails later (float_of_int c.user_id) c ts covered
                    done)
          ]
    ]

revoke_device-dead :
    (j : ℕ) (update_fails delete_fails : Bool) (now u v : ℕ) (st : Store)
    → escapes j (on_device u v) st.tokens ≡ false
    → (revoke_device update_fails delete_fails now u v st).1 ≡ ok tt
    → dead j (revoke_device update_fails delete_fails now u v st).0.tokens ≡ true
unfolding revoke_device delete_device
revoke_device-dead j true delete_fails now u v st covered h = absurd (ground arith)
revoke_device-dead j false true now u v st covered h = absurd (ground arith)
revoke_device-dead j false false now u v st covered h =
    let gone = revoke_where-dead now j (on_device u v) st.tokens covered in
    elim (Bool-cases (has_device u v st.devices)) [
      | inl there ↦ rw there (
          dead-keep_if j (λ t. not (t.device_id == v)) (revoke_where now (on_device u v) st.tokens)
            gone)
      | inr missing ↦ rw missing gone
    ]

-- A token that RevokeToken has revoked is refused ever after, whatever calls follow and whatever fails
-- in them, if the rows with its UUID are those of its user and the UUID is not drawn again.
pub revoke_token_final :
    (s : Service) (fails update_fails check_fails : Bool) (now later : ℕ) (t : Text) (c : Claims)
    (st : Store) (cs : List Call) (again : ℕ)
    → s.verify t ≡ some c
    → escapes
        (s.uuid_parse c.jti).0
        (issued_to (s.uuid_parse c.jti).0 (float_of_int c.user_id))
        st.tokens
      ≡ false
    → (revoke_token s fails update_fails now later t st.tokens).1 ≡ ok tt
    → All (Fits (Undrawn (s.uuid_parse c.jti).0) s) cs
    → validate_token s check_fails again t
        (run s (step s st (revokes fails update_fails now later t)) cs).tokens
      ≡ none
unfolding step
revoke_token_final s fails update_fails check_fails now later t c st cs again signed covered done
      fits =
    let next : Store = record st {
      tokens = (revoke_token s fails update_fails now later t st.tokens).0;
    } in
    dead_stays s check_fails again t c next cs signed
      (revoke_token-dead s fails update_fails now later t c st.tokens signed covered done) fits

-- After RevokeDevice has succeeded the tokens of the device are refused ever after, whatever calls
-- follow and whatever fails in them, a login of that device with a new token included, if the rows
-- with the token's UUID are the device's and the UUID is not drawn again.
pub revoke_device_final :
    (s : Service) (update_fails delete_fails : Bool) (now u v : ℕ) (t : Text) (c : Claims)
    (st : Store) (cs : List Call) (again : ℕ)
    → s.verify t ≡ some c
    → escapes (s.uuid_parse c.jti).0 (on_device u v) st.tokens ≡ false
    → (revoke_device update_fails delete_fails now u v st).1 ≡ ok tt
    → All (Fits (Undrawn (s.uuid_parse c.jti).0) s) cs
    → validate_token s false again t
        (run s (step s st (drops update_fails delete_fails now u v)) cs).tokens
      ≡ none
unfolding step
revoke_device_final s update_fails delete_fails now u v t c st cs again signed covered done fits =
    dead_stays s false again t c (revoke_device update_fails delete_fails now u v st).0 cs signed
      (revoke_device-dead (s.uuid_parse c.jti).0 update_fails delete_fails now u v st covered done)
      fits
