-- ===== src/Auth/Standing.antt =====
-- A token that is issued is accepted until it expires, and is accepted where its kind belongs.
use astralrelay_online.Common.{
  ℕ, ◌+◌, ◌*◌, ◌^◌, ◌/◌, ◌%◌, ◌<◌, ◌≤◌, ◌≡◌, ◌≢◌, inl, inr, refl, ap, ◌∙◌, Bool, true, false, not,
  ◌&&◌, ◌||◌, some, List, [], ◌∷◌, ◌==◌, ltb, lt→ltb, arith, Option-cases, All, ok, keep_if, Faults,
}
use astralrelay_online.Common.Text.{Text, lit, is_empty, text_eq_refl}
use astralrelay_online.Dbenc.{encrypt}
use astralrelay_online.Auth.Tables.{
  AccessToken, Store, is_unrevoked, is_live, revoke_where, is_outdated, find_token, find_device,
  find_user_id, is_found, insert_token,
}
use astralrelay_online.Auth.Tokens.{
  Service, Claims, parse_token, validate_claims, validate_token, issue_token, access_claims,
  float_of_int, shift_of, half_even, differs, is_expired, token_expiry_hours,
}
use astralrelay_online.Auth.Accounts.{Drawn, give_token, token_row}
use astralrelay_online.Auth.Calls.{Call, run}
use astralrelay_online.Auth.Frame.{Limits, Fits, IsKept}
use astralrelay_online.Auth.Frame.History.{run-Holds}

-- A row of the UUID on the device, unrevoked and not expired.
unfoldable stands : ℕ → ℕ → ℕ → List AccessToken → Bool
stands now j v [] = false
stands now j v (t ∷ ts) =
    ((t.jti == j) && is_unrevoked t && ltb now t.expires_at && (t.device_id == v))
    || stands now j v ts

-- The limits of a history that revokes neither the UUID nor the device, and cleans up before `now`.
abbrev pub Sparing : ℕ → ℕ → ℕ → Limits
Sparing now j v = record {
  Fresh = λ i. Unit;
  Spares = λ p. (t : AccessToken) → t.jti ≡ j → t.device_id ≡ v → p t ≡ false;
  Leaves = λ w. w ≢ v;
  Cleans = λ at. at ≤ now;
}

stands-is_live :
    (now j v : ℕ) (ts : List AccessToken) → stands now j v ts ≡ true → is_live now j ts ≡ true
unfolding stands is_live
stands-is_live now j v [] h = absurd (ground arith)
stands-is_live now j v (t ∷ ts) h = ground (arith, stands-is_live now j v ts)

stands-revoke_where :
    (now at j v : ℕ) (p : AccessToken → Bool) (ts : List AccessToken)
    → ((t : AccessToken) → t.jti ≡ j → t.device_id ≡ v → p t ≡ false)
    → stands now j v ts ≡ true
    → stands now j v (revoke_where at p ts) ≡ true
unfolding stands revoke_where
stands-revoke_where now at j v p [] spares h = absurd (ground arith)
stands-revoke_where now at j v p (t ∷ ts) spares h =
    ground (arith, spares t, stands-revoke_where now at j v p ts spares)

stands-deletes :
    (now j v w : ℕ) (ts : List AccessToken)
    → w ≢ v
    → stands now j v ts ≡ true
    → stands now j v (keep_if (λ t. not (t.device_id == w)) ts) ≡ true
unfolding stands keep_if
stands-deletes now j v w [] apart h = absurd (ground arith)
stands-deletes now j v w (t ∷ ts) apart h = ground (arith, stands-deletes now j v w ts apart)

stands-cleans :
    (now at j v : ℕ) (ts : List AccessToken)
    → at ≤ now
    → stands now j v ts ≡ true
    → stands now j v (keep_if (λ t. not (is_outdated at t)) ts) ≡ true
unfolding stands keep_if
stands-cleans now at j v [] before h = absurd (ground arith)
stands-cleans now at j v (t ∷ ts) before h = ground (arith, stands-cleans now at j v ts before)

stands-IsKept : (now j v : ℕ) → IsKept (Sparing now j v) (λ us ts. stands now j v ts ≡ true)
unfolding stands
stands-IsKept now j v = record {
  adds_user = λ u us ts new h. h;
  adds_token = λ t us ts fresh h. ground arith;
  revokes = λ at p us ts spares h. stands-revoke_where now at j v p ts spares h;
  deletes = λ w us ts apart h. stands-deletes now j v w ts apart h;
  cleans = λ at us ts before h. stands-cleans now at j v ts before h;
}

-- What the packages jwt and uuid promise: what is signed is read back, and so is a UUID.
pub record IsSigning (s : Service) : Type 0 where
  pub verify-sign : (c : Claims) (t : Text) → s.sign c ≡ some t → s.verify t ≡ some c
  pub parse-string : (x : ℕ) → s.uuid_parse (s.uuid_string x) ≡ (x, true)
  pub is_empty-string : (x : ℕ) → is_empty (s.uuid_string x) ≡ false

no_shift : (n : ℕ) → n < 2 ^ 53 → shift_of 11 n ≡ 0
unfolding shift_of
no_shift n small = rw (lt→ltb n (2 ^ 53) small) refl

half_even_one : (n : ℕ) → half_even n 1 * 1 ≡ n
unfolding half_even
half_even_one n =
    let even : ltb (n % 1 + n % 1) 1 ≡ true = ground arith in
    let whole : n / 1 * 1 ≡ n = omega arith in rw even whole

pub float_exact : (n : ℕ) → n < 2 ^ 53 → float_of_int n ≡ n
unfolding float_of_int
float_exact n small = rw (no_shift n small) (half_even_one n)

pub differs_self : (x : Text) → differs x x ≡ false
differs_self x = ground (arith, text_eq_refl x)

pub parses :
    (s : Service) (now e : ℕ) (t : Text) (c : Claims)
    → s.verify t ≡ some c
    → c.exp ≡ some e
    → now < e
    → parse_token s now t ≡ some c
unfolding parse_token
parses s now e t c signed limit early =
    let fresh : is_expired now (some e) ≡ false = ground arith in
    rw (signed, parse_token) (rw (limit, fresh) refl)

validates :
    (s : Service) (now later u v jti : ℕ) (ts : List AccessToken)
    → IsSigning s
    → is_live later jti ts ≡ true
    → validate_claims s false later (access_claims s now u v jti) ts ≡ some (float_of_int u, v)
unfolding validate_claims
validates s now later u v jti ts sound live =
    rw
      (
        sound.is_empty-string jti,
        sound.parse-string jti,
        live,
        differs_self s.domain,
        sound.parse-string v,
      )
      (rw (text_eq_refl (lit "access"), text_eq_refl (lit "api")) refl)

accepted :
    (s : Service) (now later u v jti : ℕ) (t : Text) (ts : List AccessToken)
    → IsSigning s
    → u < 2 ^ 53
    → later < now + token_expiry_hours * 3600
    → s.verify t ≡ some (access_claims s now u v jti)
    → is_live later jti ts ≡ true
    → validate_token s false later t ts ≡ some (u, v)
unfolding validate_token
accepted s now later u v jti t ts sound small early signed live =
    let c = access_claims s now u v jti in
    let read = parses s later (now + token_expiry_hours * 3600) t c signed refl early in
    rw (read, validate_token)
      (validates s now later u v jti ts sound live ∙ ap (λ x. some (x, v)) (float_exact u small))

given_row :
    (s : Service) (f : Faults) (r : Drawn) (now u v : ℕ) (st : Store) (t : Text)
    → (give_token s f r now u v st).1 ≡ ok t
    → f 9 ≡ false
    → is_found (find_token r.jti st.tokens) ≡ false
    → is_found (find_device v st.devices) ≡ true
    → is_found (find_user_id u st.users) ≡ true
    → (s.sign (access_claims s now u v r.jti) ≡ some t)
      × ((hash : Text) × ((give_token s f r now u v st).0.tokens
            ≡ token_row now r u v hash ∷ st.tokens))
unfolding give_token issue_token insert_token
given_row s f r now u v st t done put new device user =
    elim (Option-cases (s.sign (access_claims s now u v r.jti))) [
      | inl gone ↦ absurd (ground (arith, gone))
      | inr (x, signed) ↦ elim (Option-cases (encrypt s.enc (r.nonce 4) (s.sha256 x))) [
        | inl lost ↦ absurd (ground (arith, signed, lost))
        | inr (hash, sealed) ↦
            let same : x ≡ t = ground (arith, signed, sealed) in
            (signed ∙ ap some same, (hash, ground (arith, signed, sealed, put, new, device, user)))
      ]
    ]

new_stands :
    (later now : ℕ) (r : Drawn) (u v : ℕ) (hash : Text) (ts : List AccessToken)
    → later < now + token_expiry_hours * 3600
    → stands later r.jti v (token_row now r u v hash ∷ ts) ≡ true
unfolding stands
new_stands later now r u v hash ts early = ground arith

-- The token that Register and Login give at their end, if its INSERT does not fail, its UUID is new and
-- the device and the user are there, is accepted as the user and the device for 24 hours: after any
-- calls, whatever fails in them, that revoke neither the UUID nor the device, and whose cleanups are
-- not ahead of the clock.
pub give_token_accepted :
    (s : Service) (f : Faults) (r : Drawn) (now later u v : ℕ) (st : Store) (t : Text)
    (cs : List Call)
    → IsSigning s
    → u < 2 ^ 53
    → (give_token s f r now u v st).1 ≡ ok t
    → f 9 ≡ false
    → is_found (find_token r.jti st.tokens) ≡ false
    → is_found (find_device v st.devices) ≡ true
    → is_found (find_user_id u st.users) ≡ true
    → later < now + token_expiry_hours * 3600
    → All (Fits (Sparing later r.jti v) s) cs
    → validate_token s false later t (run s (give_token s f r now u v st).0 cs).tokens ≡ some (u, v)
give_token_accepted s f r now later u v st t cs sound small done put new device user early fits =
    let (signed, (hash, row)) = given_row s f r now u v st t done put new device user in
    let after = (give_token s f r now u v st).0 in
    let standing : stands later r.jti v after.tokens ≡ true =
      rw row (new_stands later now r u v hash st.tokens early) in
    let end =
      run-Holds (Sparing later r.jti v) (λ us ts. stands later r.jti v ts ≡ true)
        (stands-IsKept later r.jti v) s after cs fits standing in
    let live = stands-is_live later r.jti v (run s after cs).tokens end in
    accepted s now later u v r.jti t (run s after cs).tokens sound small early
      (sound.verify-sign (access_claims s now u v r.jti) t signed) live
