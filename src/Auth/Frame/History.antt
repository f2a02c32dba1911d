-- ===== src/Auth/Frame/History.antt =====
-- Every call, and every history of calls, keeps what the statements keep.
use astralrelay_online.Common.{
  ℕ, ◌≡◌, inl, inr, refl, ap, ◌∙◌, Bool, true, false, not, ◌||◌, Option, none, some, List, [], ◌∷◌,
  arith, Bool-cases, Option-cases, All,
}
use astralrelay_online.Common.Text.{Text, is_empty}
use astralrelay_online.Auth.Tables.{
  User, AccessToken, Store, has_device, delete_device, revoke_where,
}
use astralrelay_online.Auth.Tokens.{
  Service, Claims, issued_to, validate_token, parse_token, revoke_claims, revoke_token,
}
use astralrelay_online.Auth.Devices.{
  on_device, rename_device, revoke_device, cleanup_expired_tokens,
}
use astralrelay_online.Auth.Proxy.{ProxySession, create_proxy_session, get_proxy_session}
use astralrelay_online.Auth.Calls.{
  Call, registers, logs_in, backs_up, revokes, renames, drops, cleans, opens_session, reads_session,
  step, run,
}
use astralrelay_online.Auth.Frame.{Limits, Fits, IsKept}
use astralrelay_online.Auth.Frame.Registering.{register-Holds, store_key_backup-Holds}
use astralrelay_online.Auth.Frame.LoggingIn.{login-Holds}

module _ (l : Limits) (P : List User → List AccessToken → Type 0) (k : IsKept l P)
    (s : Service) where
  abbrev Holds : Store → Type 0
  Holds st = P st.users st.tokens

  revoke_claims-Holds :
      (fails : Bool) (now u : ℕ) (c : Claims) (us : List User) (ts : List AccessToken)
      → l.Spares (issued_to (s.uuid_parse c.jti).0 u)
      → P us ts
      → P us (revoke_claims s fails now u c ts).0
  unfolding revoke_claims
  revoke_claims-Holds fails now u c us ts spares h =
      let revoked = k.revokes now (issued_to (s.uuid_parse c.jti).0 u) us ts spares h in
      elim (Bool-cases (is_empty c.jti || not (s.uuid_parse c.jti).1)) [
        | inl bad ↦ rw (bad, revoke_claims) h
        | inr fine ↦ elim (Bool-cases fails) [
          | inl broken ↦ rw (fine, broken, revoke_claims) h
          | inr done ↦ rw (fine, done, revoke_claims) revoked
        ]
      ]

  parsed : (now : ℕ) (t : Text) (c : Claims) → parse_token s now t ≡ some c → s.verify t ≡ some c
  unfolding parse_token
  parsed now t c h = elim (Option-cases (s.verify t)) [
    | inl bad ↦ absurd (ground (arith, bad))
    | inr (d, good) ↦ let same : d ≡ c = ground (arith, good) in good ∙ ap some same
  ]

  revoke_token-Holds :
      (fails update_fails : Bool) (now later : ℕ) (t : Text) (us : List User)
      (ts : List AccessToken)
      → ((c : Claims) (u : ℕ) → s.verify t ≡ some c → l.Spares (issued_to (s.uuid_parse c.jti).0 u))
      → P us ts
      → P us (revoke_token s fails update_fails now later t ts).0
  unfolding revoke_token
  revoke_token-Holds fails update_fails now later t us ts spares h =
      elim (Option-cases (validate_token s fails now t ts)) [
        | inl bad ↦ rw (bad, revoke_token) h
        | inr (who, good) ↦ elim (Option-cases (parse_token s later t)) [
          | inl gone ↦ rw (good, gone, revoke_token) h
          | inr (c, read) ↦
              rw (good, read, revoke_token)
                (revoke_claims-Holds update_fails later who.0 c us ts
                  (spares c who.0 (parsed later t c read)) h)
        ]
      ]

  delete_device-Holds :
      (u v : ℕ) (st : Store) → l.Leaves v → Holds st → Holds (delete_device u v st)
  unfolding delete_device
  delete_device-Holds u v st leaves h = elim (Bool-cases (has_device u v st.devices)) [
    | inl there ↦ rw (there, delete_device) (k.deletes v st.users st.tokens leaves h)
    | inr gone ↦ rw (gone, delete_device) h
  ]

  revoke_device-Holds :
      (update_fails delete_fails : Bool) (now u v : ℕ) (st : Store)
      → l.Spares (on_device u v)
      → l.Leaves v
      → Holds st
      → Holds (revoke_device update_fails delete_fails now u v st).0
  unfolding revoke_device
  revoke_device-Holds true delete_fails now u v st spares leaves h = h
  revoke_device-Holds false true now u v st spares leaves h =
      k.revokes now (on_device u v) st.users st.tokens spares h
  revoke_device-Holds false false now u v st spares leaves h =
      let revoked : Store = record st { tokens = revoke_where now (on_device u v) st.tokens } in
      delete_device-Holds u v revoked leaves
        (k.revokes now (on_device u v) st.users st.tokens spares h)

  session-Holds :
      (fails delete_fails : Bool) (now : ℕ) (token : Text) (st : Store)
      → ((get_proxy_session s fails delete_fails now token st).0.users ≡ st.users)
        × ((get_proxy_session s fails delete_fails now token st).0.tokens ≡ st.tokens)
  unfolding get_proxy_session
  session-Holds fails delete_fails now token st = (ground arith, ground arith)

  open-Holds :
      (b : Option Text) (fails : Bool) (now : ℕ) (p : ProxySession) (expires_in : ℕ) (st : Store)
      → ((create_proxy_session s b fails now p expires_in st).0.users ≡ st.users)
        × ((create_proxy_session s b fails now p expires_in st).0.tokens ≡ st.tokens)
  unfolding create_proxy_session
  open-Holds none fails now p expires_in st = (refl, refl)
  open-Holds (some b) fails now p expires_in st = (ground arith, ground arith)

  -- Every call that stays in the limits keeps the predicate, and so does every history of such calls.
  step-Holds : (st : Store) (c : Call) → Fits l s c → Holds st → Holds (step s st c)
  unfolding step rename_device cleanup_expired_tokens
  step-Holds st (registers f r now in') fits h = register-Holds l P k s f r now in' st fits h
  step-Holds st (logs_in f r now in') fits h = login-Holds l P k s f r now in' st fits h
  step-Holds st (backs_up f r u salt bundle) fits h =
      store_key_backup-Holds l P k s f r u salt bundle st h
  step-Holds st (revokes fails update_fails now later t) fits h =
      revoke_token-Holds fails update_fails now later t st.users st.tokens fits h
  step-Holds st (renames true u v name) fits h = h
  step-Holds st (renames false u v name) fits h = h
  step-Holds st (drops update_fails delete_fails now u v) fits h =
      revoke_device-Holds update_fails delete_fails now u v st fits.0 fits.1 h
  step-Holds st (cleans now) fits h = k.cleans now st.users st.tokens fits h
  step-Holds st (opens_session b fails now p expires_in) fits h =
      let same = open-Holds b fails now p expires_in st in rw (same.0, same.1) h
  step-Holds st (reads_session fails delete_fails now token) fits h =
      let same = session-Holds fails delete_fails now token st in rw (same.0, same.1) h

  pub run-Holds : (st : Store) (cs : List Call) → All (Fits l s) cs → Holds st → Holds (run s st cs)
  unfolding run
  run-Holds st [] fits h = h
  run-Holds st (c ∷ cs) fits h = run-Holds (step s st c) cs fits.1 (step-Holds st c fits.0 h)
