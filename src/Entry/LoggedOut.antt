-- ===== src/Entry/LoggedOut.antt =====
-- After a logout the token opens no account any more.
use astralrelay_online.Common.{
  ℕ, ◌≡◌, ◌≢◌, inl, inr, refl, sym, ap, ◌∙◌, Bool, false, none, some, List, arith, All, Bool-cases,
  Faults, Result, ok, err,
}
use astralrelay_online.Common.Text.{Text, lit, is_empty}
use astralrelay_online.Auth.Tables.{Store}
use astralrelay_online.Auth.Tokens.{
  Claims, Service, AuthError, validate_token, revoke_token, issued_to, float_of_int,
}
use astralrelay_online.Auth.Proxy.{ProxySession, get_proxy_session}
use astralrelay_online.Auth.Calls.{Call, revokes, step, run}
use astralrelay_online.Auth.Frame.{Fits}
use astralrelay_online.Auth.Revoked.{Undrawn, escapes, revoke_token_final}
use astralrelay_online.Entry.Middleware.{
  Refusal, unauthorized, Caller, account, extract_token, session_caller, auth_middleware,
}
use astralrelay_online.Entry.Accounts.{logout_token, logged_out, handle_logout}

was_ok : (x : Result AuthError (Unit {0})) → logged_out x ≡ ok tt → x ≡ ok tt
was_ok (ok u) h = refl
was_ok (err e) h = absurd (ground (arith, h))

-- What logout does where it has no error.
handle_logout_ok :
    (s : Service) (fails update_fails : Bool) (now later : ℕ) (header : Text) (st : Store)
    → (handle_logout s fails update_fails now later header st).1 ≡ ok tt
    → ((revoke_token s fails update_fails now later (logout_token header) st.tokens).1 ≡ ok tt)
      × ((handle_logout s fails update_fails now later header st).0
          ≡ step s st (revokes fails update_fails now later (logout_token header)))
unfolding handle_logout step
handle_logout_ok s fails update_fails now later header st h =
    elim (Bool-cases (is_empty (logout_token header))) [
      | inl empty' ↦
          let did : (handle_logout s fails update_fails now later header st).1
              ≡ err (unauthorized (lit "missing_token")) =
            rw (empty', handle_logout) refl in
          absurd (ground (arith, did, h))
      | inr there ↦
          let done = revoke_token s fails update_fails now later (logout_token header) st.tokens in
          let next : Store = record st { tokens = done.0 } in
          let did : handle_logout s fails update_fails now later header st
              ≡ (next, logged_out done.1) =
            rw (there, handle_logout) refl in
          (
            was_ok done.1 (sym (ap (λ (x : Store × Result Refusal (Unit {0})). x.1) did) ∙ h),
            ap (λ (x : Store × Result Refusal (Unit {0})). x.0) did,
          )
    ]

session_never :
    (x : Store × Result AuthError ProxySession) (u v : ℕ) → (session_caller x).1 ≢ ok (account u v)
session_never (st, ok p) u v h = ground (arith, h)
session_never (st, err e) u v h = ground (arith, h)

account_needs :
    (s : Service) (f : Faults) (now u v : ℕ) (header : Text) (st : Store)
    → validate_token s (f 0) now (extract_token header) st.tokens ≡ none
    → (auth_middleware s f now header st).1 ≢ ok (account u v)
unfolding auth_middleware
account_needs s f now u v header st refused passed =
    elim (Bool-cases (is_empty (extract_token header))) [
      | inl empty' ↦
          let did : (auth_middleware s f now header st).1
              ≡ err (unauthorized (lit "missing_token")) =
            rw (empty', auth_middleware) refl in
          ground (arith, did, passed)
      | inr there ↦
          let asked = get_proxy_session s (f 1) (f 2) now (extract_token header) st in
          let did : auth_middleware s f now header st ≡ session_caller asked =
            rw (there, refused, auth_middleware) refl in
          session_never asked u v
            (sym (ap (λ (x : Store × Result Refusal Caller). x.1) did) ∙ passed)
    ]

-- A token with which a logout has succeeded opens no account any more, whatever calls follow and whatever
-- fails, if the rows with its UUID are those of its user and the UUID is not drawn again.
pub handle_logout_final :
    (s : Service) (fails update_fails : Bool) (now later again u v : ℕ) (header next : Text)
    (c : Claims) (st : Store) (cs : List Call) (f : Faults)
    → s.verify (logout_token header) ≡ some c
    → escapes
        (s.uuid_parse c.jti).0
        (issued_to (s.uuid_parse c.jti).0 (float_of_int c.user_id))
        st.tokens
      ≡ false
    → (handle_logout s fails update_fails now later header st).1 ≡ ok tt
    → All (Fits (Undrawn (s.uuid_parse c.jti).0) s) cs
    → extract_token next ≡ logout_token header
    → (auth_middleware s f again next
        (run s (handle_logout s fails update_fails now later header st).0 cs)).1
      ≢ ok (account u v)
handle_logout_final s fails update_fails now later again u v header next c st cs f signed covered
      done fits same =
    let (revoked, left) = handle_logout_ok s fails update_fails now later header st done in
    let t = logout_token header in
    let refused =
      revoke_token_final s fails update_fails (f 0) now later t c st cs again signed covered revoked
        fits in
    let after = run s (handle_logout s fails update_fails now later header st).0 cs in
    let unread : validate_token s (f 0) again (extract_token next) after.tokens ≡ none =
      rw (same, left) refused in
    account_needs s f again u v next after unread
