-- ===== src/Auth/Frame.antt =====
-- Predicates on the users and the tokens that every call of server/internal/auth/auth.go keeps: it is
-- enough that the statements on the two tables keep them.
pub mod Registering
pub mod LoggingIn
pub mod History
use astralrelay_online.Common.{
  ℕ, zero, suc, ◌≡◌, ◌≢◌, inl, inr, refl, sym, ap, ◌∙◌, subst, Bool, true, false, not, ◌&&◌, ◌||◌,
  Option, none, some, List, [], ◌∷◌, arith, Bool-cases, Option-cases, Result-cases, All, ◌==◌,
  Faults, Result, ok, err, keep_if, ltb, length,
}
use astralrelay_online.Common.Results.{
  OnOk, OnOk->>=, OnOk-ok, OnOk-value, or_fail, fail_if, ◌>>=◌, ◌>>◌,
}
use astralrelay_online.Common.Text.{Text, is_empty}
use astralrelay_online.Dbenc.{encrypt, decrypt}
use astralrelay_online.Keydir.{Prekey, PrekeyItem, max_one_time_prekeys, find_prekey, is_there}
use astralrelay_online.Auth.Tables.{
  User, Device, AccessToken, Store, find_account, find_user_id, find_device, find_token, is_found,
  has_device, insert_user, insert_device, insert_token, insert_prekey_row, delete_device,
  revoke_where, is_outdated,
}
use astralrelay_online.Auth.Tokens.{
  Service, Claims, AuthError, failed, too_many_prekeys, issue_token, issued_to, validate_token,
  parse_token, revoke_claims, revoke_token,
}
use astralrelay_online.Auth.Accounts.{
  Drawn, RegisterInput, insert_prekeys, register_tx, seal_backup, store_key_backup, give_token,
  backup_if_given, register, token_row, prekey_row, user_row, device_row, seal_keys, register_keys,
  StoredKeys,
}
use astralrelay_online.Auth.Login.{
  LoginInput, device_keys, add_prekeys, add_device, ready_device, log_in_user, login,
  check_password,
}
use astralrelay_online.Auth.Devices.{
  on_device, rename_device, revoke_device, cleanup_expired_tokens,
}
use astralrelay_online.Auth.Proxy.{ProxySession, create_proxy_session, get_proxy_session}
use astralrelay_online.Auth.Calls.{
  Call, registers, logs_in, backs_up, revokes, renames, drops, cleans, opens_session, reads_session,
  step, run,
}

-- What the tokens' UUIDs, the revoking statements, the devices deleted and the cleanups are like.
pub record Limits : Type 1 where
  pub Fresh : ℕ → Type 0
  pub Spares : (AccessToken → Bool) → Type 0
  pub Leaves : ℕ → Type 0
  pub Cleans : ℕ → Type 0

-- A call that stays in the limits.
abbrev pub Fits : Limits → Service → Call → Type 0
Fits l s (registers f r now in') = l.Fresh r.jti
Fits l s (logs_in f r now in') = l.Fresh r.jti
Fits l s (revokes fails update_fails now later t) =
    (c : Claims) (u : ℕ) → s.verify t ≡ some c → l.Spares (issued_to (s.uuid_parse c.jti).0 u)
Fits l s (drops update_fails delete_fails now u v) = l.Spares (on_device u v) × l.Leaves v
Fits l s (cleans now) = l.Cleans now
Fits l s _ = Unit {0}

-- A predicate that the statements keep.
pub record IsKept (l : Limits) (P : List User → List AccessToken → Type 0) : Type 0 where
  pub adds_user :
      (u : User) (us : List User) (ts : List AccessToken)
      → is_found (find_account u.username u.domain us) ≡ false
      → P us ts
      → P (u ∷ us) ts
  pub adds_token :
      (t : AccessToken) (us : List User) (ts : List AccessToken)
      → l.Fresh t.jti
      → P us ts
      → P us (t ∷ ts)
  pub revokes :
      (now : ℕ) (p : AccessToken → Bool) (us : List User) (ts : List AccessToken)
      → l.Spares p
      → P us ts
      → P us (revoke_where now p ts)
  pub deletes :
      (v : ℕ) (us : List User) (ts : List AccessToken)
      → l.Leaves v
      → P us ts
      → P us (keep_if (λ t. not (t.device_id == v)) ts)
  pub cleans :
      (now : ℕ) (us : List User) (ts : List AccessToken)
      → l.Cleans now
      → P us ts
      → P us (keep_if (λ t. not (is_outdated now t)) ts)
