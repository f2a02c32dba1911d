-- ===== src/Auth/Tables.antt =====
-- The tables of db/migrations that server/internal/auth/auth.go uses, and its SQL statements on
-- them. A UUID is a number, a BYTEA or TEXT its bytes, and times are seconds.
use astralrelay_online.Common.{
  ℕ, ◌+◌, ◌*◌, Bool, true, false, not, ◌&&◌, ◌||◌, Option, none, some, List, [], ◌∷◌, ◌==◌, ltb,
  if◌then◌else◌, keep_if,
}
use astralrelay_online.Common.Text.{Text, text_eq}
use astralrelay_online.Keydir.{Prekey, find_prekey, is_there}

pub record User : Type 0 where
  pub id : ℕ
  pub username : Text
  pub domain : Text
  pub password_hash : Text

-- `name` is none for NULL.
pub record Device : Type 0 where
  pub id : ℕ
  pub user_id : ℕ
  pub identity_key : Text
  pub signed_prekey : Text
  pub signed_prekey_sig : Text
  pub signed_prekey_id : ℕ
  pub name : Option Text
  pub created_at : ℕ

pub record AccessToken : Type 0 where
  pub user_id : ℕ
  pub device_id : ℕ
  pub token_hash : Text
  pub jti : ℕ
  pub expires_at : ℕ
  pub revoked_at : Option ℕ

pub record ProxyRow : Type 0 where
  pub token_hash : Text
  pub home_domain : Text
  pub home_token : Text
  pub user_id : Text
  pub device_id : Text
  pub expires_at : ℕ

-- backup_salts and key_backups have one column beside the user.
pub record Store : Type 0 where
  pub users : List User
  pub devices : List Device
  pub prekeys : List Prekey
  pub tokens : List AccessToken
  pub salts : List (ℕ × Text)
  pub backups : List (ℕ × Text)
  pub sessions : List ProxyRow

-- username = u AND domain = d
abbrev pub named : Text → Text → User → Bool
named u d x = text_eq x.username u && text_eq x.domain d

-- SELECT … FROM users WHERE username = u AND domain = d
unfoldable pub find_account : Text → Text → List User → Option User
find_account u d [] = none
find_account u d (x ∷ xs) = if named u d x then some x else find_account u d xs

-- SELECT … FROM users WHERE id = i
unfoldable pub find_user_id : ℕ → List User → Option User
find_user_id i [] = none
find_user_id i (x ∷ xs) = if x.id == i then some x else find_user_id i xs

abbrev pub is_found {ℓ} : {A : Type ℓ} → Option A → Bool
is_found none = false
is_found (some a) = true

-- INSERT INTO users; `none` is a violated key, users.id or idx_users_domain_username.
unfoldable pub insert_user : User → Store → Option Store
insert_user u st =
    if is_found (find_user_id u.id st.users) || is_found (find_account u.username u.domain st.users)
    then none
    else some (record st { users = u ∷ st.users })

-- SELECT … FROM devices WHERE id = v; the key is the device's own id.
unfoldable pub find_device : ℕ → List Device → Option Device
find_device v [] = none
find_device v (x ∷ xs) = if x.id == v then some x else find_device v xs

abbrev pub owned : ℕ → ℕ → Device → Bool
owned u v x = (x.user_id == u) && (x.id == v)

-- SELECT EXISTS(… FROM devices WHERE user_id = u AND id = v)
unfoldable pub has_device : ℕ → ℕ → List Device → Bool
has_device u v [] = false
has_device u v (x ∷ xs) = owned u v x || has_device u v xs

-- SELECT … FROM devices WHERE user_id = u LIMIT 1, in the order of the table
unfoldable pub first_device : ℕ → List Device → Option Device
first_device u [] = none
first_device u (x ∷ xs) = if x.user_id == u then some x else first_device u xs

-- INSERT INTO devices; `none` is a violated primary or foreign key.
unfoldable pub insert_device : Device → Store → Option Store
insert_device x st =
    if is_found (find_device x.id st.devices) || not (is_found (find_user_id x.user_id st.users))
    then none
    else some (record st { devices = x ∷ st.devices })

-- DELETE FROM devices WHERE id = v AND user_id = u, with the rows that cascade from it.
unfoldable pub delete_device : ℕ → ℕ → Store → Store
delete_device u v st =
    if has_device u v st.devices
    then record st {
      devices = keep_if (λ x. not (owned u v x)) st.devices;
      prekeys = keep_if (λ p. not (p.device == v)) st.prekeys;
      tokens = keep_if (λ t. not (t.device_id == v)) st.tokens;
    }
    else st

unfoldable pub find_token : ℕ → List AccessToken → Option AccessToken
find_token j [] = none
find_token j (t ∷ ts) = if t.jti == j then some t else find_token j ts

-- INSERT INTO access_tokens; a violated key, jti UNIQUE or a foreign one, leaves the table.
unfoldable pub insert_token : AccessToken → Store → Store
insert_token t st =
    if is_found (find_token t.jti st.tokens)
      || not (is_found (find_device t.device_id st.devices))
      || not (is_found (find_user_id t.user_id st.users))
    then st
    else record st { tokens = t ∷ st.tokens }

-- INSERT INTO one_time_prekeys; `none` is a violated key (device_id, key_id).
unfoldable pub insert_prekey_row : Prekey → Store → Option Store
insert_prekey_row p st =
    if is_there (find_prekey p.device p.key_id st.prekeys)
    then none
    else some (record st { prekeys = p ∷ st.prekeys })

-- revoked_at IS NULL
abbrev pub is_unrevoked : AccessToken → Bool
is_unrevoked t = not (is_found t.revoked_at)

-- SELECT EXISTS(… WHERE jti = j AND revoked_at IS NULL AND expires_at > NOW())
unfoldable pub is_live : ℕ → ℕ → List AccessToken → Bool
is_live now j [] = false
is_live now j (t ∷ ts) =
    ((t.jti == j) && is_unrevoked t && ltb now t.expires_at) || is_live now j ts

abbrev revoke_row : ℕ → (AccessToken → Bool) → AccessToken → AccessToken
revoke_row now p t = if p t && is_unrevoked t then record t { revoked_at = some now } else t

-- UPDATE access_tokens SET revoked_at = NOW() WHERE … AND revoked_at IS NULL
unfoldable pub revoke_where : ℕ → (AccessToken → Bool) → List AccessToken → List AccessToken
revoke_where now p [] = []
revoke_where now p (t ∷ ts) = revoke_row now p t ∷ revoke_where now p ts

-- expires_at < NOW() OR (revoked_at IS NOT NULL AND revoked_at < NOW() - INTERVAL '7 days')
abbrev pub is_outdated : ℕ → AccessToken → Bool
is_outdated now t =
    ltb t.expires_at now
    || elim t.revoked_at [ none ↦ false | some r ↦ ltb (r + 7 * 24 * 3600) now ]

-- INSERT … ON CONFLICT (user_id) DO UPDATE
unfoldable pub upsert : ℕ → Text → List (ℕ × Text) → List (ℕ × Text)
upsert u b [] = (u, b) ∷ []
upsert u b ((w, c) ∷ rs) = let rest = upsert u b rs in if w == u then (u, b) ∷ rs else (w, c) ∷ rest

unfoldable pub value_of : ℕ → List (ℕ × Text) → Option Text
value_of u [] = none
value_of u ((w, c) ∷ rs) = if w == u then some c else value_of u rs

-- SELECT … FROM proxy_sessions WHERE token_hash = h
unfoldable pub find_session : Text → List ProxyRow → Option ProxyRow
find_session h [] = none
find_session h (r ∷ rs) = if text_eq r.token_hash h then some r else find_session h rs
