-- ===== src/Dbenc/Existing.antt =====
-- EncryptExisting leaves what is read in the tables as it was.
use astralrelay_online.Common.{ℕ, ◌≡◌, inl, inr, ap, ◌∙◌, Option, some, List, map, Bool-cases}
use astralrelay_online.Common.Text.{Text}
use astralrelay_online.Keydir.{Prekey}
use astralrelay_online.Auth.Tables.{User, Device, AccessToken, ProxyRow, Store}
use astralrelay_online.Dbenc.{Aead, Cipher}
use astralrelay_online.Dbenc.Migrate.{
  MigrateDraws, seal_user, seal_device, seal_prekey, seal_token, seal_salt, seal_table,
  migrate_salts, migrate_tokens, migrate_prekeys, migrate_devices, encrypt_existing,
}
use astralrelay_online.Dbenc.Rows.{seal_table-view}
use astralrelay_online.Dbenc.Readable.{IsAead, Sized}
use astralrelay_online.Dbenc.Sealing.{
  user_view, device_view, prekey_view, token_view, salt_view, seal_user-view, seal_device-view,
  seal_prekey-view, seal_token-view, seal_salt-view,
}

-- What is read of the tables through Decrypt, and the rest of them.
pub record View : Type 0 where
  pub users : List (User × Option Text)
  pub devices : List (Device × Option Text × Option Text × Option Text)
  pub prekeys : List (Prekey × Option Text)
  pub tokens : List (AccessToken × Option Text)
  pub salts : List ((ℕ × Text) × Option Text)
  pub backups : List (ℕ × Text)
  pub sessions : List ProxyRow

unfoldable pub view : Cipher → Store → View
view c st = record {
  users = map (user_view c) st.users;
  devices = map (device_view c) st.devices;
  prekeys = map (prekey_view c) st.prekeys;
  tokens = map (token_view c) st.tokens;
  salts = map (salt_view c) st.salts;
  backups = st.backups;
  sessions = st.sessions;
}

-- Every nonce that is drawn has its size.
pub record AreSized (a : Aead) (r : MigrateDraws) : Type 0 where
  pub users : Sized a r.users.nonce
  pub devices : Sized a r.devices.nonce
  pub prekeys : Sized a r.prekeys.nonce
  pub tokens : Sized a r.tokens.nonce
  pub salts : Sized a r.salts.nonce

module _ (a : Aead) (sound : IsAead a) (r : MigrateDraws) (sized : AreSized a r) where
  salts_same :
      (st : Store)
      → map
          (salt_view (some a))
          (seal_table (r.query_fails 4) (seal_salt (some a) r.salts) st.salts).0
        ≡ map (salt_view (some a)) st.salts
  salts_same st =
      seal_table-view (seal_salt (some a) r.salts) (salt_view (some a))
        (λ i x y h. (seal_salt-view a sound r.salts sized.salts i x y h).0) (r.query_fails 4)
        st.salts

  migrate_salts-view :
      (st : Store) → view (some a) (migrate_salts (some a) r st).0 ≡ view (some a) st
  unfolding migrate_salts view
  migrate_salts-view st =
      let before : View = view (some a) st in
      ap {B = View} (λ m. record before { salts = m }) (salts_same st)

  tokens_same :
      (st : Store)
      → map
          (token_view (some a))
          (seal_table (r.query_fails 3) (seal_token (some a) r.tokens) st.tokens).0
        ≡ map (token_view (some a)) st.tokens
  tokens_same st =
      seal_table-view (seal_token (some a) r.tokens) (token_view (some a))
        (λ i x y h. (seal_token-view a sound r.tokens sized.tokens i x y h).0) (r.query_fails 3)
        st.tokens

  migrate_tokens-view :
      (st : Store) → view (some a) (migrate_tokens (some a) r st).0 ≡ view (some a) st
  unfolding migrate_tokens view
  migrate_tokens-view st =
      let before : View = view (some a) st in
      let done = seal_table (r.query_fails 3) (seal_token (some a) r.tokens) st.tokens in
      let next : Store = record st { tokens = done.0 } in
      let here : view (some a) next ≡ view (some a) st =
        ap {B = View} (λ m. record before { tokens = m }) (tokens_same st) in
      elim (Bool-cases done.1) [
        | inl ended ↦ rw ended (migrate_salts-view next ∙ here)
        | inr stopped ↦ rw stopped here
      ]

  prekeys_same :
      (st : Store)
      → map
          (prekey_view (some a))
          (seal_table (r.query_fails 2) (seal_prekey (some a) r.prekeys) st.prekeys).0
        ≡ map (prekey_view (some a)) st.prekeys
  prekeys_same st =
      seal_table-view (seal_prekey (some a) r.prekeys) (prekey_view (some a))
        (λ i x y h. (seal_prekey-view a sound r.prekeys sized.prekeys i x y h).0) (r.query_fails 2)
        st.prekeys

  migrate_prekeys-view :
      (st : Store) → view (some a) (migrate_prekeys (some a) r st).0 ≡ view (some a) st
  unfolding migrate_prekeys view
  migrate_prekeys-view st =
      let before : View = view (some a) st in
      let done = seal_table (r.query_fails 2) (seal_prekey (some a) r.prekeys) st.prekeys in
      let next : Store = record st { prekeys = done.0 } in
      let here : view (some a) next ≡ view (some a) st =
        ap {B = View} (λ m. record before { prekeys = m }) (prekeys_same st) in
      elim (Bool-cases done.1) [
        | inl ended ↦ rw ended (migrate_tokens-view next ∙ here)
        | inr stopped ↦ rw stopped here
      ]

  devices_same :
      (st : Store)
      → map
          (device_view (some a))
          (seal_table (r.query_fails 1) (seal_device (some a) r.devices) st.devices).0
        ≡ map (device_view (some a)) st.devices
  devices_same st =
      seal_table-view (seal_device (some a) r.devices) (device_view (some a))
        (λ i x y h. (seal_device-view a sound r.devices sized.devices i x y h).0) (r.query_fails 1)
        st.devices

  migrate_devices-view :
      (st : Store) → view (some a) (migrate_devices (some a) r st).0 ≡ view (some a) st
  unfolding migrate_devices view
  migrate_devices-view st =
      let before : View = view (some a) st in
      let done = seal_table (r.query_fails 1) (seal_device (some a) r.devices) st.devices in
      let next : Store = record st { devices = done.0 } in
      let here : view (some a) next ≡ view (some a) st =
        ap {B = View} (λ m. record before { devices = m }) (devices_same st) in
      elim (Bool-cases done.1) [
        | inl ended ↦ rw ended (migrate_prekeys-view next ∙ here)
        | inr stopped ↦ rw stopped here
      ]

  users_same :
      (st : Store)
      → map
          (user_view (some a))
          (seal_table (r.query_fails 0) (seal_user (some a) r.users) st.users).0
        ≡ map (user_view (some a)) st.users
  users_same st =
      seal_table-view (seal_user (some a) r.users) (user_view (some a))
        (λ i x y h. (seal_user-view a sound r.users sized.users i x y h).0) (r.query_fails 0)
        st.users

  -- EncryptExisting changes nothing of what is read through Decrypt, whichever queries, updates and
  -- draws of a nonce fail, and whether or not it comes to its end.
  pub encrypt_existing-view :
      (st : Store) → view (some a) (encrypt_existing (some a) r st).0 ≡ view (some a) st
  unfolding encrypt_existing view
  encrypt_existing-view st =
      let before : View = view (some a) st in
      let done = seal_table (r.query_fails 0) (seal_user (some a) r.users) st.users in
      let next : Store = record st { users = done.0 } in
      let here : view (some a) next ≡ view (some a) st =
        ap {B = View} (λ m. record before { users = m }) (users_same st) in
      elim (Bool-cases done.1) [
        | inl ended ↦ rw ended (migrate_devices-view next ∙ here)
        | inr stopped ↦ rw stopped here
      ]
