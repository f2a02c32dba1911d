-- ===== src/Auth/Accounts.antt =====
-- Accounts and their key backups: Register, GetUsername, StoreKeyBackup and GetKeyBackup of
-- server/internal/auth/auth.go.
use astralrelay_online.Common.{
  ℕ, suc, ◌+◌, ◌*◌, Bool, not, ◌&&◌, ◌||◌, Option, none, some, List, [], ◌∷◌, ◌++◌, ltb,
  if◌then◌else◌, length, Faults, Result, ok, err,
}
use astralrelay_online.Common.Results.{◌>>=◌, ◌>>◌, fail_if, or_fail}
use astralrelay_online.Common.Text.{Text, lit, text_eq, is_empty}
use astralrelay_online.Keydir.{Prekey, PrekeyItem, max_one_time_prekeys}
use astralrelay_online.Dbenc.{encrypt, decrypt}
use astralrelay_online.Auth.Tables.{
  User, Device, AccessToken, Store, find_account, find_user_id, is_found, insert_user,
  insert_device, insert_token, insert_prekey_row, upsert, value_of,
}
use astralrelay_online.Auth.Tokens.{
  Service, AuthError, username_taken, too_many_prekeys, failed, token_expiry_hours, issue_token,
}

-- What the random sources and the database draw for one call: the nonces by the number of the
-- encryption, bcrypt's salt, the token's UUID, and the number of a new user.
pub record Drawn : Type 0 where
  pub nonce : ℕ → Option Text
  pub seed : ℕ
  pub jti : ℕ
  pub user_id : ℕ

pub record RegisterInput : Type 0 where
  pub username : Text
  pub password : Text
  pub device_id : ℕ
  pub identity_key : Text
  pub signed_prekey : Text
  pub signed_prekey_sig : Text
  pub signed_prekey_id : ℕ
  pub one_time_prekeys : List PrekeyItem
  pub keys_backup_salt : Text
  pub keys_backup_blob : Text

-- fmt.Sprintf("@%s:%s", username, domain)
unfoldable pub user_address : Text → Text → Text
user_address name domain = lit "@" ++ (name ++ (lit ":" ++ domain))

-- The columns of a device's keys as they are stored.
abbrev pub StoredKeys : Type 0
StoredKeys = Text × Text × Text

unfoldable pub seal_keys : Service → Drawn → Text → Text → Text → Result AuthError StoredKeys
seal_keys s r ik spk sig = do
  ik' ← or_fail failed (encrypt s.enc (r.nonce 1) ik)
  spk' ← or_fail failed (encrypt s.enc (r.nonce 2) spk)
  sig' ← or_fail failed (encrypt s.enc (r.nonce 3) sig)
  ok (ik', spk', sig')

abbrev pub prekey_row : ℕ → PrekeyItem → Text → Prekey
prekey_row v item stored = record {
  device = v;
  key_id = item.key_id;
  prekey = stored;
  consumed_at = none;
}

-- The loop of Register over the prekeys, which the first error ends.
unfoldable pub insert_prekeys :
    Service → Faults → Drawn → ℕ → ℕ → List PrekeyItem → Store → Result AuthError Store
insert_prekeys s f r i v [] st = ok st
insert_prekeys s f r i v (item ∷ items) st = do
  stored ← or_fail failed (encrypt s.enc (r.nonce i) item.key)
  fail_if (f i) failed
  next ← or_fail failed (insert_prekey_row (prekey_row v item stored) st)
  insert_prekeys s f r (suc i) v items next

abbrev pub user_row : Service → Drawn → RegisterInput → Text → User
user_row s r in' stored = record {
  id = r.user_id;
  username = in'.username;
  domain = s.domain;
  password_hash = stored;
}

abbrev pub device_row : ℕ → ℕ → ℕ → StoredKeys → ℕ → Device
device_row now v u (ik, spk, sig) key_id = record {
  id = v;
  user_id = u;
  identity_key = ik;
  signed_prekey = spk;
  signed_prekey_sig = sig;
  signed_prekey_id = key_id;
  name = none;
  created_at = now;
}

-- The transaction of Register after its user, up to the Commit.
unfoldable pub register_keys :
    Service → Faults → Drawn → ℕ → RegisterInput → Store → Result AuthError Store
register_keys s f r now in' with_user = do
  keys ← seal_keys s r in'.identity_key in'.signed_prekey in'.signed_prekey_sig
  fail_if (f 3) failed
  with_device ←
      or_fail failed
        (insert_device (device_row now in'.device_id r.user_id keys in'.signed_prekey_id) with_user)
  fail_if (ltb max_one_time_prekeys (length in'.one_time_prekeys)) too_many_prekeys
  with_prekeys ← insert_prekeys s f r 10 in'.device_id in'.one_time_prekeys with_device
  fail_if (f 4) failed
  ok with_prekeys

-- The transaction of Register.
unfoldable pub register_tx :
    Service → Faults → Drawn → ℕ → RegisterInput → Store → Result AuthError Store
register_tx s f r now in' st = do
  fail_if (f 1) failed
  hash ← or_fail failed (s.bcrypt_hash r.seed in'.password)
  stored ← or_fail failed (encrypt s.enc (r.nonce 0) hash)
  fail_if (f 2) failed
  with_user ← or_fail failed (insert_user (user_row s r in' stored) st)
  register_keys s f r now in' with_user

-- The columns of a backup, or the error of a transaction that is rolled back.
unfoldable pub seal_backup : Service → Faults → Drawn → Text → Text → Result AuthError (Text × Text)
seal_backup s f r salt bundle = do
  fail_if (f 5) failed
  salt' ← or_fail failed (encrypt s.enc (r.nonce 5) salt)
  bundle' ← or_fail failed (encrypt s.enc (r.nonce 6) bundle)
  fail_if (f 6 || f 7 || f 8) failed
  ok (salt', bundle')

-- StoreKeyBackup, whose two statements are one transaction.
unfoldable pub store_key_backup :
    Service → Faults → Drawn → ℕ → Text → Text → Store → Store × Result AuthError (Unit {0})
store_key_backup s f r u salt bundle st = elim (seal_backup s f r salt bundle) [
  | err e ↦ (st, err e)
  | ok (salt', bundle') ↦
      (record st { salts = upsert u salt' st.salts; backups = upsert u bundle' st.backups }, ok tt)
]

-- GetKeyBackup: both rows of the user, decrypted.
unfoldable pub get_key_backup : Service → Bool → ℕ → Store → Result AuthError (Text × Text)
get_key_backup s fails u st = do
  fail_if fails failed
  salt ← or_fail failed (value_of u st.salts)
  bundle ← or_fail failed (value_of u st.backups)
  salt' ← or_fail failed (decrypt s.enc salt)
  bundle' ← or_fail failed (decrypt s.enc bundle)
  ok (salt', bundle')

abbrev pub token_row : ℕ → Drawn → ℕ → ℕ → Text → AccessToken
token_row now r u v hash = record {
  user_id = u;
  device_id = v;
  token_hash = hash;
  jti = r.jti;
  expires_at = now + token_expiry_hours * 3600;
  revoked_at = none;
}

-- The end of Register and of Login: a token is issued and put in the table. An INSERT that fails is
-- ignored.
unfoldable pub give_token :
    Service → Faults → Drawn → ℕ → ℕ → ℕ → Store → Store × Result AuthError Text
give_token s f r now u v st = elim (issue_token s now u v r.jti) [
  | none ↦ (st, err failed)
  | some token ↦ elim (encrypt s.enc (r.nonce 4) (s.sha256 token)) [
    | none ↦ (st, err failed)
    | some hash ↦
        let next = insert_token (token_row now r u v hash) st in
        (if f 9 then st else next, ok token)
  ]
]

-- The backup that comes with a registration, if it has both parts; an error is ignored.
unfoldable pub backup_if_given : Service → Faults → Drawn → RegisterInput → Store → Store
backup_if_given s f r in' st =
    if not (is_empty in'.keys_backup_salt) && not (is_empty in'.keys_backup_blob)
    then (store_key_backup s f r r.user_id in'.keys_backup_salt in'.keys_backup_blob st).0
    else st

-- Register: the address, the device and the token of the new user.
unfoldable pub register :
    Service
    → Faults
    → Drawn
    → ℕ
    → RegisterInput
    → Store
    → Store × Result AuthError (Text × ℕ × Text)
register s f r now in' st =
    if f 0
    then (st, err failed)
    else if is_found (find_account in'.username s.domain st.users)
    then (st, err username_taken)
    else elim (register_tx s f r now in' st) [
      | err e ↦ (st, err e)
      | ok made ↦
          let given =
            give_token s f r now r.user_id in'.device_id (backup_if_given s f r in' made) in
          (
            given.0,
            do token ← given.1; ok (user_address in'.username s.domain, in'.device_id, token),
          )
    ]

-- GetUsername
unfoldable pub get_username : Service → Bool → ℕ → Store → Option Text
get_username s fails u st = if fails then none else elim (find_user_id u st.users) [
  | none ↦ none
  | some x ↦ if text_eq x.domain s.domain then some x.username else none
]
