-- ===== src/Auth/Login.antt =====
-- Login of server/internal/auth/auth.go.
use astralrelay_online.Common.{
  ℕ, suc, Bool, not, ◌&&◌, Option, none, some, List, [], ◌∷◌, ltb, if◌then◌else◌, length, Faults,
  Result, ok, err,
}
use astralrelay_online.Common.Results.{◌>>=◌}
use astralrelay_online.Common.Text.{Text, is_empty}
use astralrelay_online.Keydir.{PrekeyItem, max_one_time_prekeys}
use astralrelay_online.Dbenc.{encrypt, decrypt}
use astralrelay_online.Auth.Tables.{
  Store, find_account, has_device, first_device, insert_device, insert_prekey_row,
}
use astralrelay_online.Auth.Tokens.{
  Service, AuthError, invalid_credentials, keys_required, too_many_prekeys, failed,
}
use astralrelay_online.Auth.Accounts.{
  Drawn, StoredKeys, seal_keys, prekey_row, device_row, give_token, user_address, get_key_backup,
}

pub record LoginInput : Type 0 where
  pub username : Text
  pub password : Text
  pub device_id : ℕ
  pub request_keys_restore : Bool
  pub identity_key : Text
  pub signed_prekey : Text
  pub signed_prekey_sig : Text
  pub signed_prekey_id : ℕ
  pub one_time_prekeys : List PrekeyItem

-- The password against the stored hash; a user without a hash logs in with an empty password.
unfoldable pub check_password : Service → Text → Text → Bool
check_password s hash password =
    if not (is_empty hash) then s.bcrypt_compare hash password else is_empty password

abbrev own_keys : Service → Drawn → LoginInput → Result AuthError (StoredKeys × ℕ)
own_keys s r in' = do
  keys ← seal_keys s r in'.identity_key in'.signed_prekey in'.signed_prekey_sig
  ok (keys, in'.signed_prekey_id)

-- The keys of a new device: those of the request, or those of a device that the user has.
unfoldable pub device_keys :
    Service → Bool → Drawn → ℕ → LoginInput → Store → Result AuthError (StoredKeys × ℕ)
device_keys s fails r u in' st =
    if not (is_empty in'.identity_key)
    then own_keys s r in'
    else if in'.request_keys_restore && not fails
    then elim (first_device u st.devices) [
      | none ↦ err keys_required
      | some d ↦
          if is_empty d.identity_key
          then err keys_required
          else ok ((d.identity_key, d.signed_prekey, d.signed_prekey_sig), d.signed_prekey_id)
    ]
    else err keys_required

-- The loop of Login over the prekeys, in which an INSERT that fails is ignored.
unfoldable pub add_prekeys :
    Service → Faults → Drawn → ℕ → ℕ → List PrekeyItem → Store → Store × Result AuthError (Unit {0})
add_prekeys s f r i v [] st = (st, ok tt)
add_prekeys s f r i v (item ∷ items) st = elim (encrypt s.enc (r.nonce i) item.key) [
  | none ↦ (st, err failed)
  | some stored ↦ add_prekeys s f r (suc i) v items (
      if f i
      then st
      else elim (insert_prekey_row (prekey_row v item stored) st) [ none ↦ st | some next ↦ next ])
]

-- The part of Login for a device that is not the user's yet. The device stays where a later step
-- fails.
unfoldable pub add_device :
    Service → Faults → Drawn → ℕ → ℕ → LoginInput → Store → Store × Result AuthError (Unit {0})
add_device s f r now u in' st = elim (device_keys s (f 2) r u in' st) [
  | err e ↦ (st, err e)
  | ok (keys, key_id) ↦
      let device = device_row now in'.device_id u keys key_id in
      elim (insert_device device st) [
        | none ↦ (st, err failed)
        | some next ↦
            if f 3
            then (st, err failed)
            else if ltb max_one_time_prekeys (length in'.one_time_prekeys)
            then (next, err too_many_prekeys)
            else add_prekeys s f r 10 in'.device_id in'.one_time_prekeys next
      ]
]

-- A device that the user has stays as it is.
unfoldable pub ready_device :
    Service → Faults → Drawn → ℕ → ℕ → LoginInput → Store → Store × Result AuthError (Unit {0})
ready_device s f r now u in' st =
    if has_device u in'.device_id st.devices then (st, ok tt) else add_device s f r now u in' st

pub record LoginResult : Type 0 where
  pub user_id : Text
  pub device_id : ℕ
  pub token : Text
  pub keys_backup : Option (Text × Text)

abbrev restored : Service → Bool → LoginInput → ℕ → Store → Option (Text × Text)
restored s fails in' u st =
    if in'.request_keys_restore
    then elim (get_key_backup s fails u st) [ ok b ↦ some b | err e ↦ none ]
    else none

-- Login after the password was right.
unfoldable pub log_in_user :
    Service → Faults → Drawn → ℕ → ℕ → LoginInput → Store → Store × Result AuthError LoginResult
log_in_user s f r now u in' st =
    if f 1
    then (st, err failed)
    else let ready = ready_device s f r now u in' st in
      elim ready.1 [
        | err e ↦ (ready.0, err e)
        | ok _ ↦
            let given = give_token s f r now u in'.device_id ready.0 in
            (
              given.0,
              do
                token ← given.1
                ok (record {
                  user_id = user_address in'.username s.domain;
                  device_id = in'.device_id;
                  token = token;
                  keys_backup = restored s (f 5) in' u given.0;
                }),
            )
      ]

unfoldable pub login :
    Service → Faults → Drawn → ℕ → LoginInput → Store → Store × Result AuthError LoginResult
login s f r now in' st =
    if f 0 then (st, err failed) else elim (find_account in'.username s.domain st.users) [
      | none ↦ (st, err invalid_credentials)
      | some x ↦ elim (decrypt s.enc x.password_hash) [
        | none ↦ (st, err invalid_credentials)
        | some hash ↦
            if not (check_password s hash in'.password)
            then (st, err invalid_credentials)
            else log_in_user s f r now x.id in' st
      ]
    ]
