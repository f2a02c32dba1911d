-- ===== src/Dbenc/Migrate.antt =====
-- server/internal/dbenc/migrate.go: EncryptExisting.
use astralrelay_online.Common.{
  ℕ, suc, ◌+◌, ◌*◌, Bool, true, false, ◌&&◌, ◌||◌, Option, none, some, List, [], ◌∷◌, if◌then◌else◌,
  Faults,
}
use astralrelay_online.Common.Text.{Text, is_empty}
use astralrelay_online.Keydir.{Prekey}
use astralrelay_online.Auth.Tables.{User, Device, AccessToken, Store}
use astralrelay_online.Dbenc.{Cipher, is_encrypted, encrypt}

-- The nonces that are drawn for the rows of one table, and the updates that fail.
pub record Draws : Type 0 where
  pub nonce : ℕ → Option Text
  pub update_fails : Faults

-- `if !IsEncrypted(x) { x, err = c.Encrypt(x) }`
unfoldable pub seal_column : Cipher → Option Text → Text → Option Text
seal_column c nonce x = if is_encrypted x then some x else encrypt c nonce x

-- The body of the loop for a table with one such column: `none` leaves the loop.
abbrev pub seal_row {ℓ} :
    {A : Type ℓ} → Cipher → (A → Text) → (Text → A → A) → Draws → ℕ → A → Option A
seal_row c get set r i a =
    if is_encrypted (get a) then some a else elim (encrypt c (r.nonce i) (get a)) [
      | none ↦ none
      | some e ↦ if r.update_fails i then none else some (set e a)
    ]

unfoldable pub seal_user : Cipher → Draws → ℕ → User → Option User
seal_user c r i u =
    if is_empty u.password_hash
    then some u
    else seal_row c (λ x. x.password_hash) (λ e x. record x { password_hash = e }) r i u

unfoldable pub seal_prekey : Cipher → Draws → ℕ → Prekey → Option Prekey
seal_prekey c = seal_row c (λ x. x.prekey) (λ e x. record x { prekey = e })

unfoldable pub seal_token : Cipher → Draws → ℕ → AccessToken → Option AccessToken
seal_token c = seal_row c (λ x. x.token_hash) (λ e x. record x { token_hash = e })

unfoldable pub seal_salt : Cipher → Draws → ℕ → ℕ × Text → Option (ℕ × Text)
seal_salt c = seal_row c (λ x. x.1) (λ e x. (x.0, e))

abbrev pub set_keys : Device → Bool → Option Text → Option Text → Option Text → Option Device
set_keys v fails (some ik) (some spk) (some sig) =
    if fails
    then none
    else some (record v { identity_key = ik; signed_prekey = spk; signed_prekey_sig = sig })
set_keys v fails _ _ _ = none

-- The body of the loop for the devices, whose three columns are updated in one statement.
unfoldable pub seal_device : Cipher → Draws → ℕ → Device → Option Device
seal_device c r i v =
    if is_encrypted v.identity_key
      && is_encrypted v.signed_prekey
      && is_encrypted v.signed_prekey_sig
    then some v
    else set_keys v (r.update_fails i) (seal_column c (r.nonce (3 * i)) v.identity_key)
        (seal_column c (r.nonce (3 * i + 1)) v.signed_prekey)
        (seal_column c (r.nonce (3 * i + 2)) v.signed_prekey_sig)

-- A loop over the rows: the rows as they are after it, and whether it came to its end.
unfoldable pub seal_rows {ℓ} : {A : Type ℓ} → (ℕ → A → Option A) → ℕ → List A → List A × Bool
seal_rows one i [] = ([], true)
seal_rows one i (a ∷ as') =
    let rest = seal_rows one (suc i) as' in
    elim (one i a) [ none ↦ (a ∷ as', false) | some b ↦ (b ∷ rest.0, rest.1) ]

-- A table whose query fails is left as it is.
unfoldable pub seal_table {ℓ} : {A : Type ℓ} → Bool → (ℕ → A → Option A) → List A → List A × Bool
seal_table fails one rows = if fails then (rows, false) else seal_rows one 0 rows

-- The draws for the tables, in the order of the code, and the queries that fail.
pub record MigrateDraws : Type 0 where
  pub query_fails : Faults
  pub users : Draws
  pub devices : Draws
  pub prekeys : Draws
  pub tokens : Draws
  pub salts : Draws

unfoldable pub migrate_salts : Cipher → MigrateDraws → Store → Store × Bool
migrate_salts c r st =
    let salts' = seal_table (r.query_fails 4) (seal_salt c r.salts) st.salts in
    (record st { salts = salts'.0 }, r.query_fails 4 || salts'.1)

unfoldable pub migrate_tokens : Cipher → MigrateDraws → Store → Store × Bool
migrate_tokens c r st =
    let tokens' = seal_table (r.query_fails 3) (seal_token c r.tokens) st.tokens in
    let next = record st { tokens = tokens'.0 } in
    if tokens'.1 then migrate_salts c r next else (next, false)

unfoldable pub migrate_prekeys : Cipher → MigrateDraws → Store → Store × Bool
migrate_prekeys c r st =
    let prekeys' = seal_table (r.query_fails 2) (seal_prekey c r.prekeys) st.prekeys in
    let next = record st { prekeys = prekeys'.0 } in
    if prekeys'.1 then migrate_tokens c r next else (next, false)

unfoldable pub migrate_devices : Cipher → MigrateDraws → Store → Store × Bool
migrate_devices c r st =
    let devices' = seal_table (r.query_fails 1) (seal_device c r.devices) st.devices in
    let next = record st { devices = devices'.0 } in
    if devices'.1 then migrate_prekeys c r next else (next, false)

-- EncryptExisting; the Boolean is false where it returns an error.
unfoldable pub encrypt_existing : Cipher → MigrateDraws → Store → Store × Bool
encrypt_existing none r st = (st, true)
encrypt_existing (some a) r st =
    let users' = seal_table (r.query_fails 0) (seal_user (some a) r.users) st.users in
    let next : Store = record st { users = users'.0 } in
    if users'.1 then migrate_devices (some a) r next else (next, false)
