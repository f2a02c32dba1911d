-- ===== src/Dbenc/Examples.antt =====
-- Tests of the model of server/internal/dbenc, and its theorems at concrete inputs.
use astralrelay_online.Common.{
  ℕ, ◌≡◌, refl, Option, none, some, [], ◌∷◌, ◌++◌, arith, no_faults, err, length,
}
use astralrelay_online.Common.Text.{Text, lit, text_eq}
use astralrelay_online.Auth.Tables.{User, Device, Store}
use astralrelay_online.Dbenc.{Aead, new_cipher, invalid_key, is_encrypted, encrypt, decrypt}
use astralrelay_online.Dbenc.Migrate.{Draws, MigrateDraws, encrypt_existing}
use astralrelay_online.Dbenc.Readable.{IsAead, Sized}
use astralrelay_online.Dbenc.Existing.{AreSized, view, encrypt_existing-view}

abbrev unsealed : Text → Option Text
unsealed [] = none
unsealed (c ∷ []) = some []
unsealed (c ∷ d ∷ s) = elim (unsealed (d ∷ s)) [ none ↦ none | some r ↦ some (c ∷ r) ]

-- An AEAD that hides nothing, with nonces of two bytes.
abbrev plain_aead : Aead
plain_aead = record { nonce_size = 2; seal = λ n p. p ++ (7 ∷ []); open_sealed = λ n c. unsealed c }

unsealed_append : (p : Text) → unsealed (p ++ (7 ∷ [])) ≡ some p
unsealed_append [] = refl
unsealed_append (c ∷ []) = refl
unsealed_append (c ∷ d ∷ p) = rw (unsealed_append (d ∷ p)) refl

plain_aead-IsAead : IsAead plain_aead
plain_aead-IsAead = record { open-seal = λ n p sized. unsealed_append p }

abbrev nonces : ℕ → Option Text
nonces i = some (1 ∷ 2 ∷ [])

sized : (n : Text) → 1 ∷ 2 ∷ [] ≡ n → length n ≡ 2
sized n e = rw (← e) refl

nonces-Sized : Sized plain_aead nonces
nonces-Sized i n h = let same : 1 ∷ 2 ∷ [] ≡ n = ground arith in rw (sized n same) refl

abbrev draws : Draws
draws = record { nonce = nonces; update_fails = no_faults }

abbrev migration : MigrateDraws
migration = record {
  query_fails = no_faults;
  users = draws;
  devices = draws;
  prekeys = draws;
  tokens = draws;
  salts = draws;
}

migration-AreSized : AreSized plain_aead migration
migration-AreSized = record {
  users = nonces-Sized;
  devices = nonces-Sized;
  prekeys = nonces-Sized;
  tokens = nonces-Sized;
  salts = nonces-Sized;
}

abbrev user : User
user = record { id = 1; username = lit "ann"; domain = lit "a.org"; password_hash = lit "h" }

abbrev device : Device
device = record {
  id = 9;
  user_id = 1;
  identity_key = lit "ik";
  signed_prekey = lit "spk";
  signed_prekey_sig = lit "DBE1??sig!";
  signed_prekey_id = 1;
  name = none;
  created_at = 5;
}

abbrev store : Store
store = record {
  users = user ∷ [];
  devices = device ∷ [];
  prekeys = record { device = 9; key_id = 1; prekey = lit "k"; consumed_at = none } ∷ [];
  tokens = [];
  salts = (1, lit "salt") ∷ [];
  backups = [];
  sessions = [];
}

key_test :
    new_cipher (record { unbase64 = λ t. some t; new_gcm = λ k. some plain_aead }) (lit "short")
    ≡ err invalid_key
unfolding new_cipher
key_test = refl

-- A text that is not marked is read as it is, and a marked one that is too short is an error.
legacy_test : decrypt (some plain_aead) (lit "hash") ≡ some (lit "hash")
unfolding decrypt is_encrypted text_eq
legacy_test = refl

short_test : decrypt (some plain_aead) (lit "DBE1x") ≡ none
unfolding decrypt is_encrypted text_eq
short_test = refl

sealed_p :
    encrypt (some plain_aead) (some (1 ∷ 2 ∷ [])) (lit "p")
    ≡ some (lit "DBE1" ++ (1 ∷ 2 ∷ (lit "p" ++ (7 ∷ []))))
unfolding encrypt
sealed_p = refl

encrypt_existing-view_example :
    view (some plain_aead) (encrypt_existing (some plain_aead) migration store).0
    ≡ view (some plain_aead) store
encrypt_existing-view_example =
    encrypt_existing-view plain_aead plain_aead-IsAead migration migration-AreSized store
