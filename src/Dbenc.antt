-- ===== src/Dbenc.antt =====
-- server/internal/dbenc/dbenc.go: columns of the database encrypted with AES-256-GCM.
pub mod Migrate
pub mod Rows
pub mod Readable
pub mod Sealing
pub mod Existing
pub mod Twice
mod Examples
use astralrelay_online.Common.{
  ℕ, Bool, true, false, not, ◌&&◌, Option, none, some, ◌∷◌, ◌++◌, if◌then◌else◌, ◌==◌, ltb, leb,
  length, take, drop, Result, ok, err,
}
use astralrelay_online.Common.Text.{Text, lit, text_eq, is_empty}

-- cipher.AEAD of crypto/cipher, with one key.
pub record Aead : Type 0 where
  pub nonce_size : ℕ
  pub seal : Text → Text → Text
  pub open_sealed : Text → Text → Option Text

-- base64.StdEncoding.DecodeString, and aes.NewCipher followed by cipher.NewGCM.
pub record Primitives : Type 0 where
  pub unbase64 : Text → Option Text
  pub new_gcm : Text → Option Aead

pub data CipherError : Type 0 where
  invalid_key no_cipher : CipherError

-- A *Cipher, which is nil where nothing is encrypted.
abbrev pub Cipher : Type 0
Cipher = Option Aead

unfoldable pub new_cipher : Primitives → Text → Result CipherError Cipher
new_cipher pr key_b64 = if is_empty key_b64 then ok none else elim (pr.unbase64 key_b64) [
  | none ↦ err invalid_key
  | some key ↦
      if not (length key == 32)
      then err invalid_key
      else elim (pr.new_gcm key) [ none ↦ err no_cipher | some aead ↦ ok (some aead) ]
]

abbrev pub magic_prefix : Text
magic_prefix = lit "DBE1"

unfoldable pub is_encrypted : Text → Bool
is_encrypted data' =
    leb (length magic_prefix) (length data')
    && text_eq magic_prefix (take (length magic_prefix) data')

-- Encrypt with the nonce that rand.Reader gives, which is none where it fails.
unfoldable pub encrypt : Cipher → Option Text → Text → Option Text
encrypt none n plain = some plain
encrypt (some a) none plain = none
encrypt (some a) (some n) plain = some (magic_prefix ++ (n ++ a.seal n plain))

-- Decrypt; `none` is ErrDecrypt.
unfoldable pub decrypt : Cipher → Text → Option Text
decrypt none data' = some data'
decrypt (some a) data' =
    if not (is_encrypted data')
    then some data'
    else let rest = drop (length magic_prefix) data' in
      if ltb (length rest) a.nonce_size
      then none
      else a.open_sealed (take a.nonce_size rest) (drop a.nonce_size rest)
