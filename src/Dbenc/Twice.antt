-- ===== src/Dbenc/Twice.antt =====
-- After EncryptExisting has come to its end every column is encrypted, and a second run changes nothing.
use astralrelay_online.Common.{All}
use astralrelay_online.Common.Text.{Text}
use astralrelay_online.Auth.Tables.{Store}
use astralrelay_online.Dbenc.Sealing.{UserSealed, DeviceSealed, Sealed}

-- Every column is encrypted, but for password hashes that are empty.
pub record AreSealed (st : Store) : Type 0 where
  pub users : All (UserSealed) st.users
  pub devices : All (DeviceSealed) st.devices
  pub prekeys : All (Sealed (λ p. p.prekey)) st.prekeys
  pub tokens : All (Sealed (λ t. t.token_hash)) st.tokens
  pub salts : All (Sealed (λ s. s.1)) st.salts
