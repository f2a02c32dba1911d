-- ===== src/Auth/Backups.antt =====
-- A key backup that is stored is read back, and those of other users stay as they are.
use astralrelay_online.Common.{
  ℕ, ◌≡◌, ◌≢◌, inl, inr, refl, sym, ap, ◌∙◌, false, Option, none, some, List, [], ◌∷◌, arith,
  Option-cases, Result-cases, ok, Faults,
}
use astralrelay_online.Common.Text.{Text}
use astralrelay_online.Dbenc.{Cipher, encrypt, decrypt}
use astralrelay_online.Dbenc.Readable.{IsAead, Sized, decrypt-encrypt}
use astralrelay_online.Auth.Tables.{Store, upsert, value_of}
use astralrelay_online.Auth.Tokens.{Service}
use astralrelay_online.Auth.Accounts.{Drawn, seal_backup, store_key_backup, get_key_backup}

-- Nothing is encrypted, or by a sound AEAD under nonces of its size.
abbrev pub IsReadable : Cipher → (ℕ → Option Text) → Type 0
IsReadable none nonce = Unit
IsReadable (some a) nonce = IsAead a × Sized a nonce

reads :
    (c : Cipher) (nonce : ℕ → Option Text) (i : ℕ) (p e : Text)
    → IsReadable c nonce
    → encrypt c (nonce i) p ≡ some e
    → decrypt c e ≡ some p
unfolding encrypt decrypt
reads none nonce i p e sound h = sym h
reads (some a) nonce i p e (sound, sized) h = decrypt-encrypt a (nonce i) p e sound (sized i) h

upsert-value_of : (u : ℕ) (b : Text) (rs : List (ℕ × Text)) → value_of u (upsert u b rs) ≡ some b
unfolding upsert value_of
upsert-value_of u b [] = ground arith
upsert-value_of u b ((w, c) ∷ rs) = ground (arith, upsert-value_of u b rs)

upsert_other :
    (u w : ℕ) (b : Text) (rs : List (ℕ × Text)) → w ≢ u → value_of w (upsert u b rs) ≡ value_of w rs
unfolding upsert value_of
upsert_other u w b [] other = ground arith
upsert_other u w b ((v, c) ∷ rs) other = ground (arith, upsert_other u w b rs other)

sealed_parts :
    (s : Service) (f : Faults) (r : Drawn) (salt bundle : Text) (b : Text × Text)
    → seal_backup s f r salt bundle ≡ ok b
    → (encrypt s.enc (r.nonce 5) salt ≡ some b.0) × (encrypt s.enc (r.nonce 6) bundle ≡ some b.1)
unfolding seal_backup
sealed_parts s f r salt bundle b h = elim (Option-cases (encrypt s.enc (r.nonce 5) salt)) [
  | inl gone ↦ absurd (ground (arith, gone))
  | inr (x, first) ↦ elim (Option-cases (encrypt s.enc (r.nonce 6) bundle)) [
    | inl lost ↦ absurd (ground (arith, first, lost))
    | inr (y, second) ↦
        let same : (x, y) ≡ b = ground (arith, first, second) in
        (first ∙ ap (λ z. some z.0) same, second ∙ ap (λ z. some z.1) same)
  ]
]

-- A key backup that is stored is what a later reading gives, with or without encryption, and the backups
-- of other users read as before.
pub get_key_backup-store_key_backup :
    (s : Service) (f : Faults) (r : Drawn) (u w : ℕ) (salt bundle : Text) (st : Store)
    → IsReadable s.enc r.nonce
    → (store_key_backup s f r u salt bundle st).1 ≡ ok tt
    → w ≢ u
    → (get_key_backup s false u (store_key_backup s f r u salt bundle st).0 ≡ ok (salt, bundle))
      × (get_key_backup s false w (store_key_backup s f r u salt bundle st).0
          ≡ get_key_backup s false w st)
unfolding store_key_backup get_key_backup
get_key_backup-store_key_backup s f r u w salt bundle st sound done other =
    elim (Result-cases (seal_backup s f r salt bundle)) [
      | inr (e, bad) ↦ absurd (ground (arith, bad))
      | inl (b, sealed) ↦
          let parts = sealed_parts s f r salt bundle b sealed in
          let first = reads s.enc r.nonce 5 salt b.0 sound parts.0 in
          let second = reads s.enc r.nonce 6 bundle b.1 sound parts.1 in
          let next : Store = record st {
            salts = upsert u b.0 st.salts;
            backups = upsert u b.1 st.backups;
          } in
          let call : store_key_backup s f r u salt bundle st ≡ (next, ok tt) =
            rw (sealed, store_key_backup) refl in
          (
            rw call (
                rw (upsert-value_of u b.0 st.salts, upsert-value_of u b.1 st.backups, first, second)
                  refl),
            rw call (
                rw (upsert_other u w b.0 st.salts other, upsert_other u w b.1 st.backups other)
                  refl),
          )
    ]
