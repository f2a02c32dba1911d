-- ===== src/Dbenc/Sealing.antt =====
-- One row of each table that EncryptExisting goes over: it reads as before, and is encrypted then.
use astralrelay_online.Common.{
  ℕ, ◌+◌, ◌*◌, ◌≡◌, inl, inr, refl, sym, ap, ◌∙◌, ◌⊎◌, subst, Bool, true, false, ◌&&◌, Option, none,
  some, [], arith, Bool-cases,
}
use astralrelay_online.Common.Text.{Text, is_empty}
use astralrelay_online.Keydir.{Prekey}
use astralrelay_online.Auth.Tables.{User, Device, AccessToken}
use astralrelay_online.Dbenc.{Aead, Cipher, is_encrypted, decrypt}
use astralrelay_online.Dbenc.Migrate.{
  Draws, set_keys, seal_row, seal_column, seal_user, seal_device, seal_prekey, seal_token,
  seal_salt,
}
use astralrelay_online.Dbenc.Readable.{IsAead, Sized, seal_row-view_row, seal_column-decrypt}

abbrev pub user_view : Cipher → User → User × Option Text
user_view c u = (record u { password_hash = [] }, decrypt c u.password_hash)

abbrev pub keyless : Device → Device
keyless v = record v { identity_key = []; signed_prekey = []; signed_prekey_sig = [] }

abbrev pub device_view : Cipher → Device → Device × Option Text × Option Text × Option Text
device_view c v =
    (keyless v, decrypt c v.identity_key, decrypt c v.signed_prekey, decrypt c v.signed_prekey_sig)

abbrev pub prekey_view : Cipher → Prekey → Prekey × Option Text
prekey_view c p = (record p { prekey = [] }, decrypt c p.prekey)

abbrev pub token_view : Cipher → AccessToken → AccessToken × Option Text
token_view c t = (record t { token_hash = [] }, decrypt c t.token_hash)

abbrev pub salt_view : Cipher → ℕ × Text → (ℕ × Text) × Option Text
salt_view c s = ((s.0, []), decrypt c s.1)

abbrev pub UserSealed : User → Type 0
UserSealed u = (is_empty u.password_hash ≡ true) ⊎ (is_encrypted u.password_hash ≡ true)

abbrev pub DeviceSealed : Device → Type 0
DeviceSealed v =
    (is_encrypted v.identity_key ≡ true)
    × (is_encrypted v.signed_prekey ≡ true)
    × (is_encrypted v.signed_prekey_sig ≡ true)

abbrev pub Sealed {ℓ} : {A : Type ℓ} → (A → Text) → A → Type 0
Sealed get x = is_encrypted (get x) ≡ true

module _ (a : Aead) (sound : IsAead a) (r : Draws) (sized : Sized a r.nonce) where
  pub seal_user-view :
      (i : ℕ) (x y : User)
      → seal_user (some a) r i x ≡ some y
      → (user_view (some a) y ≡ user_view (some a) x) × UserSealed y
  unfolding seal_user
  seal_user-view i x y h = elim (Bool-cases (is_empty x.password_hash)) [
    | inl bare ↦
        let same : x ≡ y = ground (arith, bare) in
        (
          ap (user_view (some a)) (sym same),
          inl (ap (λ u. is_empty u.password_hash) (sym same) ∙ bare),
        )
    | inr there ↦
        let one : seal_row (some a) (λ u. u.password_hash) (λ e u. record u { password_hash = e }) r
              i x
            ≡ some y =
          ground (arith, there) in
        let (same, marked) =
          seal_row-view_row (λ u. u.password_hash) (λ e u. record u { password_hash = e })
            (λ e u. refl) (λ d e u. refl) a r i x y sound sized one in
        (same, inr marked)
  ]

  pub seal_prekey-view :
      (i : ℕ) (x y : Prekey)
      → seal_prekey (some a) r i x ≡ some y
      → (prekey_view (some a) y ≡ prekey_view (some a) x) × Sealed (λ p. p.prekey) y
  unfolding seal_prekey
  seal_prekey-view i x y h =
      seal_row-view_row (λ u. u.prekey) (λ e u. record u { prekey = e }) (λ e u. refl)
        (λ d e u. refl) a r i x y sound sized h

  pub seal_token-view :
      (i : ℕ) (x y : AccessToken)
      → seal_token (some a) r i x ≡ some y
      → (token_view (some a) y ≡ token_view (some a) x) × Sealed (λ t. t.token_hash) y
  unfolding seal_token
  seal_token-view i x y h =
      seal_row-view_row (λ u. u.token_hash) (λ e u. record u { token_hash = e }) (λ e u. refl)
        (λ d e u. refl) a r i x y sound sized h

  pub seal_salt-view :
      (i : ℕ) (x y : ℕ × Text)
      → seal_salt (some a) r i x ≡ some y
      → (salt_view (some a) y ≡ salt_view (some a) x) × Sealed (λ s. s.1) y
  unfolding seal_salt
  seal_salt-view i x y h =
      seal_row-view_row (λ u. u.1) (λ e u. (u.0, e)) (λ e u. refl) (λ d e u. refl) a r i x y sound
        sized h

  set_keys-done :
      (v y : Device) (fails : Bool) (ik spk sig : Option Text)
      → set_keys v fails ik spk sig ≡ some y
      → (ik ≡ some y.identity_key)
        × (spk ≡ some y.signed_prekey)
        × (sig ≡ some y.signed_prekey_sig)
        × (keyless v ≡ keyless y)
  set_keys-done v y true (some j) (some k) (some l) h = absurd (ground arith)
  set_keys-done v y false (some j) (some k) (some l) h =
      let next : Device = record v { identity_key = j; signed_prekey = k; signed_prekey_sig = l } in
      let same : next ≡ y = ground arith in
      (
        ap (λ z. some z.identity_key) same,
        ap (λ z. some z.signed_prekey) same,
        ap (λ z. some z.signed_prekey_sig) same,
        ap keyless same,
      )
  set_keys-done v y fails none spk sig h = absurd (ground arith)
  set_keys-done v y fails (some j) none sig h = absurd (ground arith)
  set_keys-done v y fails (some j) (some k) none h = absurd (ground arith)

  pub seal_device-view :
      (i : ℕ) (x y : Device)
      → seal_device (some a) r i x ≡ some y
      → (device_view (some a) y ≡ device_view (some a) x) × DeviceSealed y
  unfolding seal_device
  seal_device-view i x y h =
      let marked =
        is_encrypted x.identity_key
        && is_encrypted x.signed_prekey
        && is_encrypted x.signed_prekey_sig in
      elim (Bool-cases marked) [
        | inl whole ↦
            let same : x ≡ y = ground (arith, whole) in
            let sealed : DeviceSealed x = ground (arith, whole) in
            (ap (device_view (some a)) (sym same), subst DeviceSealed same sealed)
        | inr part ↦
            let call : set_keys x (r.update_fails i)
                  (seal_column (some a) (r.nonce (3 * i)) x.identity_key)
                  (seal_column (some a) (r.nonce (3 * i + 1)) x.signed_prekey)
                  (seal_column (some a) (r.nonce (3 * i + 2)) x.signed_prekey_sig)
                ≡ some y =
              ground (arith, part) in
            let (ik, spk, sig, rest) = set_keys-done x y (r.update_fails i) _ _ _ call in
            let (d1, m1) = seal_column-decrypt a _ _ _ sound (sized (3 * i)) ik in
            let (d2, m2) = seal_column-decrypt a _ _ _ sound (sized (3 * i + 1)) spk in
            let (d3, m3) = seal_column-decrypt a _ _ _ sound (sized (3 * i + 2)) sig in
            (rw (sym rest, d1, d2, d3) refl, (m1, m2, m3))
      ]
