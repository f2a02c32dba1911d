-- ===== src/Dbenc/Readable.antt =====
-- What Decrypt reads in a column, before and after EncryptExisting.
use astralrelay_online.Common.{
  ℕ, ◌≡◌, inl, inr, refl, sym, ap, ◌∙◌, subst, true, false, Option, none, some, [], ◌++◌, arith,
  Bool-cases, Option-cases, ltb, length, length-append,
}
use astralrelay_online.Common.Cuts.{take-append, drop-append}
use astralrelay_online.Common.Text.{Text, text_eq}
use astralrelay_online.Dbenc.{Aead, Cipher, magic_prefix, is_encrypted, encrypt, decrypt}
use astralrelay_online.Dbenc.Migrate.{Draws, seal_column, seal_row}

-- What crypto/cipher promises of an AEAD: what is sealed under a nonce of its size opens again.
pub record IsAead (a : Aead) : Type 0 where
  pub open-seal : (n p : Text) → length n ≡ a.nonce_size → a.open_sealed n (a.seal n p) ≡ some p

-- A nonce that is drawn has the size that was asked for.
abbrev pub Sized : Aead → (ℕ → Option Text) → Type 0
Sized a nonce = (i : ℕ) (n : Text) → nonce i ≡ some n → length n ≡ a.nonce_size

marked-is_encrypted : (t : Text) → is_encrypted (magic_prefix ++ t) ≡ true
unfolding is_encrypted text_eq
marked-is_encrypted t = ground arith

encrypt-is_encrypted :
    (a : Aead) (nonce : Option Text) (p e : Text)
    → encrypt (some a) nonce p ≡ some e
    → is_encrypted e ≡ true
unfolding encrypt
encrypt-is_encrypted a none p e h = absurd (ground arith)
encrypt-is_encrypted a (some n) p e h =
    let same : magic_prefix ++ (n ++ a.seal n p) ≡ e = ground arith in
    subst (λ x. is_encrypted x ≡ true) same (marked-is_encrypted (n ++ a.seal n p))

decrypt_sealed :
    (a : Aead) (n p : Text)
    → IsAead a
    → length n ≡ a.nonce_size
    → decrypt (some a) (magic_prefix ++ (n ++ a.seal n p)) ≡ some p
unfolding decrypt
decrypt_sealed a n p sound sized =
    let t = n ++ a.seal n p in
    let long : ltb (length t) a.nonce_size ≡ false = ground (arith, length-append n (a.seal n p)) in
    rw
      (
        marked-is_encrypted t,
        long,
        sym sized,
        take-append n (a.seal n p),
        drop-append n (a.seal n p),
      )
      (sound.open-seal n p sized)

-- Decrypt reads the text that Encrypt was given.
pub decrypt-encrypt :
    (a : Aead) (nonce : Option Text) (p e : Text)
    → IsAead a
    → ((n : Text) → nonce ≡ some n → length n ≡ a.nonce_size)
    → encrypt (some a) nonce p ≡ some e
    → decrypt (some a) e ≡ some p
unfolding encrypt
decrypt-encrypt a none p e sound sized h = absurd (ground arith)
decrypt-encrypt a (some n) p e sound sized h =
    let same : magic_prefix ++ (n ++ a.seal n p) ≡ e = ground arith in
    subst (λ x. decrypt (some a) x ≡ some p) same (decrypt_sealed a n p sound (sized n refl))

plain_reads : (a : Aead) (x : Text) → is_encrypted x ≡ false → decrypt (some a) x ≡ some x
unfolding decrypt
plain_reads a x plain = rw plain refl

-- A column reads the same after it was sealed, and is marked then.
pub seal_column-decrypt :
    (a : Aead) (nonce : Option Text) (x e : Text)
    → IsAead a
    → ((n : Text) → nonce ≡ some n → length n ≡ a.nonce_size)
    → seal_column (some a) nonce x ≡ some e
    → (decrypt (some a) e ≡ decrypt (some a) x) × (is_encrypted e ≡ true)
unfolding seal_column
seal_column-decrypt a nonce x e sound sized h = elim (Bool-cases (is_encrypted x)) [
  | inl marked ↦
      let same : x ≡ e = ground (arith, marked) in
      (ap (decrypt (some a)) (sym same), ap is_encrypted (sym same) ∙ marked)
  | inr plain ↦
      let done : encrypt (some a) nonce x ≡ some e = ground (arith, plain) in
      (
        decrypt-encrypt a nonce x e sound sized done ∙ sym (plain_reads a x plain),
        encrypt-is_encrypted a nonce x e done,
      )
]

-- One column, read and written by `get` and `set`.
module _ {A : Type 0} (get : A → Text) (set : Text → A → A)
    (get-set : (e : Text) (x : A) → get (set e x) ≡ e)
    (set_twice : (d e : Text) (x : A) → set d (set e x) ≡ set d x) where
  -- The row without the column, and what Decrypt reads in the column.
  abbrev pub view_row : Cipher → A → A × Option Text
  view_row c x = (set [] x, decrypt c (get x))

  seal_row-done :
      (a : Aead) (r : Draws) (i : ℕ) (x y : A)
      → is_encrypted (get x) ≡ false
      → seal_row (some a) get set r i x ≡ some y
      → (e : Text) × (encrypt (some a) (r.nonce i) (get x) ≡ some e) × (set e x ≡ y)
  seal_row-done a r i x y plain h = elim (Option-cases (encrypt (some a) (r.nonce i) (get x))) [
    | inl gone ↦ absurd (ground (arith, plain, gone))
    | inr (e, found) ↦ (e, found, ground (arith, plain, found))
  ]

  pub seal_row-view_row :
      (a : Aead) (r : Draws) (i : ℕ) (x y : A)
      → IsAead a
      → Sized a r.nonce
      → seal_row (some a) get set r i x ≡ some y
      → (view_row (some a) y ≡ view_row (some a) x) × (is_encrypted (get y) ≡ true)
  seal_row-view_row a r i x y sound sized h = elim (Bool-cases (is_encrypted (get x))) [
    | inl marked ↦
        let same : x ≡ y = ground (arith, marked) in
        (ap (view_row (some a)) (sym same), ap (λ z. is_encrypted (get z)) (sym same) ∙ marked)
    | inr plain ↦
        let (e, done, same) = seal_row-done a r i x y plain h in
        let reads = decrypt-encrypt a (r.nonce i) (get x) e sound (sized i) done in
        let before = plain_reads a (get x) plain in
        subst (λ z. (view_row (some a) z ≡ view_row (some a) x) × (is_encrypted (get z) ≡ true))
          same
          (
            rw (set_twice [] e x, get-set e x, reads, before) refl,
            ap is_encrypted (get-set e x) ∙ encrypt-is_encrypted a (r.nonce i) (get x) e done,
          )
  ]
