-- ===== src/Auth/DeviceNames.antt =====
-- sanitizeDeviceName: what is kept of a name.
use astralrelay_online.Common.{
  ℕ, ◌+◌, ◌≤◌, inl, inr, ◌||◌, [], ◌∷◌, ◌==◌, ltb, leb, arith, Bool-cases, All,
}
use astralrelay_online.Common.Text.{Text, trim_space}
use astralrelay_online.Auth.Devices.{rune_len, sanitize_runes, sanitize_device_name}

-- The bytes of a name in UTF-8.
unfoldable pub byte_len : Text → ℕ
byte_len [] = 0
byte_len (r ∷ rs) = rune_len r + byte_len rs

sanitize_runes-byte_len : (w : ℕ) (rs : Text) → w ≤ 67 → w + byte_len (sanitize_runes w rs) ≤ 67
unfolding sanitize_runes byte_len
sanitize_runes-byte_len w [] h = ground arith
sanitize_runes-byte_len w (r ∷ rs) h =
    let skipped = sanitize_runes-byte_len w rs h in
    elim (Bool-cases ((r == 9) || (r == 10) || (r == 13) || ltb r 32)) [
      | inl control ↦ rw control skipped
      | inr fine ↦ elim (Bool-cases (leb 64 w)) [
        | inl full ↦ rw (fine, full) (ground arith)
        | inr room ↦
            let short : w + rune_len r ≤ 67 = ground arith in
            let kept = sanitize_runes-byte_len (w + rune_len r) rs short in
            rw (fine, room) (ground (arith, kept))
      ]
    ]

sanitize_runes-All : (w : ℕ) (rs : Text) → All (λ r. 32 ≤ r) (sanitize_runes w rs)
unfolding sanitize_runes
sanitize_runes-All w [] = tt
sanitize_runes-All w (r ∷ rs) =
    let skipped = sanitize_runes-All w rs in
    let kept = sanitize_runes-All (w + rune_len r) rs in
    elim (Bool-cases ((r == 9) || (r == 10) || (r == 13) || ltb r 32)) [
      | inl control ↦ rw control skipped
      | inr fine ↦ elim (Bool-cases (leb 64 w)) [
        | inl full ↦ rw (fine, full) tt
        | inr room ↦ let printable : 32 ≤ r = ground arith in rw (fine, room) (printable, kept)
      ]
    ]

-- A device's name is kept in at most 67 bytes of UTF-8, and has no control character.
pub sanitize_device_name_bounds :
    (name : Text)
    → (byte_len (sanitize_device_name name) ≤ 67) × All (λ r. 32 ≤ r) (sanitize_device_name name)
unfolding sanitize_device_name
sanitize_device_name_bounds name =
    let bound = sanitize_runes-byte_len 0 (trim_space name) (ground arith) in
    (ground (arith, bound), sanitize_runes-All 0 (trim_space name))
