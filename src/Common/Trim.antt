-- ===== src/Common/Trim.antt =====
-- strings.TrimSpace and strings.ToLower: they commute, and each is done once for all.
use Prim.Native.Nat.{ℕ}
use mathlib.Core.Path.{◌≡◌, refl, ap, ◌∙◌}
use mathlib.Core.Bool.{false}
use mathlib.Core.List.{[], ◌∷◌}
use native.Mathlib.Omega.{arith}
use astralrelay_online.Common.Text.{
  Text, is_space, lower_byte, to_lower, trim_left, trim_right, trim_space, cons_trimmed,
}

-- The form in which domains are kept and compared: strings.ToLower(strings.TrimSpace(s)).
unfoldable pub norm : Text → Text
norm s = to_lower (trim_space s)

is_space-lower_byte : (c : ℕ) → is_space (lower_byte c) ≡ is_space c
unfolding is_space lower_byte
is_space-lower_byte c = ground arith

lower_byte_idem : (c : ℕ) → lower_byte (lower_byte c) ≡ lower_byte c
unfolding lower_byte
lower_byte_idem c = ground arith

trim_left-to_lower : (s : Text) → trim_left (to_lower s) ≡ to_lower (trim_left s)
unfolding trim_left to_lower
trim_left-to_lower [] = refl
trim_left-to_lower (c ∷ s) = ground (arith, is_space-lower_byte c, trim_left-to_lower s)

cons_trimmed-to_lower :
    (c : ℕ) (s : Text) → cons_trimmed (lower_byte c) (to_lower s) ≡ to_lower (cons_trimmed c s)
unfolding to_lower
cons_trimmed-to_lower c [] = ground (arith, is_space-lower_byte c)
cons_trimmed-to_lower c (d ∷ s) = refl

trim_right-to_lower : (s : Text) → trim_right (to_lower s) ≡ to_lower (trim_right s)
unfolding trim_right to_lower
trim_right-to_lower [] = refl
trim_right-to_lower (c ∷ s) =
    ap (cons_trimmed (lower_byte c)) (trim_right-to_lower s)
    ∙ cons_trimmed-to_lower c (trim_right s)

-- The two orders in which the source trims and lowers agree.
pub trim_space-to_lower : (s : Text) → trim_space (to_lower s) ≡ norm s
unfolding trim_space norm
trim_space-to_lower s = ap trim_right (trim_left-to_lower s) ∙ trim_right-to_lower (trim_left s)

pub to_lower_idem : (s : Text) → to_lower (to_lower s) ≡ to_lower s
unfolding to_lower
to_lower_idem [] = refl
to_lower_idem (c ∷ s) = cc (lower_byte_idem c, to_lower_idem s)

trim_left_idem : (s : Text) → trim_left (trim_left s) ≡ trim_left s
unfolding trim_left
trim_left_idem [] = refl
trim_left_idem (c ∷ s) = ground (arith, trim_left_idem s)

cons_trimmed_idem :
    (c : ℕ) (s : Text) → trim_right s ≡ s → trim_right (cons_trimmed c s) ≡ cons_trimmed c s
unfolding trim_right
cons_trimmed_idem c [] h = ground arith
cons_trimmed_idem c (d ∷ s) h = ap (cons_trimmed c) h

trim_right_idem : (s : Text) → trim_right (trim_right s) ≡ trim_right s
unfolding trim_right
trim_right_idem [] = refl
trim_right_idem (c ∷ s) = cons_trimmed_idem c (trim_right s) (trim_right_idem s)

trim_left-cons_trimmed :
    (c : ℕ) (s : Text) → is_space c ≡ false → trim_left (cons_trimmed c s) ≡ cons_trimmed c s
unfolding trim_left
trim_left-cons_trimmed c [] h = ground arith
trim_left-cons_trimmed c (d ∷ s) h = ground arith

trim_left-trim_right-trim_left :
    (s : Text) → trim_left (trim_right (trim_left s)) ≡ trim_right (trim_left s)
unfolding trim_left trim_right
trim_left-trim_right-trim_left [] = refl
trim_left-trim_right-trim_left (c ∷ s) =
    ground (arith, trim_left-cons_trimmed c (trim_right s), trim_left-trim_right-trim_left s)

trim_space_idem : (s : Text) → trim_space (trim_space s) ≡ trim_space s
unfolding trim_space
trim_space_idem s = ap trim_right (trim_left-trim_right-trim_left s) ∙ trim_right_idem (trim_left s)

pub norm_idem : (s : Text) → norm (norm s) ≡ norm s
unfolding norm
norm_idem s =
    ap to_lower (trim_space-to_lower (trim_space s))
    ∙ to_lower_idem (trim_space (trim_space s))
    ∙ ap to_lower (trim_space_idem s)
