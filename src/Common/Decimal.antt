-- ===== src/Common/Decimal.antt =====
-- strconv.Itoa and FormatInt of a number that is not negative, and ParseInt to 64 bits.
use astralrelay_online.Common.Tests.{ltb, leb, ◌==◌, if◌then◌else◌}
use astralrelay_online.Common.Text.{Text}
use astralrelay_online.Common.Lists.{All}
use astralrelay_online.Common.Cuts.{Free}
use astralrelay_online.Common.Int64.{neg64}
use Prim.Native.Nat.{ℕ, zero, suc, ◌+◌, ◌-◌, ◌*◌, ◌/◌, ◌%◌, ◌^◌, ◌≤◌, ◌<◌}
use mathlib.Core.Path.{◌≡◌, refl}
use mathlib.Core.Logic.{◌≢◌}
use mathlib.Core.Bool.{Bool, true, false, ◌&&◌}
use mathlib.Core.Option.{Option, none, some}
use mathlib.Core.List.{[], ◌∷◌, ◌++◌}
use native.Mathlib.Omega.{arith}

abbrev pub is_digit : ℕ → Bool
is_digit c = leb 48 c && leb c 57

-- The fuel n + 1 is enough: a quotient by 10 is smaller.
unfoldable pub digits : ℕ → ℕ → Text
digits zero n = []
digits (suc f) n =
    let rest = digits f (n / 10) in if ltb n 10 then (48 + n) ∷ [] else rest ++ (48 + n % 10) ∷ []

unfoldable pub itoa : ℕ → Text
unfolding digits
itoa n = digits (suc n) n

unfoldable pub parse_digits : ℕ → Text → Option ℕ
parse_digits acc [] = some acc
parse_digits acc (c ∷ s) =
    let rest = parse_digits (acc * 10 + (c - 48)) s in if is_digit c then rest else none

-- A sign, then at least one digit, then the range of an int64; `none` is an error.
abbrev signed_of : Bool → Option ℕ → Option ℕ
signed_of negative none = none
signed_of true (some n) = if leb n (2 ^ 63) then some (neg64 n) else none
signed_of false (some n) = if ltb n (2 ^ 63) then some n else none

abbrev digits_of : Text → Option ℕ
digits_of [] = none
digits_of (c ∷ s) = parse_digits 0 (c ∷ s)

unfoldable pub parse_int : Text → Option ℕ
parse_int [] = none
parse_int (c ∷ s) =
    if c == b'-'
    then signed_of true (digits_of s)
    else if c == b'+'
    then signed_of false (digits_of s)
    else signed_of false (parse_digits 0 (c ∷ s))

abbrev then_digit : ℕ → Option ℕ → Option ℕ
then_digit d none = none
then_digit d (some v) = some (v * 10 + d)

parse_digits-append :
    (acc d : ℕ) (s : Text)
    → d < 10
    → parse_digits acc (s ++ (48 + d) ∷ []) ≡ then_digit d (parse_digits acc s)
unfolding parse_digits
parse_digits-append acc d [] h = ground arith
parse_digits-append acc d (c ∷ s) h =
    ground (arith, parse_digits-append (acc * 10 + (c - 48)) d s h)

parse_digits-digits : (f n : ℕ) → n < f → parse_digits 0 (digits f n) ≡ some n
unfolding digits parse_digits
parse_digits-digits zero n h = elim h [ ]
parse_digits-digits (suc f) n h =
    ground
      (arith, parse_digits-append 0 (n % 10) (digits f (n / 10)), parse_digits-digits f (n / 10))

-- The digits of a number are read back.
pub parse_digits-itoa : (n : ℕ) → parse_digits 0 (itoa n) ≡ some n
unfolding itoa
parse_digits-itoa n = parse_digits-digits (suc n) n (omega arith)

pub itoa-injective : (m n : ℕ) → itoa m ≡ itoa n → m ≡ n
itoa-injective m n h = cc (parse_digits-itoa m, parse_digits-itoa n)

abbrev AreDigits : Text → Type 0
AreDigits = All (λ c. (48 ≤ c) × (c ≤ 57))

AreDigits-append : (s : Text) (c : ℕ) → AreDigits s → (48 ≤ c) × (c ≤ 57) → AreDigits (s ++ c ∷ [])
AreDigits-append [] c h k = (k, tt)
AreDigits-append (x ∷ s) c h k = (h.0, AreDigits-append s c h.1 k)

AreDigits-digits : (f n : ℕ) → AreDigits (digits f n)
unfolding digits
AreDigits-digits zero n = tt
AreDigits-digits (suc f) n =
    ground (arith, AreDigits-append (digits f (n / 10)) (48 + n % 10) (AreDigits-digits f (n / 10)))

pub AreDigits-itoa : (n : ℕ) → AreDigits (itoa n)
unfolding itoa
AreDigits-itoa n = AreDigits-digits (suc n) n

parse_int_digits :
    (t : Text) → AreDigits t → t ≢ [] → parse_int t ≡ signed_of false (parse_digits 0 t)
unfolding parse_int
parse_int_digits [] h k = absurd (k refl)
parse_int_digits (c ∷ s) h k = ground arith

digits-ne-nil : (f n : ℕ) → digits (suc f) n ≢ []
unfolding digits
digits-ne-nil f n =
    elim (digits f (n / 10))
      as (λ r. (if ltb n 10 then (48 + n) ∷ [] else r ++ (48 + n % 10) ∷ []) ≢ []) [
        | [] ↦ λ e. ground arith
        | x ∷ r ↦ λ e. ground arith
      ]

pub itoa-ne-nil : (n : ℕ) → itoa n ≢ []
unfolding itoa
itoa-ne-nil n = digits-ne-nil n n

-- A number below 2^63 is printed and parsed back.
pub parse_int-itoa : (n : ℕ) → n < 2 ^ 63 → parse_int (itoa n) ≡ some n
parse_int-itoa n h =
    ground
      (arith, parse_int_digits (itoa n) (AreDigits-itoa n) (itoa-ne-nil n), parse_digits-itoa n)

Free-of_digits : (b : ℕ) (t : Text) → AreDigits t → b < 48 → Free b t
Free-of_digits b [] h k = tt
Free-of_digits b (c ∷ t) h k = (omega arith, Free-of_digits b t h.1 k)

pub itoa-Free : (b n : ℕ) → b < 48 → Free b (itoa n)
itoa-Free b n k = Free-of_digits b (itoa n) (AreDigits-itoa n) k
