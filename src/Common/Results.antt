-- ===== src/Common/Results.antt =====
-- Chains of calls that return a value or an error, as `do` blocks.
use mathlib.Core.Path.{◌≡◌, refl, subst}
use mathlib.Core.Bool.{Bool, true, false}
use mathlib.Core.Option.{Option, none, some}
use native.Mathlib.Omega.{arith}
use astralrelay_online.Common.Tests.{Result, ok, err}

infixl 5 ◌>>=◌ ◌>>◌
-- The error that is there ends the chain.
abbrev pub ◌>>=◌ : {E A B : Type 0} → Result E A → (A → Result E B) → Result E B
err stop >>= next = err stop
ok value >>= next = next value

-- A call with an error only, and what follows it.
abbrev pub ◌>>◌ : {E B : Type 0} → Result E (Unit {0}) → Result E B → Result E B
call >> rest = call >>= (λ done. rest)

-- `if failed { return e }`
abbrev pub fail_if : {E : Type 0} → Bool → E → Result E (Unit {0})
fail_if true e = err e
fail_if false e = ok tt

-- The value, or the error that stands for a missing one.
abbrev pub or_fail : {E A : Type 0} → E → Option A → Result E A
or_fail e none = err e
or_fail e (some a) = ok a

-- A chain with a value at its end has one at its start.
pub >>=-eq-ok :
    {E A B : Type 0} (first : Result E A) (next : A → Result E B) {end : B}
    → (first >>= next) ≡ ok end
    → (value : A) × (first ≡ ok value) × (next value ≡ ok end)
>>=-eq-ok (err stop) next ended = absurd (ground arith)
>>=-eq-ok (ok value) next ended = (value, refl, ended)

-- What holds of the value, if there is one.
unfoldable pub OnOk : {E A : Type 0} → (A → Type 0) → Result E A → Type 0
OnOk P (ok a) = P a
OnOk P (err e) = Unit

-- A chain of calls ends in `P` if its continuation does, whatever the first call gives.
pub OnOk->>= :
    {E A B : Type 0} (P : B → Type 0) (m : Result E A) (f : A → Result E B)
    → ((a : A) → m ≡ ok a → OnOk P (f a))
    → OnOk P (m >>= f)
unfolding OnOk
OnOk->>= P (ok a) f h = h a refl
OnOk->>= P (err e) f h = tt

module _ (E : Type 0) {A : Type 0} (P : A → Type 0) where
  pub OnOk-ok : (a : A) → P a → OnOk {E = E} P (ok a)
  unfolding OnOk
  OnOk-ok a h = h

module _ {E A : Type 0} (P : A → Type 0) where
  -- What is known of a chain of calls holds of the value that it gave.
  pub OnOk-value : (m : Result E A) (a : A) → OnOk P m → m ≡ ok a → P a
  unfolding OnOk
  OnOk-value (ok b) a h e = let same : b ≡ a = ground arith in subst P same h
  OnOk-value (err x) a h e = absurd (ground arith)
