-- ===== src/Common/Segments.antt =====
-- Lists cut by `take` and `drop`, turned round, kept in part and mapped.
use mathlib.Core.List.{reverse_aux, List, [], ◌∷◌, ◌++◌, map}
use Prim.Native.Nat.{ℕ, zero, suc, ◌+◌, ◌≤◌}
use mathlib.Core.Path.{◌≡◌, refl, ap}
use mathlib.Core.Logic.{inl, inr}
use mathlib.Core.Bool.{Bool, true}
use native.Mathlib.Omega.{arith}
use astralrelay_online.Common.Tests.{Bool-cases}
use astralrelay_online.Common.Lists.{length, take, drop, All, Any, keep_if}
use astralrelay_online.Common.Cuts.{take-append}

module _ {A : Type 0} (P : A → Type 0) where
  pub take_or_drop : (n : ℕ) (xs : List A) → All P (take n xs) → All P (drop n xs) → All P xs
  take_or_drop zero xs a b = b
  take_or_drop (suc n) [] a b = tt
  take_or_drop (suc n) (x ∷ xs) a b = (a.0, take_or_drop n xs a.1 b)

  pub All-take : (n : ℕ) (xs : List A) → All P xs → All P (take n xs)
  All-take zero xs a = tt
  All-take (suc n) [] a = tt
  All-take (suc n) (x ∷ xs) a = (a.0, All-take n xs a.1)

  pub keeps :
      (test : A → Bool) → ((a : A) → test a ≡ true → P a) → (xs : List A) → All P (keep_if test xs)
  unfolding keep_if
  keeps test h [] = tt
  keeps test h (x ∷ xs) = elim (Bool-cases (test x)) [
    | inl pass ↦ rw pass (h x pass, keeps test h xs)
    | inr fail ↦ rw fail (keeps test h xs)
  ]

module _ {A : Type 0} where
  pub take_all : (n : ℕ) (xs : List A) → length xs ≤ n → take n xs ≡ xs
  take_all zero [] h = refl
  take_all zero (x ∷ xs) h = absurd (omega arith)
  take_all (suc n) [] h = refl
  take_all (suc n) (x ∷ xs) h = ap (◌∷◌ x) (take_all n xs (omega arith))

  pub drop_all : (n : ℕ) (xs : List A) → length xs ≤ n → drop n xs ≡ []
  drop_all zero [] h = refl
  drop_all zero (x ∷ xs) h = absurd (omega arith)
  drop_all (suc n) [] h = refl
  drop_all (suc n) (x ∷ xs) h = drop_all n xs (omega arith)

  pub take_again : (n : ℕ) (xs : List A) → take n (take (suc n) xs) ≡ take n xs
  take_again zero xs = refl
  take_again (suc n) [] = refl
  take_again (suc n) (x ∷ xs) = ap (◌∷◌ x) (take_again n xs)

  pub take-reverse_aux :
      (xs r ys : List A) → take (length xs + length r) (reverse_aux xs (r ++ ys)) ≡ reverse_aux xs r
  take-reverse_aux [] r ys =
      let same : 0 + length r ≡ length r = omega arith in rw same (take-append r ys)
  take-reverse_aux (x ∷ xs) r ys =
      let same : suc (length xs) + length r ≡ length xs + suc (length r) = omega arith in
      rw same (take-reverse_aux xs (x ∷ r) ys)

  pub length-reverse_aux : (xs r : List A) → length (reverse_aux xs r) ≡ length xs + length r
  length-reverse_aux [] r = omega arith
  length-reverse_aux (x ∷ xs) r = omega (arith, length-reverse_aux xs (x ∷ r))

module _ {A B : Type 0} (h : A → B) where
  pub length-map : (xs : List A) → length (map h xs) ≡ length xs
  length-map [] = refl
  length-map (x ∷ xs) = ap suc (length-map xs)

  pub take-map : (n : ℕ) (xs : List A) → take n (map h xs) ≡ map h (take n xs)
  take-map zero xs = refl
  take-map (suc n) [] = refl
  take-map (suc n) (x ∷ xs) = ap (◌∷◌ (h x)) (take-map n xs)

  pub All-weaken :
      (b : B) (bs : List B) (xs : List A)
      → All (λ x. Any (λ z. z ≡ h x) bs) xs
      → All (λ x. Any (λ z. z ≡ h x) (b ∷ bs)) xs
  All-weaken b bs [] a = tt
  All-weaken b bs (x ∷ xs) a = (inr a.0, All-weaken b bs xs a.1)

  pub each-image : (xs : List A) → All (λ x. Any (λ z. z ≡ h x) (map h xs)) xs
  each-image [] = tt
  each-image (x ∷ xs) = (inl refl, All-weaken (h x) (map h xs) xs (each-image xs))
