-- ===== src/Common/Cuts.antt =====
-- Where strings.Index finds a byte, and what is on either side of it.
use Prim.Native.Nat.{ℕ, zero, suc, ◌+◌, ◌<◌}
use mathlib.Core.Path.{◌≡◌, refl, ap}
use mathlib.Core.Logic.{◌≢◌}
use mathlib.Core.Bool.{true}
use mathlib.Core.Option.{none, some}
use mathlib.Core.List.{List, [], ◌∷◌, ◌++◌}
use native.Mathlib.Omega.{arith}
use astralrelay_online.Common.Lists.{length, take, drop}
use astralrelay_online.Common.Text.{Text, index, has_prefix}

-- The byte does not occur.
abbrev pub Free : ℕ → Text → Type 0
Free b [] = Unit {0}
Free b (c ∷ s) = (c ≢ b) × Free b s

module _ {ℓ} {A : Type ℓ} where
  pub take-append : (xs ys : List A) → take (length xs) (xs ++ ys) ≡ xs
  take-append [] ys = refl
  take-append (x ∷ xs) ys = ap (◌∷◌ x) (take-append xs ys)

  pub drop-append : (xs ys : List A) → drop (length xs) (xs ++ ys) ≡ ys
  drop-append [] ys = refl
  drop-append (x ∷ xs) ys = drop-append xs ys

  pub drop_past : (xs : List A) (y : A) (ys : List A) → drop (length xs + 1) (xs ++ (y ∷ ys)) ≡ ys
  drop_past xs y ys = rw (length_one xs) (go xs)
    where
      length_one : (zs : List A) → length zs + 1 ≡ suc (length zs)
      length_one zs = omega arith

      go : (zs : List A) → drop (suc (length zs)) (zs ++ (y ∷ ys)) ≡ ys
      go [] = refl
      go (z ∷ zs) = go zs

-- The first colon of a text that is cut at one is where the cut is.
pub index-append : (b : ℕ) (s t : Text) → Free b s → index (s ++ (b ∷ t)) b ≡ some (length s)
unfolding index
index-append b [] t h = ground arith
index-append b (c ∷ s) t h = ground (arith, index-append b s t h.1)

pub index-Free : (b : ℕ) (s : Text) → Free b s → index s b ≡ none
unfolding index
index-Free b [] h = refl
index-Free b (c ∷ s) h = ground (arith, index-Free b s h.1)

-- A byte that is found splits the text there, and does not occur before.
abbrev pub Split : ℕ → Text → ℕ → Type 0
Split b s i = (s ≡ take i s ++ (b ∷ drop (suc i) s)) × Free b (take i s) × (i < length s)

pub index-Split : (b : ℕ) (s : Text) (i : ℕ) → index s b ≡ some i → Split b s i
unfolding index
index-Split b [] i h = cc
index-Split b (c ∷ s) zero h = (ground arith, tt, omega arith)
index-Split b (c ∷ s) (suc i) h =
    let e : index s b ≡ some i = ground arith in
    let (split, before, inside) = index-Split b s i e in
    (ap (◌∷◌ c) split, (ground arith, before), omega arith)

pub has_prefix-append : (p s : Text) → has_prefix (p ++ s) p ≡ true
unfolding has_prefix
has_prefix-append [] [] = refl
has_prefix-append [] (c ∷ s) = refl
has_prefix-append (c ∷ p) s = ground (arith, has_prefix-append p s)
