-- ===== src/Dbenc/Rows.antt =====
-- The loops of EncryptExisting over the rows of one table, whatever the table.
use astralrelay_online.Common.{
  ℕ, suc, ◌≡◌, inl, inr, refl, Bool, true, false, Option, some, List, [], ◌∷◌, map, arith,
  Option-cases, All,
}
use astralrelay_online.Dbenc.Migrate.{seal_rows, seal_table}

module _ {A : Type 0} (one : ℕ → A → Option A) where
  module _ {B : Type 0} (view : A → B)
      (keeps : (i : ℕ) (a b : A) → one i a ≡ some b → view b ≡ view a) where
    seal_rows-view : (i : ℕ) (rows : List A) → map view (seal_rows one i rows).0 ≡ map view rows
    unfolding seal_rows
    seal_rows-view i [] = refl
    seal_rows-view i (a ∷ rows) = elim (Option-cases (one i a)) [
      | inl gone ↦ rw (gone, seal_rows, map) refl
      | inr (b, found) ↦
          rw (found, keeps i a b found, seal_rows-view (suc i) rows, seal_rows, map) refl
    ]

    pub seal_table-view :
        (fails : Bool) (rows : List A) → map view (seal_table fails one rows).0 ≡ map view rows
    unfolding seal_table
    seal_table-view true rows = refl
    seal_table-view false rows = seal_rows-view 0 rows

  module _ (P : A → Type 0) where
    seal_rows-All :
        ((i : ℕ) (a b : A) → one i a ≡ some b → P b)
        → (i : ℕ) (rows : List A) → (seal_rows one i rows).1 ≡ true
        → All P (seal_rows one i rows).0
    unfolding seal_rows
    seal_rows-All makes i [] h = tt
    seal_rows-All makes i (a ∷ rows) h = elim (Option-cases (one i a)) [
      | inl gone ↦ absurd (ground (arith, gone))
      | inr (b, found) ↦
          let ended : (seal_rows one (suc i) rows).1 ≡ true = ground (arith, found) in
          rw (found, seal_rows, All) (makes i a b found, seal_rows-All makes (suc i) rows ended)
    ]

    pub seal_table-All :
        ((i : ℕ) (a b : A) → one i a ≡ some b → P b)
        → (fails : Bool) (rows : List A) → (seal_table fails one rows).1 ≡ true
        → All P (seal_table fails one rows).0
    unfolding seal_table
    seal_table-All makes true rows h = absurd (ground arith)
    seal_table-All makes false rows h = seal_rows-All makes 0 rows h

    seal_rows_fixed :
        ((i : ℕ) (a : A) → P a → one i a ≡ some a)
        → (i : ℕ) (rows : List A) → All P rows
        → seal_rows one i rows ≡ (rows, true)
    unfolding seal_rows
    seal_rows_fixed stays i [] h = refl
    seal_rows_fixed stays i (a ∷ rows) h =
        rw (stays i a h.0, seal_rows_fixed stays (suc i) rows h.1, seal_rows) refl

    pub seal_table_fixed :
        ((i : ℕ) (a : A) → P a → one i a ≡ some a)
        → (rows : List A) → All P rows
        → seal_table false one rows ≡ (rows, true)
    unfolding seal_table
    seal_table_fixed stays rows h = seal_rows_fixed stays 0 rows h
