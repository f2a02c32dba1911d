-- ===== src/Relay/Ordering.antt =====
-- The ORDER BY of Sync in server/internal/relay/relay.go: rows in order, and none lost.
use astralrelay_online.Common.{
  ℕ, ◌≡◌, inl, inr, Bool, true, false, Option, none, some, List, [], ◌∷◌, arith, All, keep_if,
  Bool-cases,
}
use astralrelay_online.Relay.Queue.{MessageRow}
use astralrelay_online.Relay.Sync.{goes_before, insert_row, order_rows}

module _ (P : MessageRow → Type 0) where
  pub All-mono :
      (Q : MessageRow → Type 0)
      → ((m : MessageRow) → P m → Q m)
      → (ms : List MessageRow) → All P ms
      → All Q ms
  All-mono Q h [] a = tt
  All-mono Q h (m ∷ ms) a = (h m a.0, All-mono Q h ms a.1)

  All-insert_row :
      (since : Option ℕ) (m : MessageRow) (ms : List MessageRow)
      → P m
      → All P ms
      → All P (insert_row since m ms)
  unfolding insert_row
  All-insert_row since m [] p a = (p, tt)
  All-insert_row since m (x ∷ xs) p a = elim (Bool-cases (goes_before since m x)) [
    | inl first ↦ rw first (p, a)
    | inr later ↦ rw later (a.0, All-insert_row since m xs p a.1)
  ]

  insert_row-All :
      (since : Option ℕ) (m : MessageRow) (ms : List MessageRow)
      → All P (insert_row since m ms)
      → P m × All P ms
  unfolding insert_row
  insert_row-All since m [] a = (a.0, tt)
  insert_row-All since m (x ∷ xs) a = elim (Bool-cases (goes_before since m x)) [
    | inl first ↦ let b = rw first at a in (b.0, b.1)
    | inr later ↦
        let b = rw later at a in let c = insert_row-All since m xs b.1 in (c.0, (b.0, c.1))
  ]

  -- The order neither adds a row nor loses one.
  pub All-order_rows :
      (since : Option ℕ) (ms : List MessageRow) → All P ms → All P (order_rows since ms)
  unfolding order_rows
  All-order_rows since [] a = tt
  All-order_rows since (m ∷ ms) a =
      All-insert_row since m (order_rows since ms) a.0 (All-order_rows since ms a.1)

  pub order_rows-All :
      (since : Option ℕ) (ms : List MessageRow) → All P (order_rows since ms) → All P ms
  unfolding order_rows
  order_rows-All since [] a = tt
  order_rows-All since (m ∷ ms) a =
      let b = insert_row-All since m (order_rows since ms) a in (b.0, order_rows-All since ms b.1)

  -- What holds of the kept rows holds of the rows that pass the test.
  pub keep_if-All :
      (test : MessageRow → Bool) (ms : List MessageRow)
      → All P (keep_if test ms)
      → All (λ m. test m ≡ true → P m) ms
  unfolding keep_if
  keep_if-All test [] a = tt
  keep_if-All test (m ∷ ms) a = elim (Bool-cases (test m)) [
    | inl pass ↦ let b = rw pass at a in ((λ e. b.0), keep_if-All test ms b.1)
    | inr fail ↦ let b = rw fail at a in ((λ e. absurd (ground arith)), keep_if-All test ms b)
  ]

-- Every row goes before those behind it.
abbrev pub Ordered : Option ℕ → List MessageRow → Type 0
Ordered since [] = Unit {0}
Ordered since (x ∷ xs) = All (λ y. goes_before since x y ≡ true) xs × Ordered since xs

goes_before_trans :
    (since : Option ℕ) (a b c : MessageRow)
    → goes_before since a b ≡ true
    → goes_before since b c ≡ true
    → goes_before since a c ≡ true
goes_before_trans none a b c h k = ground arith
goes_before_trans (some t) a b c h k = ground arith

goes_before_total :
    (since : Option ℕ) (a b : MessageRow)
    → goes_before since a b ≡ false
    → goes_before since b a ≡ true
goes_before_total none a b h = ground arith
goes_before_total (some t) a b h = ground arith

insert_row-Ordered :
    (since : Option ℕ) (m : MessageRow) (ms : List MessageRow)
    → Ordered since ms
    → Ordered since (insert_row since m ms)
unfolding insert_row
insert_row-Ordered since m [] o = (tt, tt)
insert_row-Ordered since m (x ∷ xs) o = elim (Bool-cases (goes_before since m x)) [
  | inl first ↦ rw first (
    (
      first,
      All-mono (λ y. goes_before since x y ≡ true) (λ y. goes_before since m y ≡ true)
          (λ y h. goes_before_trans since m x y first h) xs o.0,
    ),
    (o.0, o.1),
  )
  | inr later ↦ rw later (
    All-insert_row (λ y. goes_before since x y ≡ true) since m xs
        (goes_before_total since m x later) o.0,
    insert_row-Ordered since m xs o.1,
  )
]

pub order_rows-Ordered :
    (since : Option ℕ) (ms : List MessageRow) → Ordered since (order_rows since ms)
unfolding order_rows
order_rows-Ordered since [] = tt
order_rows-Ordered since (m ∷ ms) =
    insert_row-Ordered since m (order_rows since ms) (order_rows-Ordered since ms)
