-- ===== src/Relay/Cursor.antt =====
-- The cursor that Sync of server/internal/relay/relay.go takes from the rows of a page.
use astralrelay_online.Common.{
  ℕ, zero, suc, ◌+◌, ◌≤◌, ◌≡◌, refl, true, some, List, [], ◌∷◌, ◌==◌, if◌then◌else◌, arith, take,
  drop, length, All,
}
use astralrelay_online.Relay.Queue.{MessageRow}
use astralrelay_online.Relay.Sync.{goes_before, scan_rows}
use astralrelay_online.Relay.Ordering.{All-mono, Ordered}

-- Past the limit the cursor stays.
scan_past :
    (lim count cur last : ℕ) (ms : List MessageRow)
    → lim ≤ count
    → (scan_rows lim count cur last ms).0 ≡ cur
unfolding scan_rows
scan_past lim count cur last [] h = refl
scan_past lim count cur last (m ∷ ms) h =
    ground (arith, scan_past lim (suc count) cur m.created_at ms (omega arith))

abbrev pub UpTo : ℕ → List MessageRow → Type 0
UpTo n = All (λ m. m.created_at ≤ n)

-- Of rows in ascending order, those up to the limit are not after the cursor, the others not before.
pub scan_cursor :
    (c lim k count cur last n : ℕ) (ms : List MessageRow)
    → lim ≡ count + suc k
    → suc k ≤ length ms
    → Ordered (some c) ms
    → (scan_rows lim count cur last (take (suc (suc k)) ms)).0 ≡ n
    → UpTo n (take (suc k) ms) × All (λ m. n ≤ m.created_at) (drop (suc k) ms)
unfolding scan_rows
scan_cursor c lim k count cur last n [] e h o s = absurd (omega arith)
scan_cursor c lim zero count cur last n (x ∷ xs) e h o s =
    let past = scan_past lim (suc count) x.created_at x.created_at (take 1 xs) (omega arith) in
    let same : x.created_at ≡ n = ground (arith, past) in
    (
      (omega arith, tt),
      All-mono (λ y. goes_before (some c) x y ≡ true) (λ y. n ≤ y.created_at) (λ y g. ground arith)
          xs o.0,
    )
scan_cursor c lim (suc k) count cur last n (x ∷ []) e h o s = absurd (omega arith)
scan_cursor c lim (suc k) count cur last n (x ∷ y ∷ ys) e h o s =
    let (before, after) =
      scan_cursor c lim k (suc count) cur x.created_at n (y ∷ ys) (omega arith) (omega arith) o.1
        (ground arith) in
    let g = o.0.0 in ((ground arith, before), after)

-- The last row of rows in ascending order is not before any.
pub scan_last :
    (c lim count cur last : ℕ) (x : MessageRow) (xs : List MessageRow)
    → Ordered (some c) (x ∷ xs)
    → UpTo (scan_rows lim count cur last (x ∷ xs)).1 (x ∷ xs)
unfolding scan_rows
scan_last c lim count cur last x [] o = (omega arith, tt)
scan_last c lim count cur last x (y ∷ ys) o =
    let later =
      scan_last c lim (suc count) (if suc count == lim then x.created_at else cur) x.created_at y ys
        o.1 in
    let g = o.0.0 in (ground (arith, later.0), later)
