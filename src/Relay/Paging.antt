-- ===== src/Relay/Paging.antt =====
-- Sync of server/internal/relay/relay.go: the page that a list of rows gives after a cursor.
use astralrelay_online.Common.{
  ℕ, suc, ◌≤◌, ◌<◌, ◌≡◌, inl, inr, refl, sym, subst, false, none, some, List, [], ◌∷◌, ◌++◌, arith,
  take, drop, length, length-take, All, Bool-cases, ltb, map, Faults,
}
use astralrelay_online.Common.Segments.{take_all, drop_all, take_again, length-map, take-map}
use astralrelay_online.Common.Text.{Text}
use astralrelay_online.Relay.Queue.{MessageRow, RelayDb}
use astralrelay_online.Relay.{Service}
use astralrelay_online.Relay.Sync.{SyncEvent, SyncPage, scan_rows, event_of, finish}
use astralrelay_online.Relay.Ordering.{Ordered}
use astralrelay_online.Relay.Cursor.{UpTo, scan_cursor, scan_last}

-- A page that carries the first rows of the ordered selection: its events are these rows, and its
-- cursor, if it has one, is between the rows carried and the rows left.
abbrev pub Carries : (MessageRow → SyncEvent) → ℕ → List MessageRow → SyncPage → Type 0
Carries ev lim rows page =
    (page.events ≡ map ev (take lim rows))
    × ((n : ℕ)
        → page.next_cursor ≡ some n
        → UpTo n (take lim rows) × All (λ m. n ≤ m.created_at) (drop lim rows))
    × (page.next_cursor ≡ none → rows ≡ [])

abbrev pub key_of : Service → ℕ → Text → Text
key_of s device me = me ++ (b':' ∷ s.uuid_string device)

module _ (f : Faults) (s : Service) (user device : ℕ) (me : Text) (c k : ℕ) (d : RelayDb) where
  unfoldable pub page_of : List MessageRow → SyncPage
  page_of rows = (finish f s user device me (some c) (suc k) d rows).1

  finish_over :
      (rows : List MessageRow) (n : ℕ)
      → suc k < length rows
      → (page_of rows).next_cursor ≡ some n
      → ((scan_rows (suc k) 0 0 0 rows).0 ≡ n)
  unfolding page_of finish
  finish_over rows n h p = ground (arith, length-map (event_of s me (key_of s device me)) rows)

  finish_within :
      (rows : List MessageRow) (n : ℕ)
      → length rows ≤ suc k
      → (page_of rows).next_cursor ≡ some n
      → (scan_rows (suc k) 0 0 0 rows).1 ≡ n
  unfolding page_of finish
  finish_within rows n h p = ground (arith, length-map (event_of s me (key_of s device me)) rows)

  finish_whole :
      (rows : List MessageRow)
      → ltb (suc k) (length rows) ≡ false
      → (page_of rows).events ≡ map (event_of s me (key_of s device me)) rows
  unfolding page_of finish
  finish_whole [] h = ground arith
  finish_whole (x ∷ xs) h = ground (arith, length-map (event_of s me (key_of s device me)) xs)

  finish_none : (rows : List MessageRow) → (page_of rows).next_cursor ≡ none → rows ≡ []
  unfolding page_of finish
  finish_none [] h = refl
  finish_none (x ∷ xs) h =
      absurd (ground (arith, length-map (event_of s me (key_of s device me)) xs))

  take_none : (n : ℕ) (rows : List MessageRow) → take (suc n) rows ≡ [] → rows ≡ []
  take_none n [] h = refl
  take_none n (x ∷ xs) h = absurd (ground arith)

  finish_events :
      (rows : List MessageRow)
      → (page_of rows).events ≡ map (event_of s me (key_of s device me)) (take (suc k) rows)
  unfolding page_of finish
  finish_events rows = elim (Bool-cases (ltb (suc k) (length rows))) [
    | inl over ↦ ground (
      arith,
      length-map (event_of s me (key_of s device me)) rows,
      take-map (event_of s me (key_of s device me)) (suc k) rows,
    )
    | inr within ↦ rw (take_all (suc k) rows (ground arith)) (finish_whole rows within)
  ]

  last_covers :
      (rows : List MessageRow) (n : ℕ)
      → Ordered (some c) rows
      → (scan_rows (suc k) 0 0 0 rows).1 ≡ n
      → UpTo n rows
  last_covers [] n o e = tt
  last_covers (x ∷ xs) n o e = subst (λ z. UpTo z (x ∷ xs)) e (scan_last c (suc k) 0 0 0 x xs o)

  pub finish-Carries :
      (rows : List MessageRow)
      → Ordered (some c) rows
      → Carries
          (event_of s me (key_of s device me))
          (suc k)
          rows
          (page_of (take (suc (suc k)) rows))
  finish-Carries rows o = elim (Bool-cases (ltb (suc k) (length rows))) [
    | inl more ↦ (
      rw (sym (take_again (suc k) rows)) (finish_events (take (suc (suc k)) rows)),
      λ n e. scan_cursor c (suc k) k 0 0 0 n rows (omega arith) (ground arith) o (
          finish_over (take (suc (suc k)) rows) n (ground (arith, length-take (suc (suc k)) rows))
            e),
      λ e. take_none (suc k) rows (finish_none (take (suc (suc k)) rows) e),
    )
    | inr all ↦
        let short : length rows ≤ suc k = ground arith in
        (
          rw (sym (take_again (suc k) rows)) (finish_events (take (suc (suc k)) rows)),
          λ n e.
              rw (take_all (suc k) rows short, drop_all (suc k) rows short)
                (
                  last_covers rows n o (
                      finish_within rows n short
                        (rw (take_all (suc (suc k)) rows (omega (arith, short))) at e)),
                  tt,
                ),
          λ e. take_none (suc k) rows (finish_none (take (suc (suc k)) rows) e),
        )
  ]
