-- ===== src/Relay/Following.antt =====
-- Sync of server/internal/relay/relay.go: which messages a page carries, and which come after it.
use astralrelay_online.Common.{
  ℕ, zero, suc, ◌≤◌, ◌≡◌, ◌⊎◌, inl, inr, refl, Bool, true, false, Option, none, some, List, arith,
  ok, length, All, Any, Bool-cases, map, Faults,
}
use astralrelay_online.Common.Int64.{slt}
use astralrelay_online.Relay.Queue.{MessageRow, RelayDb, LocalUser, user_by_id}
use astralrelay_online.Relay.{Service}
use astralrelay_online.Relay.Sync.{
  SyncEvent, SyncPage, query_rows, finish, effective_limit, address_of, recipients_of, sync,
}
use astralrelay_online.Relay.Cursor.{UpTo}

pub effective_limit_pos : (limit : ℕ) → (k : ℕ) × (effective_limit limit ≡ suc k)
unfolding effective_limit slt
effective_limit_pos zero = (99, refl)
effective_limit_pos (suc n) = elim (Bool-cases (slt 0 (suc n))) [
  | inl big ↦ rw big (n, refl)
  | inr neg ↦ rw neg (99, refl)
]

-- A page after the cursor `c`: its events are selected messages, no more than the limit and none
-- created after the new cursor; every selected message is on the page or was created no earlier
-- than the new cursor; and only where nothing is selected there is no new cursor.
abbrev pub FollowingPage :
    (MessageRow → SyncEvent) → (MessageRow → Bool) → ℕ → List MessageRow → SyncPage → Type 0
FollowingPage ev sel lim queue page =
    (rows : List MessageRow) × (page.events ≡ map ev rows)
    × (length rows ≤ lim)
    × All (λ m. sel m ≡ true) rows
    × ((n : ℕ)
        → page.next_cursor ≡ some n
        → UpTo n rows
          × All (λ m. sel m ≡ true → Any (λ e. e ≡ ev m) page.events ⊎ (n ≤ m.created_at)) queue)
    × (page.next_cursor ≡ none → All (λ m. sel m ≡ true → ⊥) queue)

pub sync_ok :
    (f : Faults) (s : Service) (user device : ℕ) (since : Option ℕ) (limit : ℕ) (d : RelayDb)
    (u : LocalUser)
    → f 0 ≡ false
    → f 1 ≡ false
    → user_by_id user d.users ≡ some u
    → let me = address_of u in
      (sync f s user device since limit d).1
      ≡ ok
          (finish f s user device me since
            (effective_limit limit)
            d
            (query_rows (recipients_of s user me) me since (effective_limit limit) d.queue)).1
unfolding sync
sync_ok f s user device since limit d u a b found = ground (arith, a, b, found)
