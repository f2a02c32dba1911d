-- ===== src/Relay/FirstLoad.antt =====
-- Sync of server/internal/relay/relay.go without a cursor: a first load that does not hold everything.
use astralrelay_online.Common.{
  ℕ, suc, ◌+◌, ◌≤◌, ◌≡◌, refl, true, false, none, some, List, [], ◌∷◌, arith, ok, take, length,
  length-take, All, keep_if, map, reverse, Faults,
}
use astralrelay_online.Common.Segments.{take-reverse_aux, length-reverse_aux, length-map}
use astralrelay_online.Common.Text.{Text}
use astralrelay_online.Relay.Queue.{MessageRow, RelayDb, LocalUser, user_by_id}
use astralrelay_online.Relay.{Service}
use astralrelay_online.Relay.Sync.{
  SyncEvent, SyncPage, selected, goes_before, order_rows, query_rows, event_of, finish,
  effective_limit, address_of, recipients_of, sync,
}
use astralrelay_online.Relay.Ordering.{
  All-mono, order_rows-All, keep_if-All, Ordered, order_rows-Ordered,
}
use astralrelay_online.Relay.Paging.{key_of}
use astralrelay_online.Relay.Following.{sync_ok}

turned :
    (lim : ℕ) (e : SyncEvent) (es : List SyncEvent)
    → length es ≡ lim
    → (length (reverse (e ∷ es)) ≡ suc lim) × (take lim (reverse (e ∷ es)) ≡ reverse es)
turned lim e es h =
    let whole : length es + 0 ≡ lim = omega arith in
    let cut = take-reverse_aux es [] (e ∷ []) in
    (omega (arith, length-reverse_aux es (e ∷ [])), rw whole at cut)

finish_first :
    (f : Faults) (s : Service) (user device : ℕ) (me : Text) (lim : ℕ) (d : RelayDb)
    (x : MessageRow) (xs : List MessageRow)
    → length xs ≡ lim
    → let page = (finish f s user device me none lim d (x ∷ xs)).1 in
      (page.events ≡ reverse (map (event_of s me (key_of s device me)) xs)) × (page.delivered ≡ [])
unfolding finish
finish_first f s user device me lim d x xs h =
    let ev = event_of s me (key_of s device me) in
    let (long, cut) = turned lim (ev x) (map ev xs) (omega (arith, length-map ev xs)) in
    (ground (arith, long, cut), ground (arith, long, cut))

newest :
    (x : MessageRow) (xs : List MessageRow)
    → Ordered none (x ∷ xs)
    → All (λ m. m.created_at ≤ x.created_at) (x ∷ xs)
newest x xs o = (
  omega arith,
  All-mono (λ y. goes_before none x y ≡ true) (λ y. y.created_at ≤ x.created_at)
      (λ y g. ground arith) xs o.0,
)

-- A first load for which more messages are selected than the limit carries the messages behind the
-- newest one, oldest first, and delivers none: the newest message is not on the page.
pub first_load_drops_newest :
    (f : Faults) (s : Service) (user device limit : ℕ) (d : RelayDb) (u : LocalUser)
    (x : MessageRow) (xs : List MessageRow)
    → f 0 ≡ false
    → f 1 ≡ false
    → user_by_id user d.users ≡ some u
    → order_rows none
        (keep_if (selected (recipients_of s user (address_of u)) (address_of u) none) d.queue)
      ≡ x ∷ xs
    → effective_limit limit ≤ length xs
    → let ev = event_of s (address_of u) (key_of s device (address_of u)) in
      let sel = selected (recipients_of s user (address_of u)) (address_of u) none in
      (page : SyncPage) × ((sync f s user device none limit d).1 ≡ ok page)
      × (page.events ≡ reverse (map ev (take (effective_limit limit) xs)))
      × (page.delivered ≡ [])
      × All (λ m. sel m ≡ true → m.created_at ≤ x.created_at) d.queue
unfolding query_rows
first_load_drops_newest f s user device limit d u x xs a b found rows more =
    let me = address_of u in
    let sel = selected (recipients_of s user me) me none in
    let lim = effective_limit limit in
    let shown =
      finish_first f s user device me lim d x (take lim xs) (omega (arith, length-take lim xs)) in
    let P : MessageRow → Type 0 = λ m. m.created_at ≤ x.created_at in
    (
      (finish f s user device me none lim d (x ∷ take lim xs)).1,
      rw (sync_ok f s user device none limit d u a b found, rows) refl,
      shown.0,
      shown.1,
      keep_if-All P sel d.queue (
          order_rows-All P none (keep_if sel d.queue)
            (rw rows (newest x xs (rw rows at (order_rows-Ordered none (keep_if sel d.queue)))))),
    )
