-- ===== src/Relay/Receipts.antt =====
-- MarkRead of server/internal/relay/relay.go: who is told of what, and which receipts are added.
use astralrelay_online.Common.{
  ℕ, ◌+◌, ◌*◌, ◌≡◌, ◌⊎◌, inl, inr, refl, Bool, true, Option, none, some, List, [], ◌∷◌, arith,
  Faults, All, Any, Option-cases,
}
use astralrelay_online.Common.Text.{Text, text_eq_iff, text_eq_refl}
use astralrelay_online.Relay.Queue.{MessageRow, RelayDb, get_event, has_receipt, add_receipt}
use astralrelay_online.Relay.{Service}
use astralrelay_online.Relay.Reading.{can_read, mark_one, mark_read, cons_some, DeliveredUpdate}

cons_some-All :
    {A : Type 0} (P : A → Type 0) (o : Option A) (xs : List A)
    → ((a : A) → o ≡ some a → P a)
    → All P xs
    → All P (cons_some o xs)
cons_some-All P none xs h all = all
cons_some-All P (some a) xs h all = (h a refl, all)

module _ (s : Service) (reader : Text) (reader_id : ℕ) where
  -- The update tells the sender of a message that the reader may read, which now has a receipt.
  abbrev pub Told : List MessageRow → List (Text × Text) → DeliveredUpdate → Type 0
  Told queue receipts u =
      (m : MessageRow) × (get_event u.event_id queue ≡ some m)
      × (u.sender_addr ≡ m.sender)
      × (can_read s reader reader_id m.recipient ≡ true)
      × (has_receipt u.event_id reader receipts ≡ true)

  add_receipt_there :
      (id : Text) (d : RelayDb)
      → has_receipt id reader (add_receipt id reader d).read_receipts ≡ true
  unfolding add_receipt
  add_receipt_there id d = ground (arith, text_eq_refl id, text_eq_refl reader)

  add_receipt_keeps :
      (id e r : Text) (d : RelayDb)
      → has_receipt e r d.read_receipts ≡ true
      → has_receipt e r (add_receipt id reader d).read_receipts ≡ true
  unfolding add_receipt
  add_receipt_keeps id e r d h = ground arith

  add_receipt_new :
      (id e r : Text) (d : RelayDb)
      → has_receipt e r (add_receipt id reader d).read_receipts ≡ true
      → (has_receipt e r d.read_receipts ≡ true) ⊎ ((e ≡ id) × (r ≡ reader))
  unfolding add_receipt
  add_receipt_new id e r d h = ground (arith, (text_eq_iff id e).0, (text_eq_iff reader r).0)

  mark_one_keeps :
      (a b : Bool) (d : RelayDb) (id e r : Text)
      → has_receipt e r d.read_receipts ≡ true
      → has_receipt e r (mark_one a b s reader reader_id d id).0.read_receipts ≡ true
  unfolding mark_one
  mark_one_keeps a b d id e r h = ground (arith, add_receipt_keeps id e r d h)

  mark_one_queue :
      (a b : Bool) (d : RelayDb) (id : Text)
      → (mark_one a b s reader reader_id d id).0.queue ≡ d.queue
  unfolding mark_one add_receipt
  mark_one_queue a b d id = ground arith

  mark_one_new :
      (a b : Bool) (d : RelayDb) (id e r : Text)
      → has_receipt e r (mark_one a b s reader reader_id d id).0.read_receipts ≡ true
      → (has_receipt e r d.read_receipts ≡ true) ⊎ ((e ≡ id) × (r ≡ reader))
  unfolding mark_one
  mark_one_new a b d id e r h = ground (arith, add_receipt_new id e r d)

  mark_one-Told :
      (a b : Bool) (d : RelayDb) (id : Text) (u : DeliveredUpdate)
      → (mark_one a b s reader reader_id d id).1 ≡ some u
      → Told d.queue (mark_one a b s reader reader_id d id).0.read_receipts u
  unfolding mark_one
  mark_one-Told a b d id u h = elim (Option-cases (get_event id d.queue)) [
    | inl gone ↦ absurd (ground arith)
    | inr (m, found) ↦
        let same : u.event_id ≡ id = ground arith in
        (m, rw same found, ground arith, ground arith, ground (arith, add_receipt_there id d))
  ]

  mark_read_keeps :
      (f : Faults) (i : ℕ) (d : RelayDb) (ids : List Text) (e r : Text)
      → has_receipt e r d.read_receipts ≡ true
      → has_receipt e r (mark_read f i s reader reader_id d ids).0.read_receipts ≡ true
  unfolding mark_read
  mark_read_keeps f i d [] e r h = h
  mark_read_keeps f i d (id ∷ ids) e r h =
      mark_read_keeps f (i + 1) (mark_one (f (2 * i)) (f (2 * i + 1)) s reader reader_id d id).0 ids
        e r (mark_one_keeps (f (2 * i)) (f (2 * i + 1)) d id e r h)

  -- What MarkRead does for the events `ids`.
  abbrev pub Marked : RelayDb → List Text → RelayDb × List DeliveredUpdate → Type 0
  Marked d ids (d', told) =
      (d'.queue ≡ d.queue)
      × All (Told d.queue d'.read_receipts) told
      × ((e r : Text)
          → has_receipt e r d.read_receipts ≡ true
          → has_receipt e r d'.read_receipts ≡ true)
      × ((e r : Text)
          → has_receipt e r d'.read_receipts ≡ true
          → (has_receipt e r d.read_receipts ≡ true) ⊎ (Any (λ id. e ≡ id) ids × (r ≡ reader)))

  -- Whatever calls fail, marking events as read changes no message, tells only senders of messages
  -- that the reader may read and that now have a receipt, loses no receipt, and adds only receipts
  -- of the reader for the events asked.
  pub mark_read-Marked :
      (f : Faults) (i : ℕ) (d : RelayDb) (ids : List Text)
      → Marked d ids (mark_read f i s reader reader_id d ids)
  unfolding mark_read
  mark_read-Marked f i d [] = (refl, tt, (λ e r h. h), (λ e r h. inl h))
  mark_read-Marked f i d (id ∷ ids) =
      let a = f (2 * i) in
      let b = f (2 * i + 1) in
      let one = mark_one a b s reader reader_id d id in
      let (queue, told, keeps, new) = mark_read-Marked f (i + 1) one.0 ids in
      let same = mark_one_queue a b d id in
      (
        rw (queue, same) refl,
        cons_some-All
            (Told d.queue (mark_read f (i + 1) s reader reader_id one.0 ids).0.read_receipts) one.1
            (mark_read f (i + 1) s reader reader_id one.0 ids).1
            (λ u e.
              let (m, found, sender, may, there) = mark_one-Told a b d id u e in
              (m, found, sender, may, keeps u.event_id reader there))
            (rw same at told),
        λ e r h. keeps e r (mark_one_keeps a b d id e r h),
        λ e r h. ground (arith, new e r h, mark_one_new a b d id e r),
      )
