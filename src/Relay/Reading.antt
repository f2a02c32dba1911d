-- ===== src/Relay/Reading.antt =====
-- MarkRead of server/internal/relay/relay.go, and the updates that senders are sent.
use astralrelay_online.Common.{
  ℕ, ◌+◌, ◌*◌, Bool, false, not, ◌&&◌, ◌||◌, Option, none, some, List, [], ◌∷◌, if◌then◌else◌,
  Faults,
}
use astralrelay_online.Common.Text.{Text, text_eq, is_empty}
use astralrelay_online.Rooms.Addr.{is_room_addr, parse_room_addr}
use astralrelay_online.Relay.Queue.{get_event, RelayDb, add_receipt}
use astralrelay_online.Relay.{Service}

-- The sender and the event that the sender is told of.
pub record DeliveredUpdate : Type 0 where
  pub sender_addr : Text
  pub event_id : Text

-- Whether the reader may read what went to `recipient`; an error of IsMember reads as false.
unfoldable pub can_read : Service → Text → ℕ → Text → Bool
can_read s reader reader_id recipient = elim s.rooms [
  | none ↦ text_eq recipient reader
  | some rooms ↦
      if is_room_addr recipient
      then (elim (parse_room_addr recipient) [
        | none ↦ false
        | some (room, dom) ↦ elim (s.uuid_parse room) [
          | none ↦ false
          | some rid ↦ elim (rooms.is_member rid reader_id) [ none ↦ false | some m ↦ m ]
        ]
      ])
      else text_eq recipient reader
]

-- One event of MarkRead: the new tables, and the update for its sender.
unfoldable pub mark_one :
    Bool → Bool → Service → Text → ℕ → RelayDb → Text → RelayDb × Option DeliveredUpdate
unfolding can_read
mark_one look_fails insert_fails s reader reader_id d eid =
    if is_empty eid || look_fails then (d, none) else elim (get_event eid d.queue) [
      | none ↦ (d, none)
      | some m ↦
          if can_read s reader reader_id m.recipient && not insert_fails
          then (add_receipt eid reader d, some (record { sender_addr = m.sender; event_id = eid }))
          else (d, none)
    ]

abbrev pub cons_some {ℓ} : {A : Type ℓ} → Option A → List A → List A
cons_some none xs = xs
cons_some (some a) xs = a ∷ xs

unfoldable pub mark_read :
    Faults → ℕ → Service → Text → ℕ → RelayDb → List Text → RelayDb × List DeliveredUpdate
mark_read f i s reader reader_id d [] = (d, [])
mark_read f i s reader reader_id d (eid ∷ eids) =
    let (d', told) = mark_one (f (2 * i)) (f (2 * i + 1)) s reader reader_id d eid in
    let rest = mark_read f (i + 1) s reader reader_id d' eids in (rest.0, cons_some told rest.1)
