-- ===== src/Hub.antt =====
-- server/internal/stream/hub.go: the hub that tells connected clients of events.
pub mod Clients
pub mod Steps
pub mod Sets
pub mod Bounds
pub mod Told
pub mod Leaving
mod Examples
use astralrelay_online.Common.{
  ℕ, zero, suc, ◌≡◌, Bool, true, false, List, [], ◌∷◌, ◌++◌, if◌then◌else◌, ltb, length, ◌==◌,
}
use astralrelay_online.Common.Text.{Text, text_eq, is_empty}
use Clients.{Client, ClientSets, lookup_clients, register_in, unregister_in}

-- The JSON texts that clients are sent.
pub data Frame : Type 0 where
  new_message : Text → Frame
  typing_frame : Text → Bool → Text → Frame
  delivery_frame read_frame : Text → Text → Frame

pub record Event : Type 0 where
  pub recipient : Text
  pub event_id : Text

pub record TypingEvent : Type 0 where
  pub recipient : Text
  pub sender : Text
  pub typing : Bool
  pub room : Text

-- A message on one of the four Redis channels.
pub data Published : Type 0 where
  on_notify : Event → Published
  on_typing : TypingEvent → Published
  on_delivery on_read : Text → Text → Text → Published

-- A client's channel holds the frames that its writer has not taken, by the client's identity.
pub record Hub : Type 0 where
  pub clients : ClientSets
  pub broadcast : List Event
  pub typing_broadcast : List TypingEvent
  pub has_redis : Bool
  pub published : List Published
  pub sent : ℕ → List Frame

abbrev pub send_capacity : ℕ
send_capacity = 256

abbrev pub broadcast_capacity : ℕ
broadcast_capacity = 256

abbrev pub typing_capacity : ℕ
typing_capacity = 64

-- A send in a `select` with a default: a full channel drops what comes.
unfoldable pub offer {ℓ} : {A : Type ℓ} → ℕ → List A → A → List A
offer capacity q x = if ltb (length q) capacity then q ++ x ∷ [] else q

-- The loop over a set of clients.
unfoldable pub push_frame : Frame → List Client → (ℕ → List Frame) → ℕ → List Frame
unfolding offer
push_frame m [] sent i = sent i
push_frame m (c ∷ cs) sent i =
    push_frame m cs (λ j. if j == c.id then offer send_capacity (sent j) m else sent j) i

unfoldable pub push_to_clients : Frame → Text → Hub → Hub
push_to_clients m recipient h = record h {
  sent = push_frame m (lookup_clients recipient h.clients) h.sent;
}

unfoldable pub push_to_local : Event → Hub → Hub
push_to_local ev h = record h { broadcast = offer broadcast_capacity h.broadcast ev }

unfoldable pub push_typing_to_local : TypingEvent → Hub → Hub
push_typing_to_local te h = record h {
  typing_broadcast = offer typing_capacity h.typing_broadcast te;
}

unfoldable pub push_delivery_to_local : Text → Text → Text → Hub → Hub
push_delivery_to_local recipient id status h =
    push_to_clients (delivery_frame id status) recipient h

unfoldable pub push_read_to_local : Text → Text → Text → Hub → Hub
push_read_to_local recipient id read_at h = push_to_clients (read_frame id read_at) recipient h

-- The cases of Run, on what the channel holds.
unfoldable pub on_broadcast : List Event → Hub → Hub
on_broadcast [] h = h
on_broadcast (ev ∷ evs) h =
    push_to_clients (new_message ev.event_id) ev.recipient (record h { broadcast = evs })

unfoldable pub on_typing_broadcast : List TypingEvent → Hub → Hub
on_typing_broadcast [] h = h
on_typing_broadcast (te ∷ tes) h =
    push_to_clients (typing_frame te.sender te.typing te.room) te.recipient
      (record h { typing_broadcast = tes })

unfoldable pub run_broadcast : Hub → Hub
run_broadcast h = on_broadcast h.broadcast h

unfoldable pub run_typing : Hub → Hub
run_typing h = on_typing_broadcast h.typing_broadcast h

-- Publish, whose error is logged or dropped.
unfoldable pub publish : Bool → Published → Hub → Hub
publish fails p h =
    if h.has_redis then (if fails then h else record h { published = h.published ++ p ∷ [] }) else h

unfoldable pub notify : Bool → Text → Text → Hub → Hub
notify fails recipient id h =
    let ev : Event = record { recipient = recipient; event_id = id } in
    push_to_local ev (publish fails (on_notify ev) h)

unfoldable pub notify_delivery : Bool → Text → Text → Text → Hub → Hub
notify_delivery fails sender id status h =
    push_delivery_to_local sender id status (publish fails (on_delivery sender id status) h)

unfoldable pub notify_read : Bool → Text → Text → Text → Hub → Hub
notify_read fails sender id read_at h =
    push_read_to_local sender id read_at (publish fails (on_read sender id read_at) h)

unfoldable pub notify_typing : Bool → TypingEvent → Hub → Hub
notify_typing fails te h = push_typing_to_local te (publish fails (on_typing te) h)

-- runRedisSubscriber on one message. Redis sends it to the hub that published it, too.
unfoldable pub receive : Published → Hub → Hub
receive (on_notify ev) h = push_to_local ev h
receive (on_typing te) h = push_typing_to_local te h
receive (on_delivery r id status) h = push_delivery_to_local r id status h
receive (on_read r id read_at) h = push_read_to_local r id read_at h

unfoldable pub register : Client → Hub → Hub
register c h = record h { clients = register_in c h.clients }

unfoldable pub unregister : Client → Hub → Hub
unregister c h = record h { clients = unregister_in c h.clients }

abbrev rest_of {ℓ} : {A : Type ℓ} → List A → List A
rest_of [] = []
rest_of (x ∷ xs) = xs

-- The goroutine of handlers_websocket.go that takes a frame from the channel of the client `i`.
unfoldable pub take_frame : ℕ → Hub → Hub
take_frame i h = record h { sent = λ j. if j == i then rest_of (h.sent j) else h.sent j }
