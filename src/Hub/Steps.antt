-- ===== src/Hub/Steps.antt =====
-- The histories of a hub of server/internal/stream/hub.go: its operations, the cases of Run, messages
-- from Redis and the writers of the clients, in any order.
use astralrelay_online.Common.{ℕ, Bool, []}
use astralrelay_online.Common.Text.{Text}
use astralrelay_online.Hub.Clients.{Client}
use astralrelay_online.Hub
use astralrelay_online.Hub.{
  Frame, Event, TypingEvent, Published, offer, push_frame, push_to_clients, push_to_local,
  push_typing_to_local, push_delivery_to_local, push_read_to_local, run_broadcast, run_typing,
  publish, notify, notify_delivery, notify_read, notify_typing, receive, register, unregister,
  take_frame, on_notify, on_typing, on_delivery, on_read,
}

pub data Step (h : Hub.Hub) : Hub.Hub → Type 0 where
  registers : (c : Client) → Step h (register c h)
  unregisters : (c : Client) → Step h (unregister c h)
  notifies : (f : Bool) (r id : Text) → Step h (notify f r id h)
  tells_delivery : (f : Bool) (r id status : Text) → Step h (notify_delivery f r id status h)
  tells_read : (f : Bool) (r id at : Text) → Step h (notify_read f r id at h)
  types : (f : Bool) (te : TypingEvent) → Step h (notify_typing f te h)
  receives : (p : Published) → Step h (receive p h)
  runs_broadcast : Step h (run_broadcast h)
  runs_typing : Step h (run_typing h)
  writes : (i : ℕ) → Step h (take_frame i h)

-- NewHubWithRedis, with Redis or without.
abbrev pub new_hub : Bool → Hub.Hub
new_hub redis = record {
  clients = [];
  broadcast = [];
  typing_broadcast = [];
  has_redis = redis;
  published = [];
  sent = λ i. [];
}

pub data Reach (redis : Bool) : Hub.Hub → Type 0 where
  start : Reach redis (new_hub redis)
  next : {h g : Hub.Hub} → Reach redis h → Step h g → Reach redis g
