-- ===== src/Hub/Bounds.antt =====
-- What holds of a hub of server/internal/stream/hub.go after any history.
use astralrelay_online.Common.{
  ℕ, ◌≤◌, Bool, List, [], ◌∷◌, if◌then◌else◌, ◌==◌, arith, length, length-append,
}
use astralrelay_online.Common.Text.{Text}
use astralrelay_online.Hub.Clients.{Client, lookup_clients}
use astralrelay_online.Hub
use astralrelay_online.Hub.{
  Frame, Event, TypingEvent, Published, offer, push_frame, push_to_clients, push_to_local,
  push_typing_to_local, push_delivery_to_local, push_read_to_local, run_broadcast, run_typing,
  publish, notify, notify_delivery, notify_read, notify_typing, receive, register, unregister,
  take_frame, on_broadcast, on_typing_broadcast, on_notify, on_typing, on_delivery, on_read,
}
use astralrelay_online.Hub.Steps.{
  Step, registers, unregisters, notifies, tells_delivery, tells_read, types, receives,
  runs_broadcast, runs_typing, writes, Reach, start, next,
}
use astralrelay_online.Hub.Sets.{Tidy, register_in-Tidy, unregister_in-Tidy}

-- No channel holds more than its capacity, and the sets are in order.
pub record IsSound (h : Hub.Hub) : Type 0 where
  pub broadcast : length h.broadcast ≤ 256
  pub typing : length h.typing_broadcast ≤ 64
  pub sent : (i : ℕ) → length (h.sent i) ≤ 256
  pub tidy : Tidy h.clients

offer-length : {A : Type 0} (n : ℕ) (q : List A) (x : A) → length q ≤ n → length (offer n q x) ≤ n
unfolding offer
offer-length n q x h = ground (arith, length-append q (x ∷ []))

push_frame-length :
    (m : Frame) (cs : List Client) (sent : ℕ → List Frame) (i : ℕ)
    → ((j : ℕ) → length (sent j) ≤ 256)
    → length (push_frame m cs sent i) ≤ 256
unfolding push_frame
push_frame-length m [] sent i h = h i
push_frame-length m (c ∷ cs) sent i h =
    push_frame-length m cs (λ j. if j == c.id then offer 256 (sent j) m else sent j) i
      (λ j. ground (arith, h j, offer-length 256 (sent j) m (h j)))

push_to_clients-IsSound :
    (m : Frame) (r : Text) (h : Hub.Hub) → IsSound h → IsSound (push_to_clients m r h)
unfolding push_to_clients
push_to_clients-IsSound m r h v = record {
  broadcast = v.broadcast;
  typing = v.typing;
  sent = λ i. push_frame-length m (lookup_clients r h.clients) h.sent i v.sent;
  tidy = v.tidy;
}

push_to_local-IsSound : (ev : Event) (h : Hub.Hub) → IsSound h → IsSound (push_to_local ev h)
unfolding push_to_local
push_to_local-IsSound ev h v = record {
  broadcast = offer-length 256 h.broadcast ev v.broadcast;
  typing = v.typing;
  sent = v.sent;
  tidy = v.tidy;
}

push_typing-IsSound :
    (te : TypingEvent) (h : Hub.Hub) → IsSound h → IsSound (push_typing_to_local te h)
unfolding push_typing_to_local
push_typing-IsSound te h v = record {
  broadcast = v.broadcast;
  typing = offer-length 64 h.typing_broadcast te v.typing;
  sent = v.sent;
  tidy = v.tidy;
}

publish-IsSound : (f : Bool) (p : Published) (h : Hub.Hub) → IsSound h → IsSound (publish f p h)
unfolding publish
publish-IsSound f p h v = record {
  broadcast = ground (arith, v.broadcast);
  typing = ground (arith, v.typing);
  sent = λ i. ground (arith, v.sent i);
  tidy = ground (arith, v.tidy);
}

on_broadcast-IsSound :
    (q : List Event) (h : Hub.Hub) → length q ≤ 256 → IsSound h → IsSound (on_broadcast q h)
unfolding on_broadcast
on_broadcast-IsSound [] h b v = v
on_broadcast-IsSound (ev ∷ evs) h b v =
    push_to_clients-IsSound _ ev.recipient _
      (record { broadcast = omega arith; typing = v.typing; sent = v.sent; tidy = v.tidy })

on_typing_broadcast-IsSound :
    (q : List TypingEvent) (h : Hub.Hub)
    → length q ≤ 64
    → IsSound h
    → IsSound (on_typing_broadcast q h)
unfolding on_typing_broadcast
on_typing_broadcast-IsSound [] h b v = v
on_typing_broadcast-IsSound (te ∷ tes) h b v =
    push_to_clients-IsSound _ te.recipient _
      (record { broadcast = v.broadcast; typing = omega arith; sent = v.sent; tidy = v.tidy })

receive-IsSound : (p : Published) (h : Hub.Hub) → IsSound h → IsSound (receive p h)
unfolding receive push_delivery_to_local push_read_to_local
receive-IsSound (on_notify ev) h v = push_to_local-IsSound ev h v
receive-IsSound (on_typing te) h v = push_typing-IsSound te h v
receive-IsSound (on_delivery r id status) h v = push_to_clients-IsSound _ r h v
receive-IsSound (on_read r id at) h v = push_to_clients-IsSound _ r h v

Step-IsSound : {h g : Hub.Hub} → Step h g → IsSound h → IsSound g
unfolding register unregister run_broadcast run_typing notify notify_delivery notify_read
    notify_typing take_frame
Step-IsSound {h} (registers c) v = record {
  broadcast = v.broadcast;
  typing = v.typing;
  sent = v.sent;
  tidy = register_in-Tidy c h.clients v.tidy;
}
Step-IsSound {h} (unregisters c) v = record {
  broadcast = v.broadcast;
  typing = v.typing;
  sent = v.sent;
  tidy = unregister_in-Tidy c h.clients v.tidy;
}
Step-IsSound {h} (notifies f r id) v = push_to_local-IsSound _ _ (publish-IsSound f _ h v)
Step-IsSound {h} (tells_delivery f r id status) v =
    unfold push_delivery_to_local in push_to_clients-IsSound _ r _ (publish-IsSound f _ h v)
Step-IsSound {h} (tells_read f r id at) v =
    unfold push_read_to_local in push_to_clients-IsSound _ r _ (publish-IsSound f _ h v)
Step-IsSound {h} (types f te) v = push_typing-IsSound te _ (publish-IsSound f _ h v)
Step-IsSound {h} (receives p) v = receive-IsSound p h v
Step-IsSound {h} runs_broadcast v = on_broadcast-IsSound h.broadcast h v.broadcast v
Step-IsSound {h} runs_typing v = on_typing_broadcast-IsSound h.typing_broadcast h v.typing v
Step-IsSound {h} (writes i) v = record {
  broadcast = v.broadcast;
  typing = v.typing;
  sent = λ j. ground (arith, v.sent j);
  tidy = v.tidy;
}

-- Whatever happens, with Redis or without: no channel holds more than its capacity, and every recipient
-- that has a set has clients in it, all different, and all its own.
pub Reach-IsSound : (redis : Bool) (h : Hub.Hub) → Reach redis h → IsSound h
Reach-IsSound redis h start = record {
  broadcast = omega arith;
  typing = omega arith;
  sent = λ i. omega arith;
  tidy = tt;
}
Reach-IsSound redis h (next r s) = Step-IsSound s (Reach-IsSound redis _ r)
