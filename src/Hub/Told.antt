-- ===== src/Hub/Told.antt =====
-- Which clients a hub of server/internal/stream/hub.go tells, and of what.
use astralrelay_online.Common.{
  ℕ, suc, ◌+◌, ◌≤◌, ◌≡◌, refl, ap, ◌∙◌, Bool, true, false, List, [], ◌∷◌, ◌++◌, if◌then◌else◌, ◌==◌,
  arith, length, length-append,
}
use astralrelay_online.Common.Text.{Text}
use astralrelay_online.Hub.Clients.{Client, lookup_clients, has_client}
use astralrelay_online.Hub
use astralrelay_online.Hub.{
  Frame, new_message, Event, Published, offer, push_frame, push_to_clients, push_to_local,
  run_broadcast, on_broadcast, publish, notify, receive, register, unregister, on_notify,
}
use astralrelay_online.Hub.Sets.{Distinct}

push_frame_once :
    (m : Frame) (cs : List Client) (sent : ℕ → List Frame) (i : ℕ)
    → Distinct cs
    → push_frame m cs sent i ≡ (if has_client i cs then offer 256 (sent i) m else sent i)
unfolding push_frame has_client
push_frame_once m [] sent i d = refl
push_frame_once m (c ∷ cs) sent i d = ground (
  arith,
  d.0,
  push_frame_once m cs (λ j. if j == c.id then offer 256 (sent j) m else sent j) i d.1,
)

if-eq :
    {A B : Type 0} (p : A → B) (b : Bool) (x y : A) (z : B)
    → p x ≡ z
    → p y ≡ z
    → p (if b then x else y) ≡ z
if-eq p true x y z h k = h
if-eq p false x y z h k = k

publish_keeps_part :
    {B : Type 0} (q : Hub.Hub → B) (f : Bool) (p : Published) (h : Hub.Hub)
    → q (record h { published = h.published ++ p ∷ [] }) ≡ q h
    → q (publish f p h) ≡ q h
unfolding publish
publish_keeps_part q f p h e = if-eq q h.has_redis _ h (q h) (if-eq q f h _ (q h) refl e) refl

publish_keeps :
    (f : Bool) (p : Published) (h : Hub.Hub)
    → let g = publish f p h in
      (g.broadcast ≡ h.broadcast) × (g.sent ≡ h.sent) × (g.clients ≡ h.clients)
publish_keeps f p h = (
  publish_keeps_part (λ g. g.broadcast) f p h refl,
  publish_keeps_part (λ g. g.sent) f p h refl,
  publish_keeps_part (λ g. g.clients) f p h refl,
)

notify_waits :
    (f : Bool) (r id : Text) (h : Hub.Hub)
    → h.broadcast ≡ []
    → (notify f r id h).broadcast ≡ record { recipient = r; event_id = id } ∷ []
unfolding notify push_to_local offer
notify_waits f r id h idle =
    let ev : Event = record { recipient = r; event_id = id } in
    rw ((publish_keeps f (on_notify ev) h).0, idle) refl

-- With nothing waiting, a notification that Run then handles gives the frame to exactly the clients of
-- the recipient, once, unless the client's channel is full; no other channel changes, and nothing is
-- left waiting.
pub notify_then_run :
    (f : Bool) (r id : Text) (h : Hub.Hub)
    → h.broadcast ≡ []
    → Distinct (lookup_clients r h.clients)
    → let g = run_broadcast (notify f r id h) in
      ((i : ℕ)
        → g.sent i ≡ (
            if has_client i (lookup_clients r h.clients)
            then offer 256 (h.sent i) (new_message id)
            else h.sent i))
      × (g.broadcast ≡ [])
      × (g.clients ≡ h.clients)
unfolding run_broadcast on_broadcast push_to_clients notify push_to_local
notify_then_run f r id h idle d =
    let ev : Event = record { recipient = r; event_id = id } in
    let (waiting, sent, clients) = publish_keeps f (on_notify ev) h in
    let same = ap (λ q. on_broadcast q (notify f r id h)) (notify_waits f r id h idle) in
    let told : (i : ℕ)
        → push_frame (new_message id) (lookup_clients r (publish f (on_notify ev) h).clients)
            (publish f (on_notify ev) h).sent i
          ≡ (if has_client i (lookup_clients r h.clients)
              then offer 256 (h.sent i) (new_message id)
              else h.sent i) =
      λ i.
        rw (clients, sent)
          (push_frame_once (new_message id) (lookup_clients r h.clients) h.sent i d) in
    (
      λ i. ap (λ g. g.sent i) same ∙ told i,
      ap (λ g. g.broadcast) same,
      ap (λ g. g.clients) same ∙ clients,
    )

offer_room :
    {A : Type 0} (n : ℕ) (q : List A) (x : A) → suc (length q) ≤ n → offer n q x ≡ q ++ x ∷ []
unfolding offer
offer_room n q x h = ground arith

append_two : {A : Type 0} (q : List A) (x y : A) → (q ++ x ∷ []) ++ y ∷ [] ≡ q ++ x ∷ y ∷ []
append_two [] x y = refl
append_two (a ∷ q) x y = ap (◌∷◌ a) (append_two q x y)

-- With Redis, a hub whose message is published is sent it back, and holds the event twice.
pub notify_published_twice :
    (r id : Text) (h : Hub.Hub)
    → h.has_redis ≡ true
    → length h.broadcast + 2 ≤ 256
    → let ev : Event = record { recipient = r; event_id = id } in
      let g = notify false r id h in
      (g.published ≡ h.published ++ on_notify ev ∷ [])
      × ((receive (on_notify ev) g).broadcast ≡ h.broadcast ++ ev ∷ ev ∷ [])
unfolding notify publish push_to_local receive
notify_published_twice r id h redis room =
    let ev : Event = record { recipient = r; event_id = id } in
    let once = offer_room 256 h.broadcast ev (omega arith) in
    let again =
      offer_room 256 (h.broadcast ++ ev ∷ []) ev
        (omega (arith, length-append h.broadcast (ev ∷ []))) in
    rw redis (refl, ap (λ q. offer 256 q ev) once ∙ again ∙ append_two h.broadcast ev ev)
