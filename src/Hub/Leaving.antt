-- ===== src/Hub/Leaving.antt =====
-- A client of server/internal/stream/hub.go that connects and leaves again.
use astralrelay_online.Common.{
  ℕ, ◌≡◌, ◌≢◌, refl, inl, inr, ap, false, List, [], ◌∷◌, ◌++◌, if◌then◌else◌, ◌==◌, arith,
  Bool-cases,
}
use astralrelay_online.Common.Text.{Text, text_eq, text_eq_refl}
use astralrelay_online.Hub.Clients.{
  Client, ClientSets, lookup_clients, has_client, delete_client, register_in, unregister_in,
  kept_set,
}
use astralrelay_online.Hub
use astralrelay_online.Hub.{
  Frame, new_message, Event, Published, offer, push_frame, push_to_clients, push_to_local,
  run_broadcast, on_broadcast, publish, notify, receive, register, unregister, on_notify,
}
use astralrelay_online.Hub.Sets.{Distinct, Tidy}

push_frame_once :
    (m : Frame) (cs : List Client) (sent : ℕ → List Frame) (i : ℕ)
    → Distinct cs
    → push_frame m cs sent i ≡ (if has_client i cs then offer 256 (sent i) m else sent i)
unfolding push_frame has_client
push_frame_once m [] sent i d = refl
push_frame_once m (c ∷ cs) sent i d = ground (
  arith,
  d.0,
  push_frame_once m cs (λ j. if j == c.id then offer 256 (sent j) m else sent j) i d.1,
)

delete_client-append :
    (c : Client) (cs : List Client)
    → has_client c.id cs ≡ false
    → delete_client c.id (cs ++ c ∷ []) ≡ cs
unfolding delete_client has_client
delete_client-append c [] h = ground arith
delete_client-append c (x ∷ cs) h = ground (arith, delete_client-append c cs)

kept_set_full :
    (k : Text) (cs : List Client) (m : ClientSets) → cs ≢ [] → kept_set k cs m ≡ (k, cs) ∷ m
kept_set_full k [] m h = absurd (h refl)
kept_set_full k (c ∷ cs) m h = refl

unregister_in-register_in :
    (c : Client) (m : ClientSets)
    → Tidy m
    → has_client c.id (lookup_clients c.recipient m) ≡ false
    → unregister_in c (register_in c m) ≡ m
unfolding unregister_in register_in lookup_clients
unregister_in-register_in c [] t new = ground (arith, text_eq_refl c.recipient)
unregister_in-register_in c ((k, cs) ∷ m) ((full, apart, mine), rest) new =
    elim (Bool-cases (text_eq k c.recipient)) [
      | inr other ↦
          rw (other, other)
            (ap (◌∷◌ (k, cs)) (unregister_in-register_in c m rest (rw other at new)))
      | inl here ↦
          let fresh : has_client c.id cs ≡ false = rw here at new in
          rw (here, fresh, here, delete_client-append c cs fresh) (kept_set_full k cs m full)
    ]

-- A client that connects and leaves again leaves the hub as it was, if the sets are in order and the
-- client was not in its recipient's.
pub unregister-register :
    (c : Client) (h : Hub.Hub)
    → Tidy h.clients
    → has_client c.id (lookup_clients c.recipient h.clients) ≡ false
    → unregister c (register c h) ≡ h
unfolding unregister register
unregister-register c h t new =
    ap (λ m. record h { clients = m }) (unregister_in-register_in c h.clients t new)
