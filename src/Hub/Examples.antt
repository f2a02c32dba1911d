-- ===== src/Hub/Examples.antt =====
-- Tests of the model of server/internal/stream/hub.go, and its theorems at concrete inputs.
use astralrelay_online.Common.{ℕ, ◌≡◌, refl, true, false, [], ◌∷◌, if◌then◌else◌}
use astralrelay_online.Common.Text.{lit, text_eq}
use astralrelay_online.Hub.Clients.{Client, lookup_clients, has_client, register_in}
use astralrelay_online.Hub
use astralrelay_online.Hub.{
  Event, offer, new_message, run_broadcast, notify, receive, register, unregister, on_notify,
}
use astralrelay_online.Hub.Steps.{
  registers, notifies, runs_broadcast, unregisters, new_hub, Reach, start, next,
}
use astralrelay_online.Hub.Bounds.{IsSound, Reach-IsSound}
use astralrelay_online.Hub.Told.{notify_then_run}

abbrev ann : Client
ann = record { id = 1; recipient = lit "@a:x"; sender = lit "@a:x" }

abbrev bob : Client
bob = record { id = 2; recipient = lit "@a:x"; sender = lit "@b:x" }

abbrev busy : Hub.Hub
busy = register ann (new_hub true)

abbrev history :
    Reach true (unregister ann (run_broadcast (notify false (lit "@a:x") (lit "e") busy)))
history =
    next
      (next (next (next start (registers ann)) (notifies false (lit "@a:x") (lit "e")))
        runs_broadcast)
      (unregisters ann)

Reach-IsSound_example :
    IsSound (unregister ann (run_broadcast (notify false (lit "@a:x") (lit "e") busy)))
Reach-IsSound_example =
    Reach-IsSound true (unregister ann (run_broadcast (notify false (lit "@a:x") (lit "e") busy)))
      history

notify_then_run_example :
    let g = run_broadcast (notify false (lit "@a:x") (lit "e") busy) in
    ((i : ℕ)
      → g.sent i ≡ (if has_client i (ann ∷ []) then offer 256 [] (new_message (lit "e")) else []))
    × (g.broadcast ≡ [])
    × (g.clients ≡ busy.clients)
unfolding register register_in lookup_clients text_eq has_client
notify_then_run_example = notify_then_run false (lit "@a:x") (lit "e") busy refl (refl, tt)
