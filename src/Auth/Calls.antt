-- ===== src/Auth/Calls.antt =====
-- The calls of server/internal/auth/auth.go that change the tables, as steps in any order.
use astralrelay_online.Common.{ℕ, Bool, Option, List, [], ◌∷◌, Faults}
use astralrelay_online.Common.Text.{Text}
use astralrelay_online.Auth.Tables.{Store}
use astralrelay_online.Auth.Tokens.{Service, revoke_token}
use astralrelay_online.Auth.Accounts.{Drawn, RegisterInput, register, store_key_backup}
use astralrelay_online.Auth.Login.{LoginInput, login}
use astralrelay_online.Auth.Devices.{rename_device, revoke_device, cleanup_expired_tokens}
use astralrelay_online.Auth.Proxy.{ProxySession, create_proxy_session, get_proxy_session}

-- A call, with its outcomes, its draws and the clock.
pub data Call : Type 0 where
  registers : Faults → Drawn → ℕ → RegisterInput → Call
  logs_in : Faults → Drawn → ℕ → LoginInput → Call
  backs_up : Faults → Drawn → ℕ → Text → Text → Call
  revokes : Bool → Bool → ℕ → ℕ → Text → Call
  renames : Bool → ℕ → ℕ → Text → Call
  drops : Bool → Bool → ℕ → ℕ → ℕ → Call
  cleans : ℕ → Call
  opens_session : Option Text → Bool → ℕ → ProxySession → ℕ → Call
  reads_session : Bool → Bool → ℕ → Text → Call

unfoldable pub step : Service → Store → Call → Store
step s st (registers f r now in') = (register s f r now in' st).0
step s st (logs_in f r now in') = (login s f r now in' st).0
step s st (backs_up f r u salt bundle) = (store_key_backup s f r u salt bundle st).0
step s st (revokes fails update_fails now later t) = record st {
  tokens = (revoke_token s fails update_fails now later t st.tokens).0;
}
step s st (renames fails u v name) = (rename_device fails u v name st).0
step s st (drops update_fails delete_fails now u v) =
    (revoke_device update_fails delete_fails now u v st).0
step s st (cleans now) = record st { tokens = cleanup_expired_tokens now st.tokens }
step s st (opens_session b fails now p expires_in) =
    (create_proxy_session s b fails now p expires_in st).0
step s st (reads_session fails delete_fails now token) =
    (get_proxy_session s fails delete_fails now token st).0

unfoldable pub run : Service → Store → List Call → Store
run s st [] = st
run s st (c ∷ cs) = run s (step s st c) cs
