-- ===== src/Vpn/Tables.antt =====
-- The tables vpn_peers, vpn_nodes and vpn_settings (db/migrations) with the sequence of addresses, and
-- the statements of server/internal/vpn on them. Times are seconds; a UUID is a number, 0 the nil one.
use astralrelay_online.Common.{
  ℕ, Bool, true, false, ◌&&◌, Option, none, some, List, [], ◌∷◌, ◌==◌, ltb, if◌then◌else◌,
}
use astralrelay_online.Common.Text.{Text}

pub data Protocol : Type 0 where
  wireguard openvpn_tcp443 vmess vless trojan : Protocol

abbrev pub same_protocol : Protocol → Protocol → Bool
same_protocol wireguard wireguard = true
same_protocol openvpn_tcp443 openvpn_tcp443 = true
same_protocol vmess vmess = true
same_protocol vless vless = true
same_protocol trojan trojan = true
same_protocol _ _ = false

-- A row of vpn_peers. An address 10.66.66.n/32 is its n; a text that is NULL is empty.
pub record VpnPeer : Type 0 where
  pub user_id : ℕ
  pub device_id : ℕ
  pub protocol : Protocol
  pub client_pubkey : Option Text
  pub client_address : Option ℕ
  pub xray_client_id : Text
  pub xray_trojan_password : Text
  pub expires_at : Option ℕ
  pub traffic_limit : ℕ
  pub node_id : Option ℕ

pub record VpnNode : Type 0 where
  pub id : ℕ
  pub name : Text
  pub region : Text
  pub wireguard_endpoint : Text
  pub wireguard_server_pubkey : Text
  pub openvpn_endpoint : Text
  pub xray_endpoint : Text
  pub is_default : Bool

-- `next_addr` is what vpn_wg_addr_seq gives next. `removed` are the keys that were taken off the
-- WireGuard interface, newest first.
pub record VpnDb : Type 0 where
  pub nodes : List VpnNode
  pub peers : List VpnPeer
  pub default_expiry_days : Option Text
  pub default_traffic_limit_mb : Option Text
  pub next_addr : ℕ
  pub removed : List Text

-- user_id = u AND device_id = v AND protocol = p
unfoldable pub keyed : ℕ → ℕ → Protocol → VpnPeer → Bool
keyed u v p x = (x.user_id == u) && (x.device_id == v) && same_protocol x.protocol p

unfoldable pub find_peer : ℕ → ℕ → Protocol → List VpnPeer → Option VpnPeer
find_peer u v p [] = none
find_peer u v p (x ∷ xs) = if keyed u v p x then some x else find_peer u v p xs

-- INSERT … ON CONFLICT (user_id, device_id, protocol) DO UPDATE
unfoldable pub put_peer : VpnPeer → (VpnPeer → VpnPeer) → List VpnPeer → List VpnPeer
put_peer new update [] = new ∷ []
put_peer new update (x ∷ xs) =
    let rest = put_peer new update xs in
    if keyed new.user_id new.device_id new.protocol x then update x ∷ xs else x ∷ rest

unfoldable pub find_node : ℕ → List VpnNode → Option VpnNode
find_node i [] = none
find_node i (x ∷ xs) = if x.id == i then some x else find_node i xs

-- ORDER BY is_default DESC NULLS LAST LIMIT 1
abbrev first_of : VpnNode → Option VpnNode → VpnNode
first_of x none = x
first_of x (some y) = if x.is_default then x else if y.is_default then y else x

unfoldable pub default_row : List VpnNode → Option VpnNode
default_row [] = none
default_row (x ∷ xs) = some (first_of x (default_row xs))

-- nextval('vpn_wg_addr_seq'), of which the last value is 253
unfoldable pub next_address : VpnDb → Option ℕ
next_address d = if ltb 253 d.next_addr then none else some d.next_addr
