-- ===== src/Vpn/Configs.antt =====
-- server/internal/vpn/service.go: GetConfig with its kinds of configuration, and Revoke. The date of expiry
-- is so many times 24 hours away. An Xray link is kept as its parts.
use astralrelay_online.Common.{
  ℕ, suc, ◌+◌, ◌*◌, ◌%◌, ◌^◌, Bool, false, not, ◌&&◌, ◌||◌, Option, none, some, List, [], ◌∷◌, ◌++◌,
  ◌==◌, ltb, if◌then◌else◌, Faults, Result, ok, err,
}
use astralrelay_online.Common.Text.{Text, lit, is_empty, text_eq}
use astralrelay_online.Common.Int64.{add64, slt}
use astralrelay_online.Common.Decimal.{itoa, parse_int}
use astralrelay_online.Vpn.Tables.{
  Protocol, wireguard, same_protocol, VpnPeer, VpnNode, VpnDb, find_peer, put_peer, next_address,
}
use astralrelay_online.Vpn.Endpoints.{build_wireguard_conf}
use astralrelay_online.Vpn.Nodes.{
  NodeConfig, effective_wg_endpoint, effective_wg_server_pubkey, effective_openvpn_endpoint,
}

-- config.VPNConfig; a port that is 0 is not set.
pub record VpnConfig : Type 0 where
  pub enabled : Bool
  pub default_expiry_days : ℕ
  pub nodes : NodeConfig
  pub wireguard_enabled : Bool
  pub stats_interface : Text
  pub openvpn_enabled : Bool
  pub xray_enabled : Bool
  pub vmess_port : ℕ
  pub vless_port : ℕ
  pub trojan_port : ℕ

pub data VpnError : Type 0 where
  vpn_disabled expired traffic_exceeded no_node wireguard_off no_keys pool_exhausted : VpnError
  openvpn_off xray_off no_endpoint no_password unknown_protocol db_failed : VpnError

pub data Config : Type 0 where
  wireguard_conf openvpn_note : Text → Config
  xray_link : Protocol → Text → Text → Text → Text → Config

-- What is drawn or answered outside: a key pair, an Xray client, a Trojan password, and `wg show` with
-- the bytes received and sent under a key.
pub record VpnDraws : Type 0 where
  pub keys : Option (Text × Text)
  pub client_id : Text
  pub password : Option Text
  pub stats : Option (Text → Option (ℕ × ℕ))

abbrev config_days : VpnConfig → ℕ
config_days cfg = if slt 0 cfg.default_expiry_days then cfg.default_expiry_days else 30

abbrev days_or : VpnConfig → Option ℕ → ℕ
days_or cfg none = config_days cfg
days_or cfg (some d) = if slt 0 d then d else config_days cfg

abbrev read_int : Bool → Option Text → Option ℕ
read_int fails none = none
read_int fails (some v) = if fails then none else parse_int v

-- getDefaultExpiryDays
unfoldable pub expiry_days : VpnConfig → Bool → VpnDb → ℕ
expiry_days cfg fails d = days_or cfg (read_int fails d.default_expiry_days)

-- getDefaultTrafficLimitBytes, with the product's wrap-around
unfoldable pub traffic_limit_bytes : Bool → VpnDb → ℕ
traffic_limit_bytes fails d = elim (read_int fails d.default_traffic_limit_mb) [
  | none ↦ 0
  | some mb ↦ if slt 0 mb then (mb * 1024 * 1024) % 2 ^ 64 else 0
]

abbrev pub expires_after : ℕ → ℕ → ℕ
expires_after now days = now + days * 24 * 3600

abbrev pub node_ref : VpnNode → Option ℕ
node_ref n = if n.id == 0 then none else some n.id

abbrev is_past : ℕ → Option ℕ → Bool
is_past now none = false
is_past now (some e) = ltb e now

abbrev used_up : ℕ → Option (ℕ × ℕ) → Bool
used_up limit none = false
used_up limit (some (rx, tx)) = not (slt (add64 rx tx) limit)

abbrev over_limit : Option (Text → Option (ℕ × ℕ)) → VpnPeer → Bool
over_limit none x = false
over_limit (some stats) x = elim x.client_pubkey [
  | none ↦ false
  | some key ↦ slt 0 x.traffic_limit && used_up x.traffic_limit (stats key)
]

-- The checks of GetConfig on the peer that is there.
unfoldable pub check_peer :
    ℕ → Option (Text → Option (ℕ × ℕ)) → Option VpnPeer → Result VpnError (Unit {0})
check_peer now stats none = ok tt
check_peer now stats (some x) =
    if is_past now x.expires_at
    then err expired
    else if same_protocol x.protocol wireguard && over_limit stats x
    then err traffic_exceeded
    else ok tt

unfoldable pub ipv4_of : ℕ → Text
ipv4_of n = lit "10.66.66." ++ (itoa n ++ lit "/32")

abbrev pub old_key : Option VpnPeer → Option Text
old_key none = none
old_key (some x) = x.client_pubkey

abbrev pub old_address : Option VpnPeer → Option ℕ
old_address none = none
old_address (some x) = x.client_address

-- RemoveWGPeer of the key that the peer had, if there is one and it is another.
abbrev pub retired : VpnConfig → Text → Option Text → List Text → List Text
retired cfg key none gone = gone
retired cfg key (some old) gone =
    if is_empty old || text_eq old key || is_empty cfg.stats_interface then gone else old ∷ gone

-- The address of the peer, or the next one of the pool; the sequence is counted up at once.
unfoldable pub choose_address : Bool → Option ℕ → VpnDb → VpnDb × Option ℕ
choose_address fails (some n) d = (d, some n)
choose_address fails none d = if fails then (d, none) else elim (next_address d) [
  | none ↦ (d, none)
  | some n ↦ (record d { next_addr = suc n }, some n)
]

abbrev pub if_read {ℓ} : {A : Type ℓ} → Bool → Option A → Option A
if_read fails o = if fails then none else o

abbrev pub coalesce : Option ℕ → ℕ → Option ℕ
coalesce none n = some n
coalesce (some m) n = some m

abbrev pub wg_row : ℕ → ℕ → Text → ℕ → ℕ → ℕ → Option ℕ → VpnPeer
wg_row u v key n expires limit node = record {
  user_id = u;
  device_id = v;
  protocol = wireguard;
  client_pubkey = some key;
  client_address = some n;
  xray_client_id = [];
  xray_trojan_password = [];
  expires_at = some expires;
  traffic_limit = limit;
  node_id = node;
}

abbrev pub wg_update : VpnPeer → ℕ → VpnPeer → VpnPeer
wg_update new n x = record new {
  client_address = coalesce x.client_address n;
  xray_client_id = x.xray_client_id;
  xray_trojan_password = x.xray_trojan_password;
}

-- The end of getWireGuardConfig, for an address.
unfoldable pub store_wireguard :
    VpnConfig
    → Faults
    → ℕ
    → ℕ
    → ℕ
    → VpnNode
    → Text
    → Text
    → VpnDb
    → ℕ
    → VpnDb × Result VpnError Config
store_wireguard cfg f now u v node priv key d n =
    let expires = expires_after now (expiry_days cfg (f 6) d) in
    let new = wg_row u v key n expires (traffic_limit_bytes (f 7) d) (node_ref node) in
    if f 8 then (d, err db_failed) else (
      record d { peers = put_peer new (wg_update new n) d.peers },
      ok (
          wireguard_conf (
            build_wireguard_conf priv (effective_wg_server_pubkey cfg.nodes node)
              (effective_wg_endpoint cfg.nodes node) (ipv4_of n))),
    )

abbrev pub with_address :
    VpnConfig
    → Faults
    → ℕ
    → ℕ
    → ℕ
    → VpnNode
    → Text
    → Text
    → VpnDb × Option ℕ
    → VpnDb × Result VpnError Config
with_address cfg f now u v node priv key (d, none) = (d, err pool_exhausted)
with_address cfg f now u v node priv key (d, some n) =
    store_wireguard cfg f now u v node priv key d n

-- getWireGuardConfig after a key pair is made.
unfoldable pub issue_wireguard :
    VpnConfig → Faults → ℕ → ℕ → ℕ → VpnNode → Text → Text → VpnDb → VpnDb × Result VpnError Config
issue_wireguard cfg f now u v node priv key d =
    let peer = find_peer u v wireguard d.peers in
    let d' : VpnDb = record d {
      removed = retired cfg key (old_key (if_read (f 3) peer)) d.removed;
    } in
    with_address cfg f now u v node priv key
      (choose_address (f 5) (old_address (if_read (f 4) peer)) d')

-- getWireGuardConfig
unfoldable pub get_wireguard_config :
    VpnConfig → Faults → VpnDraws → ℕ → ℕ → ℕ → VpnNode → VpnDb → VpnDb × Result VpnError Config
get_wireguard_config cfg f r now u v node d =
    if not cfg.wireguard_enabled || is_empty (effective_wg_server_pubkey cfg.nodes node)
    then (d, err wireguard_off)
    else elim r.keys [
      | none ↦ (d, err no_keys)
      | some (priv, key) ↦ issue_wireguard cfg f now u v node priv key d
    ]

-- getOpenVPNConfig, of whose text the endpoint is kept.
unfoldable pub get_openvpn_config : VpnConfig → VpnNode → Result VpnError Config
get_openvpn_config cfg node =
    if not cfg.openvpn_enabled
    then err openvpn_off
    else ok (openvpn_note (effective_openvpn_endpoint cfg.nodes node))
