-- ===== src/Vpn/Xray.antt =====
-- server/internal/vpn/service.go: the configurations for Xray, GetConfig over all kinds, and Revoke.
use astralrelay_online.Common.{
  ℕ, Bool, true, false, not, Option, none, some, List, [], ◌∷◌, ◌++◌, ltb, if◌then◌else◌, keep_if,
  Faults, Result, ok, err,
}
use astralrelay_online.Common.Text.{Text, lit, is_empty, text_eq}
use astralrelay_online.Common.Decimal.{itoa}
use astralrelay_online.Vpn.Tables.{
  Protocol, wireguard, openvpn_tcp443, vmess, vless, trojan, VpnPeer, VpnNode, VpnDb, keyed,
  find_peer, put_peer,
}
use astralrelay_online.Vpn.Endpoints.{parse_host_port}
use astralrelay_online.Vpn.Nodes.{resolve_node, effective_xray_endpoint}
use astralrelay_online.Vpn.Configs.{
  VpnConfig, VpnError, vpn_disabled, no_node, xray_off, no_endpoint, no_password, unknown_protocol,
  db_failed, Config, xray_link, VpnDraws, expiry_days, expires_after, node_ref, if_read, check_peer,
  get_wireguard_config, get_openvpn_config,
}

-- The column of a peer that an Xray protocol uses.
abbrev pub credential : Protocol → VpnPeer → Text
credential trojan x = x.xray_trojan_password
credential _ x = x.xray_client_id

abbrev pub set_credential : Protocol → Text → VpnPeer → VpnPeer
set_credential trojan s x = record x { xray_trojan_password = s }
set_credential _ s x = record x { xray_client_id = s }

abbrev pub drawn_credential : Protocol → VpnDraws → Option Text
drawn_credential trojan r = r.password
drawn_credential _ r = some r.client_id

abbrev pub stored_credential : Protocol → Option VpnPeer → Text
stored_credential p none = []
stored_credential p (some x) = credential p x

abbrev pub renew : Protocol → Text → ℕ → Option ℕ → VpnPeer → VpnPeer
renew p s expires node x =
    set_credential p s (record x { expires_at = some expires; node_id = node })

abbrev pub bare_peer : ℕ → ℕ → Protocol → VpnPeer
bare_peer u v p = record {
  user_id = u;
  device_id = v;
  protocol = p;
  client_pubkey = none;
  client_address = none;
  xray_client_id = [];
  xray_trojan_password = [];
  expires_at = none;
  traffic_limit = 0;
  node_id = none;
}

-- The credential that is stored, or a new one that is stored then.
unfoldable pub take_credential :
    VpnConfig
    → Faults
    → VpnDraws
    → ℕ
    → ℕ
    → ℕ
    → Protocol
    → VpnNode
    → VpnDb
    → VpnDb × Result VpnError Text
take_credential cfg f r now u v p node d =
    let stored = stored_credential p (if_read (f 9) (find_peer u v p d.peers)) in
    if not (is_empty stored) then (d, ok stored) else elim (drawn_credential p r) [
      | none ↦ (d, err no_password)
      | some s ↦
          let update = renew p s (expires_after now (expiry_days cfg (f 6) d)) (node_ref node) in
          if f 8
          then (d, err db_failed)
          else (record d { peers = put_peer (update (bare_peer u v p)) update d.peers }, ok s)
    ]

abbrev port_or : ℕ → Text → Text
port_or n s = if ltb 0 n then itoa n else s

-- xrayPort
unfoldable pub xray_port : VpnConfig → Protocol → Text → Text
xray_port cfg vmess s = port_or cfg.vmess_port s
xray_port cfg vless s = port_or cfg.vless_port s
xray_port cfg trojan s = port_or cfg.trojan_port s
xray_port cfg _ s = s

-- getVMessConfig, getVLESSConfig and getTrojanConfig
unfoldable pub get_xray_config :
    VpnConfig
    → Faults
    → VpnDraws
    → ℕ
    → ℕ
    → ℕ
    → Protocol
    → VpnNode
    → VpnDb
    → VpnDb × Result VpnError Config
get_xray_config cfg f r now u v p node d =
    let endpoint = effective_xray_endpoint cfg.nodes node in
    if not cfg.xray_enabled
    then (d, err xray_off)
    else if is_empty endpoint
    then (d, err no_endpoint)
    else let taken = take_credential cfg f r now u v p node d in
      elim taken.1 [
        | err e ↦ (taken.0, err e)
        | ok s ↦
            let at = parse_host_port endpoint in
            (
              taken.0,
              ok (xray_link p s at.0 (xray_port cfg p at.1) (lit "messenger-" ++ node.name)),
            )
      ]

unfoldable pub parse_protocol : Text → Option Protocol
parse_protocol s =
    if text_eq s (lit "wireguard")
    then some wireguard
    else if text_eq s (lit "openvpn-tcp443")
    then some openvpn_tcp443
    else if text_eq s (lit "vmess")
    then some vmess
    else if text_eq s (lit "vless")
    then some vless
    else if text_eq s (lit "trojan")
    then some trojan
    else none

-- The switch of GetConfig.
unfoldable pub config_for :
    VpnConfig
    → Faults
    → VpnDraws
    → ℕ
    → ℕ
    → ℕ
    → Protocol
    → VpnNode
    → VpnDb
    → VpnDb × Result VpnError Config
config_for cfg f r now u v wireguard node d = get_wireguard_config cfg f r now u v node d
config_for cfg f r now u v openvpn_tcp443 node d = (d, get_openvpn_config cfg node)
config_for cfg f r now u v p node d = get_xray_config cfg f r now u v p node d

abbrev pub peer_for : ℕ → ℕ → Option Protocol → List VpnPeer → Option VpnPeer
peer_for u v none ps = none
peer_for u v (some p) ps = find_peer u v p ps

unfoldable pub get_config :
    VpnConfig
    → Faults
    → VpnDraws
    → ℕ
    → Text
    → ℕ
    → ℕ
    → Option ℕ
    → VpnDb
    → VpnDb × Result VpnError Config
get_config cfg f r now protocol u v node_id d =
    if not cfg.enabled
    then (d, err vpn_disabled)
    else let p = parse_protocol protocol in
      elim (check_peer now r.stats (if_read (f 0) (peer_for u v p d.peers))) [
        | err e ↦ (d, err e)
        | ok _ ↦ elim (resolve_node cfg.nodes (f 1) (f 2) node_id d.nodes) [
          | none ↦ (d, err no_node)
          | some node ↦ elim p [
            | none ↦ (d, err unknown_protocol)
            | some q ↦ config_for cfg f r now u v q node d
          ]
        ]
      ]

-- Revoke
unfoldable pub revoke : Bool → ℕ → ℕ → Protocol → VpnDb → VpnDb × Bool
revoke fails u v p d =
    if fails
    then (d, false)
    else (record d { peers = keep_if (λ x. not (keyed u v p x)) d.peers }, true)

-- GetConfig and Revoke, as calls.
pub data Call : Type 0 where
  gets : VpnConfig → Faults → VpnDraws → ℕ → Text → ℕ → ℕ → Option ℕ → Call
  revokes : Bool → ℕ → ℕ → Protocol → Call

unfoldable pub step : VpnDb → Call → VpnDb
step d (gets cfg f r now protocol u v node_id) = (get_config cfg f r now protocol u v node_id d).0
step d (revokes fails u v p) = (revoke fails u v p d).0

unfoldable pub run : VpnDb → List Call → VpnDb
run d [] = d
run d (c ∷ cs) = run (step d c) cs
