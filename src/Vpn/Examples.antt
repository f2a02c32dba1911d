-- ===== src/Vpn/Examples.antt =====
-- Tests of the model of server/internal/vpn, and its theorems at concrete inputs.
use astralrelay_online.Common.{
  ℕ, ◌≤◌, ◌≡◌, ◌≢◌, refl, Bool, true, false, not, ◌&&◌, Option, none, some, List, [], ◌∷◌, ◌==◌,
  arith, no_faults, ok, err, if◌then◌else◌,
}
use astralrelay_online.Common.Cuts.{Free}
use astralrelay_online.Common.Text.{
  lit, is_empty, is_space, text_eq, trim_space, trim_left, trim_right, has_prefix,
}
use astralrelay_online.Common.Decimal.{parse_int, parse_digits}
use astralrelay_online.Common.Int64.{slt, biased}
use astralrelay_online.Vpn.Tables.{
  wireguard, VpnPeer, VpnNode, VpnDb, find_peer, default_row, keyed,
}
use astralrelay_online.Vpn.Endpoints.{derive_ping_url, ping_url, last_index}
use astralrelay_online.Vpn.Nodes.{
  NodeConfig, clear_default, named_node, resolve_node, get_default_node, effective_wg_server_pubkey,
}
use astralrelay_online.Vpn.Configs.{
  VpnConfig, expired, VpnDraws, check_peer, old_address, expiry_days,
}
use astralrelay_online.Vpn.Xray.{Call, gets, revokes, run, get_config, parse_protocol}
use astralrelay_online.Vpn.Addresses.{IsPooled, apart, within, held}
use astralrelay_online.Vpn.Pool.{run-IsPooled}
use astralrelay_online.Vpn.Retry.{xray_retry, xray_retry_tries, last_error}

abbrev node_config : NodeConfig
node_config = record {
  wireguard_endpoint = lit "vpn.a.org:51820";
  wireguard_server_pubkey = lit "server";
  openvpn_endpoint = [];
  xray_endpoint = lit "vpn.a.org:443";
}

abbrev config : VpnConfig
config = record {
  enabled = true;
  default_expiry_days = 30;
  nodes = node_config;
  wireguard_enabled = true;
  stats_interface = lit "wg0";
  openvpn_enabled = true;
  xray_enabled = true;
  vmess_port = 0;
  vless_port = 8443;
  trojan_port = 0;
}

abbrev draws : VpnDraws
draws = record {
  keys = some (lit "priv", lit "pub");
  client_id = lit "id";
  password = none;
  stats = none;
}

abbrev amsterdam : VpnNode
amsterdam = record {
  id = 3;
  name = lit "Amsterdam";
  region = lit "EU";
  wireguard_endpoint = [];
  wireguard_server_pubkey = [];
  openvpn_endpoint = [];
  xray_endpoint = [];
  is_default = true;
}

abbrev paris : VpnNode
paris = record amsterdam { id = 4; name = lit "Paris" }

abbrev peer : ℕ → Option ℕ → VpnPeer
peer v address = record {
  user_id = 1;
  device_id = v;
  protocol = wireguard;
  client_pubkey = some (lit "old");
  client_address = address;
  xray_client_id = [];
  xray_trojan_password = [];
  expires_at = some 100;
  traffic_limit = 0;
  node_id = some 3;
}

abbrev tables : ℕ → VpnDb
tables n = record {
  nodes = amsterdam ∷ [];
  peers = peer 9 (some 2) ∷ [];
  default_expiry_days = some (lit "7");
  default_traffic_limit_mb = none;
  next_addr = n;
  removed = [];
}

expired_test :
    (get_config config no_faults draws 200 (lit "wireguard") 1 9 none (tables 3)).1 ≡ err expired
unfolding get_config parse_protocol text_eq check_peer find_peer keyed
expired_test = refl

days_test : expiry_days config false (tables 3) ≡ 7
unfolding expiry_days parse_int parse_digits slt biased
days_test = refl

ping_test : derive_ping_url (lit "vpn.a.org:51820") [] [] ≡ lit "https://vpn.a.org/"
unfolding derive_ping_url ping_url last_index trim_space trim_left trim_right is_space has_prefix
ping_test = refl

tables-IsPooled : IsPooled (tables 3)
unfolding apart within held
tables-IsPooled = record {
  distinct = refl;
  given = refl;
  least = ground arith;
  last = ground arith;
}

abbrev calls : List Call
calls =
    gets config no_faults draws 50 (lit "wireguard") 1 8 none
    ∷ revokes false 1 9 wireguard
    ∷ gets config no_faults draws 60 (lit "vless") 1 8 none
    ∷ []

run-IsPooled_example : IsPooled (run (tables 3) calls)
run-IsPooled_example = run-IsPooled (tables 3) calls tables-IsPooled

key_test : is_empty (effective_wg_server_pubkey node_config amsterdam) ≡ false
unfolding effective_wg_server_pubkey
key_test = refl

nobody_test : old_address (find_peer 1 8 wireguard (tables 254).peers) ≡ none
unfolding find_peer keyed
nobody_test = refl

abbrev letter : ℕ
letter = b'v'

not_bracket : letter ≢ b'['
not_bracket = ground arith

no_colon : Free b':' (lit "443")
no_colon = (ground arith, (ground arith, (ground arith, tt)))

unnamed_test : named_node (lit "Paris") (clear_default (λ x. true) (amsterdam ∷ [])) ≡ false
unfolding named_node clear_default text_eq
unnamed_test = refl

protocol_test : parse_protocol (lit "wireguard") ≡ some wireguard
unfolding parse_protocol text_eq
protocol_test = refl

node_test : resolve_node node_config false false none (tables 3).nodes ≡ some amsterdam
unfolding resolve_node get_default_node default_row
node_test = refl

abbrev twice_down : ℕ → Bool
twice_down i = not (i == 2)

xray_retry_tries_example :
    ((xray_retry true twice_down no_faults).1
      ≡ (if twice_down 0 && twice_down 1 && twice_down 2 then err last_error else ok tt))
    × ((xray_retry true twice_down no_faults).0 ≤ 600)
xray_retry_tries_example = xray_retry_tries twice_down no_faults (λ i. refl)
