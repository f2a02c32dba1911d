-- ===== src/Vpn/Nodes.antt =====
-- server/internal/vpn/nodes.go: the nodes, and which one a configuration is for. Of the two statements
-- that make a node the default one, the first may fail unseen; idx_vpn_nodes_default then refuses the
-- second.
use astralrelay_online.Common.{
  ℕ, suc, ◌+◌, Bool, true, false, not, ◌&&◌, ◌||◌, Option, none, some, List, [], ◌∷◌, ◌++◌, ◌==◌,
  if◌then◌else◌, ltb, map, keep_if,
}
use astralrelay_online.Common.Text.{Text, lit, is_empty, text_eq}
use astralrelay_online.Vpn.Tables.{VpnNode, VpnPeer, VpnDb, find_node, default_row}

pub record NodeConfig : Type 0 where
  pub wireguard_endpoint : Text
  pub wireguard_server_pubkey : Text
  pub openvpn_endpoint : Text
  pub xray_endpoint : Text

abbrev synthetic : NodeConfig → VpnNode
synthetic c = record {
  id = 0;
  name = lit "Default";
  region = [];
  wireguard_endpoint = c.wireguard_endpoint;
  wireguard_server_pubkey = c.wireguard_server_pubkey;
  openvpn_endpoint = c.openvpn_endpoint;
  xray_endpoint = c.xray_endpoint;
  is_default = true;
}

-- GetDefaultNode; `none` is an error of the database.
unfoldable pub get_default_node : NodeConfig → Bool → List VpnNode → Option VpnNode
get_default_node c fails nodes =
    if fails then none else elim (default_row nodes) [ none ↦ some (synthetic c) | some n ↦ some n ]

unfoldable pub get_node : Bool → ℕ → List VpnNode → Option VpnNode
get_node fails i nodes = if fails then none else find_node i nodes

unfoldable pub resolve_node : NodeConfig → Bool → Bool → Option ℕ → List VpnNode → Option VpnNode
resolve_node c get_fails default_fails none nodes = get_default_node c default_fails nodes
resolve_node c get_fails default_fails (some i) nodes =
    if i == 0 then get_default_node c default_fails nodes else elim (get_node get_fails i nodes) [
      | some n ↦ some n
      | none ↦ get_default_node c default_fails nodes
    ]

-- x, or the configuration's y where x is empty
abbrev pub or_else : Text → Text → Text
or_else x y = if not (is_empty x) then x else y

unfoldable pub effective_wg_endpoint : NodeConfig → VpnNode → Text
effective_wg_endpoint c n = or_else n.wireguard_endpoint c.wireguard_endpoint

unfoldable pub effective_wg_server_pubkey : NodeConfig → VpnNode → Text
effective_wg_server_pubkey c n = or_else n.wireguard_server_pubkey c.wireguard_server_pubkey

unfoldable pub effective_openvpn_endpoint : NodeConfig → VpnNode → Text
effective_openvpn_endpoint c n = or_else n.openvpn_endpoint c.openvpn_endpoint

unfoldable pub effective_xray_endpoint : NodeConfig → VpnNode → Text
effective_xray_endpoint c n = or_else n.xray_endpoint c.xray_endpoint

unfoldable pub has_default : List VpnNode → Bool
has_default [] = false
has_default (x ∷ xs) = x.is_default || has_default xs

-- UPDATE vpn_nodes SET is_default = FALSE WHERE …
unfoldable pub clear_default : (VpnNode → Bool) → List VpnNode → List VpnNode
clear_default p [] = []
clear_default p (x ∷ xs) = (if p x then record x { is_default = false } else x) ∷ clear_default p xs

unfoldable pub named_node : Text → List VpnNode → Bool
named_node s [] = false
named_node s (x ∷ xs) = text_eq x.name s || named_node s xs

abbrev if_default : Bool → Bool → (VpnNode → Bool) → List VpnNode → List VpnNode
if_default is_default fails p nodes =
    if is_default && not fails then clear_default p nodes else nodes

abbrev pub without_xray : VpnNode → VpnNode
without_xray n = record n { xray_endpoint = [] }

-- The first statement of CreateNode, and its INSERT without an xray_endpoint, which the index on is_default, the one on name or
-- another error may refuse.
unfoldable pub create_node : Bool → Bool → VpnNode → List VpnNode → List VpnNode × Option VpnNode
create_node clear_fails insert_fails n nodes =
    let cleared = if_default n.is_default clear_fails (λ x. true) nodes in
    if insert_fails || named_node n.name cleared || (n.is_default && has_default cleared)
    then (cleared, none)
    else (cleared ++ without_xray n ∷ [], some (without_xray n))

abbrev other_than : ℕ → VpnNode → Bool
other_than i x = not (x.id == i)

abbrev is_node : ℕ → List VpnNode → Bool
is_node i nodes = elim (find_node i nodes) [ none ↦ false | some _ ↦ true ]

abbrev replace_row : VpnNode → VpnNode → VpnNode
replace_row n x = if x.id == n.id then record n { xray_endpoint = x.xray_endpoint } else x

-- UpdateNode, whose UPDATE leaves xray_endpoint as it is.
unfoldable pub update_node : Bool → Bool → VpnNode → List VpnNode → List VpnNode × Bool
update_node clear_fails update_fails n nodes =
    let cleared = if_default n.is_default clear_fails (other_than n.id) nodes in
    let others = keep_if (other_than n.id) cleared in
    if update_fails
      || (is_node n.id nodes && (named_node n.name others || (n.is_default && has_default others)))
    then (cleared, false)
    else (map (replace_row n) cleared, true)

-- ON CONFLICT (name) DO UPDATE
unfoldable pub upsert_node : VpnNode → List VpnNode → List VpnNode
upsert_node n [] = n ∷ []
upsert_node n (x ∷ xs) =
    let rest = upsert_node n xs in
    if text_eq x.name n.name then record n { id = x.id } ∷ xs else x ∷ rest

abbrev without_name : Text → VpnNode → Bool
without_name s x = not (text_eq x.name s)

-- SeedFromJSON over the decoded array; `fails` numbers the statements of the rows.
unfoldable pub seed_nodes : (ℕ → Bool) → ℕ → List VpnNode → List VpnNode → List VpnNode × Bool
seed_nodes fails i [] nodes = (nodes, true)
seed_nodes fails i (n ∷ ns) nodes =
    let cleared = if_default n.is_default (fails (i + i)) (λ x. true) nodes in
    let skipped = seed_nodes fails (suc i) ns nodes in
    let rest = seed_nodes fails (suc i) ns (upsert_node n cleared) in
    if is_empty n.name
    then skipped
    else if fails (suc (i + i))
        || (n.is_default && has_default (keep_if (without_name n.name) cleared))
    then (cleared, false)
    else rest

unfoldable pub on_node : ℕ → List VpnPeer → ℕ
on_node i [] = 0
on_node i (p ∷ ps) =
    let rest = on_node i ps in
    elim p.node_id [ none ↦ rest | some j ↦ if j == i then suc rest else rest ]

-- DeleteNode; the Boolean is false where it returns an error.
unfoldable pub delete_node : Bool → Bool → ℕ → VpnDb → VpnDb × Bool
delete_node count_fails delete_fails i d =
    if count_fails || ltb 0 (on_node i d.peers) || delete_fails
    then (d, false)
    else (record d { nodes = keep_if (other_than i) d.nodes }, true)
