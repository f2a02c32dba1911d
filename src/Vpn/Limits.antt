-- ===== src/Vpn/Limits.antt =====
-- What the pool, the expiry and the endpoints come to.
use astralrelay_online.Common.{
  ℕ, suc, ◌<◌, ◌≡◌, ◌≢◌, inl, inr, refl, Bool, true, false, not, Option, none, some, List, [], ◌∷◌,
  ◌++◌, ◌==◌, ltb, arith, Bool-cases, ok, err, Faults, keep_if, length, drop,
}
use astralrelay_online.Common.Cuts.{take-append, Free}
use astralrelay_online.Common.Text.{Text, is_empty, has_prefix}
use astralrelay_online.Vpn.Tables.{
  Protocol, wireguard, VpnPeer, VpnNode, VpnDb, keyed, find_peer, next_address, default_row,
}
use astralrelay_online.Vpn.Endpoints.{last_index, parse_host_port}
use astralrelay_online.Vpn.Nodes.{
  NodeConfig, create_node, get_default_node, clear_default, has_default, named_node, without_xray,
  resolve_node, effective_wg_server_pubkey,
}
use astralrelay_online.Vpn.Configs.{
  VpnConfig, pool_exhausted, VpnDraws, check_peer, choose_address, old_address, if_read,
  issue_wireguard, get_wireguard_config,
}
use astralrelay_online.Vpn.Xray.{get_config, revoke, config_for, parse_protocol}

unread :
    (fails : Bool) (o : Option VpnPeer)
    → old_address o ≡ none
    → old_address (if_read fails o) ≡ none
unread true o h = refl
unread false o h = h

issue_wireguard_full :
    (cfg : VpnConfig) (f : Faults) (now u v : ℕ) (node : VpnNode) (priv key : Text) (d : VpnDb)
    → 253 < d.next_addr
    → old_address (find_peer u v wireguard d.peers) ≡ none
    → (issue_wireguard cfg f now u v node priv key d).1 ≡ err pool_exhausted
unfolding issue_wireguard choose_address next_address
issue_wireguard_full cfg f now u v node priv key d full without =
    let out : ltb 253 d.next_addr ≡ true = ground arith in
    let unseen = unread (f 4) (find_peer u v wireguard d.peers) without in
    elim (Bool-cases (f 5)) [
      | inl bad ↦ rw (unseen, bad) refl
      | inr fine ↦ rw (unseen, fine, out) refl
    ]

-- Once the last number of the pool is given out, a device without an address gets no configuration,
-- however many peers Revoke has deleted.
pub get_wireguard_config_full :
    (cfg : VpnConfig) (f : Faults) (r : VpnDraws) (now u v : ℕ) (node : VpnNode) (d : VpnDb)
    (keys : Text × Text)
    → cfg.wireguard_enabled ≡ true
    → is_empty (effective_wg_server_pubkey cfg.nodes node) ≡ false
    → r.keys ≡ some keys
    → 253 < d.next_addr
    → old_address (find_peer u v wireguard d.peers) ≡ none
    → (get_wireguard_config cfg f r now u v node d).1 ≡ err pool_exhausted
unfolding get_wireguard_config
get_wireguard_config_full cfg f r now u v node d keys on key drawn full without =
    let issued = issue_wireguard_full cfg f now u v node keys.0 keys.1 d full without in
    ground (arith, on, key, drawn, issued)

last_index-Free : (p : Text) (b : ℕ) → Free b p → last_index p b ≡ none
unfolding last_index
last_index-Free [] b free = refl
last_index-Free (c ∷ p) b free = rw (last_index-Free p b free.1) (ground (arith, free.0))

last_index-append : (h p : Text) (b : ℕ) → Free b p → last_index (h ++ (b ∷ p)) b ≡ some (length h)
unfolding last_index
last_index-append [] p b free = rw (last_index-Free p b free) (ground arith)
last_index-append (c ∷ h) p b free = rw (last_index-append h p b free) refl

drop-suc : (h : Text) (b : ℕ) (p : Text) → drop (suc (length h)) (h ++ (b ∷ p)) ≡ p
drop-suc [] b p = refl
drop-suc (c ∷ h) b p = drop-suc h b p

-- An endpoint host:port is split into the two, if the host is there and is no bracketed address, and no
-- colon is in the port.
pub parse_host_port-append :
    (c : ℕ) (host port : Text)
    → c ≢ b'['
    → Free b':' port
    → parse_host_port ((c ∷ host) ++ (b':' ∷ port)) ≡ (c ∷ host, port)
unfolding parse_host_port has_prefix
parse_host_port-append c host port plain free =
    let longer : ltb 0 (suc (length host)) ≡ true = ground arith in
    let no_bracket : (c == b'[') ≡ false = ground (arith, plain) in
    rw
      (
        no_bracket,
        last_index-append (c ∷ host) port b':' free,
        take-append (c ∷ host) (b':' ∷ port),
        drop-suc (c ∷ host) b':' port,
      )
      (rw longer refl)

cleared : (ns : List VpnNode) → has_default (clear_default (λ x. true) ns) ≡ false
unfolding has_default clear_default
cleared [] = refl
cleared (x ∷ ns) = cleared ns

last_default :
    (n : VpnNode) (ns : List VpnNode)
    → has_default ns ≡ false
    → n.is_default ≡ true
    → default_row (ns ++ n ∷ []) ≡ some n
unfolding has_default default_row
last_default n [] none' set = refl
last_default n (x ∷ ns) none' set =
    let rest = last_default n ns (ground arith) set in
    let plain : x.is_default ≡ false = ground arith in rw (rest, plain, set) refl

-- A node that is created as the default one, with no failing call and under a new name, is, without its
-- Xray endpoint, the one that configurations are for where no other is asked for, and no other node is the
-- default one.
pub create_node-default :
    (c : NodeConfig) (n : VpnNode) (ns : List VpnNode)
    → n.is_default ≡ true
    → named_node n.name (clear_default (λ x. true) ns) ≡ false
    → (create_node false false n ns
        ≡ (clear_default (λ x. true) ns ++ without_xray n ∷ [], some (without_xray n)))
      × (has_default (clear_default (λ x. true) ns) ≡ false)
      × (resolve_node c false false none (create_node false false n ns).0 ≡ some (without_xray n))
unfolding create_node resolve_node get_default_node
create_node-default c n ns set new =
    let empty' = cleared ns in
    let made : create_node false false n ns
        ≡ (clear_default (λ x. true) ns ++ without_xray n ∷ [], some (without_xray n)) =
      ground (arith, set, new, empty') in
    let first = last_default (without_xray n) (clear_default (λ x. true) ns) empty' set in
    (made, empty', rw made (rw first refl))

find_peer-revoke :
    (u v : ℕ) (p : Protocol) (xs : List VpnPeer)
    → find_peer u v p (keep_if (λ x. not (keyed u v p x)) xs) ≡ none
unfolding find_peer keep_if
find_peer-revoke u v p [] = refl
find_peer-revoke u v p (x ∷ xs) =
    let rest = find_peer-revoke u v p xs in
    elim (Bool-cases (keyed u v p x)) [
      | inl same ↦ rw same rest
      | inr other ↦ rw (other, rest) (rw other refl)
    ]

unchecked :
    (now : ℕ) (stats : Option (Text → Option (ℕ × ℕ))) (fails : Bool)
    → check_peer now stats (if_read fails none) ≡ ok tt
unfolding check_peer
unchecked now stats true = refl
unchecked now stats false = refl

-- After a user has revoked a configuration, GetConfig gives a new one for the node without regard to the
-- time and the traffic that the old one was limited to.
pub get_config-revoke :
    (cfg : VpnConfig) (f : Faults) (r : VpnDraws) (now : ℕ) (protocol : Text) (p : Protocol)
    (u v : ℕ) (node_id : Option ℕ) (node : VpnNode) (d : VpnDb)
    → cfg.enabled ≡ true
    → parse_protocol protocol ≡ some p
    → resolve_node cfg.nodes (f 1) (f 2) node_id d.nodes ≡ some node
    → get_config cfg f r now protocol u v node_id (revoke false u v p d).0
      ≡ config_for cfg f r now u v p node (revoke false u v p d).0
unfolding get_config revoke
get_config-revoke cfg f r now protocol p u v node_id node d on known found =
    let gone = find_peer-revoke u v p d.peers in
    let passed = unchecked now r.stats (f 0) in
    let fine : check_peer now r.stats
          (if_read (f 0) (find_peer u v p (keep_if (λ x. not (keyed u v p x)) d.peers)))
        ≡ ok tt =
      rw gone passed in
    ground (arith, on, known, fine, found)
