-- ===== src/Vpn/Pool.antt =====
-- Whatever configurations are asked for and revoked, no two peers have one address of the pool.
use astralrelay_online.Common.{
  ℕ, ◌≡◌, inl, inr, refl, sym, subst, Bool, true, false, not, ◌||◌, Option, List, [], ◌∷◌, ◌⊎◌,
  arith, Bool-cases, Option-cases, Result-cases, Faults,
}
use astralrelay_online.Common.Text.{Text, is_empty}
use astralrelay_online.Vpn.Tables.{
  Protocol, wireguard, openvpn_tcp443, vmess, vless, trojan, VpnPeer, VpnNode, VpnDb, keyed,
  find_peer, put_peer,
}
use astralrelay_online.Vpn.Nodes.{resolve_node, effective_xray_endpoint, effective_wg_server_pubkey}
use astralrelay_online.Vpn.Configs.{
  VpnConfig, VpnDraws, if_read, check_peer, issue_wireguard, get_wireguard_config, expires_after,
  expiry_days, node_ref,
}
use astralrelay_online.Vpn.Xray.{
  Call, gets, revokes, step, run, get_config, revoke, config_for, get_xray_config, take_credential,
  renew, bare_peer, parse_protocol, peer_for, stored_credential, drawn_credential,
}
use astralrelay_online.Vpn.Addresses.{IsPooled}
use astralrelay_online.Vpn.Rows.{put_blank, apart-keep_if, within-keep_if}
use astralrelay_online.Vpn.Wireguard.{with_peers-IsPooled, issue_wireguard-IsPooled}

revoke-IsPooled :
    (fails : Bool) (u v : ℕ) (p : Protocol) (d : VpnDb)
    → IsPooled d
    → IsPooled (revoke fails u v p d).0
unfolding revoke
revoke-IsPooled true u v p d h = h
revoke-IsPooled false u v p d h = record {
  distinct = apart-keep_if (λ x. not (keyed u v p x)) d.peers h.distinct;
  given = within-keep_if d.next_addr (λ x. not (keyed u v p x)) d.peers h.given;
  least = h.least;
  last = h.last;
}

renew_keeps :
    (p : Protocol) (s : Text) (e : ℕ) (i : Option ℕ) (x : VpnPeer)
    → (renew p s e i x).client_address ≡ x.client_address
renew_keeps wireguard s e i x = refl
renew_keeps openvpn_tcp443 s e i x = refl
renew_keeps vmess s e i x = refl
renew_keeps vless s e i x = refl
renew_keeps trojan s e i x = refl

take_credential-IsPooled :
    (cfg : VpnConfig) (f : Faults) (r : VpnDraws) (now u v : ℕ) (p : Protocol) (node : VpnNode)
    (d : VpnDb)
    → IsPooled d
    → IsPooled (take_credential cfg f r now u v p node d).0
unfolding take_credential
take_credential-IsPooled cfg f r now u v p node d h =
    let stored = stored_credential p (if_read (f 9) (find_peer u v p d.peers)) in
    elim (Bool-cases (not (is_empty stored))) [
      | inl there ↦ rw there h
      | inr missing ↦ elim (Option-cases (drawn_credential p r)) [
        | inl gone ↦ rw (missing, gone, take_credential) h
        | inr (s, drawn) ↦ elim (Bool-cases (f 8)) [
          | inl bad ↦ rw (missing, drawn, bad, take_credential) h
          | inr fine ↦
              let update =
                renew p s (expires_after now (expiry_days cfg (f 6) d)) (node_ref node) in
              let new = update (bare_peer u v p) in
              let alike =
                put_blank new update d.peers
                  (renew_keeps p s (expires_after now (expiry_days cfg (f 6) d)) (node_ref node))
                  (renew_keeps p s (expires_after now (expiry_days cfg (f 6) d)) (node_ref node)
                    (bare_peer u v p)) in
              rw (missing, drawn, fine, take_credential)
                (with_peers-IsPooled d (put_peer new update d.peers) alike h)
        ]
      ]
    ]

xray_store :
    (cfg : VpnConfig) (f : Faults) (r : VpnDraws) (now u v : ℕ) (p : Protocol) (node : VpnNode)
    (d : VpnDb)
    → ((get_xray_config cfg f r now u v p node d).0 ≡ d)
      ⊎ ((get_xray_config cfg f r now u v p node d).0
          ≡ (take_credential cfg f r now u v p node d).0)
unfolding get_xray_config
xray_store cfg f r now u v p node d = elim (Bool-cases cfg.xray_enabled) [
  | inr off ↦ inl (ground (arith, off))
  | inl on ↦ elim (Bool-cases (is_empty (effective_xray_endpoint cfg.nodes node))) [
    | inl nowhere ↦ inl (ground (arith, on, nowhere))
    | inr somewhere ↦ inr (ground (arith, on, somewhere))
  ]
]

get_xray_config-IsPooled :
    (cfg : VpnConfig) (f : Faults) (r : VpnDraws) (now u v : ℕ) (p : Protocol) (node : VpnNode)
    (d : VpnDb)
    → IsPooled d
    → IsPooled (get_xray_config cfg f r now u v p node d).0
unfolding get_xray_config
get_xray_config-IsPooled cfg f r now u v p node d h =
    let after = take_credential-IsPooled cfg f r now u v p node d h in
    elim (xray_store cfg f r now u v p node d) [
      | inl same ↦ subst IsPooled (sym same) h
      | inr taken ↦ subst IsPooled (sym taken) after
    ]

wireguard_store :
    (cfg : VpnConfig) (f : Faults) (r : VpnDraws) (now u v : ℕ) (node : VpnNode) (d : VpnDb)
    → ((get_wireguard_config cfg f r now u v node d).0 ≡ d)
      ⊎ ((priv : Text) × (key : Text) × ((get_wireguard_config cfg f r now u v node d).0
            ≡ (issue_wireguard cfg f now u v node priv key d).0))
unfolding get_wireguard_config
wireguard_store cfg f r now u v node d =
    elim (Bool-cases
      (not cfg.wireguard_enabled || is_empty (effective_wg_server_pubkey cfg.nodes node))) [
        | inl off ↦ inl (ground (arith, off))
        | inr on ↦ elim (Option-cases r.keys) [
          | inl gone ↦ inl (ground (arith, on, gone))
          | inr ((priv, key), drawn) ↦ inr (priv, key, ground (arith, on, drawn))
        ]
      ]

config_for-IsPooled :
    (cfg : VpnConfig) (f : Faults) (r : VpnDraws) (now u v : ℕ) (p : Protocol) (node : VpnNode)
    (d : VpnDb)
    → IsPooled d
    → IsPooled (config_for cfg f r now u v p node d).0
unfolding config_for
config_for-IsPooled cfg f r now u v wireguard node d h =
    elim (wireguard_store cfg f r now u v node d) [
      | inl same ↦ subst IsPooled (sym same) h
      | inr (priv, key, issued) ↦
          subst IsPooled (sym issued) (issue_wireguard-IsPooled cfg f now u v node priv key d h)
    ]
config_for-IsPooled cfg f r now u v openvpn_tcp443 node d h = h
config_for-IsPooled cfg f r now u v vmess node d h =
    get_xray_config-IsPooled cfg f r now u v vmess node d h
config_for-IsPooled cfg f r now u v vless node d h =
    get_xray_config-IsPooled cfg f r now u v vless node d h
config_for-IsPooled cfg f r now u v trojan node d h =
    get_xray_config-IsPooled cfg f r now u v trojan node d h

config_store :
    (cfg : VpnConfig) (f : Faults) (r : VpnDraws) (now : ℕ) (protocol : Text) (u v : ℕ)
    (node_id : Option ℕ) (d : VpnDb)
    → ((get_config cfg f r now protocol u v node_id d).0 ≡ d)
      ⊎ ((p : Protocol) × (node : VpnNode) × ((get_config cfg f r now protocol u v node_id d).0
            ≡ (config_for cfg f r now u v p node d).0))
unfolding get_config
config_store cfg f r now protocol u v node_id d =
    let p = parse_protocol protocol in
    let checked = check_peer now r.stats (if_read (f 0) (peer_for u v p d.peers)) in
    elim (Bool-cases cfg.enabled) [
      | inr off ↦ inl (ground (arith, off))
      | inl on ↦ elim (Result-cases checked) [
        | inr (e, refused) ↦ inl (ground (arith, on, refused))
        | inl (_, passed) ↦
            elim (Option-cases (resolve_node cfg.nodes (f 1) (f 2) node_id d.nodes)) [
              | inl gone ↦ inl (ground (arith, on, passed, gone))
              | inr (node, found) ↦ elim (Option-cases p) [
                | inl unknown ↦ inl (ground (arith, on, passed, found, unknown))
                | inr (q, known) ↦ inr (q, node, ground (arith, on, passed, found, known))
              ]
            ]
      ]
    ]

step-IsPooled : (d : VpnDb) (c : Call) → IsPooled d → IsPooled (step d c)
unfolding step
step-IsPooled d (gets cfg f r now protocol u v node_id) h =
    elim (config_store cfg f r now protocol u v node_id d) [
      | inl same ↦ subst IsPooled (sym same) h
      | inr (p, node, made) ↦
          subst IsPooled (sym made) (config_for-IsPooled cfg f r now u v p node d h)
    ]
step-IsPooled d (revokes fails u v p) h = revoke-IsPooled fails u v p d h

-- Whatever configurations are asked for and revoked, and whatever fails, no two WireGuard peers have one
-- address, and every address is one of the 252 of the pool.
pub run-IsPooled : (d : VpnDb) (cs : List Call) → IsPooled d → IsPooled (run d cs)
unfolding run
run-IsPooled d [] h = h
run-IsPooled d (c ∷ cs) h = run-IsPooled (step d c) cs (step-IsPooled d c h)
