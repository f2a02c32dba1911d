-- ===== src/Vpn/Wireguard.antt =====
-- getWireGuardConfig keeps the pool of addresses.
use astralrelay_online.Common.{
  ℕ, suc, ◌≤◌, ◌≡◌, inl, inr, refl, Bool, true, false, Option, none, some, List, [], ◌∷◌, ◌++◌, ◌⊎◌,
  ltb, arith, Bool-cases, Option-cases, Faults,
}
use astralrelay_online.Common.Text.{Text}
use astralrelay_online.Vpn.Tables.{
  wireguard, VpnPeer, VpnNode, VpnDb, find_peer, put_peer, next_address,
}
use astralrelay_online.Vpn.Configs.{
  VpnConfig, if_read, choose_address, old_address, old_key, retired, wg_row, wg_update,
  store_wireguard, with_address, issue_wireguard, expires_after, expiry_days, node_ref,
  traffic_limit_bytes,
}
use astralrelay_online.Vpn.Addresses.{
  addresses, apart, within, within-held, within-suc, Added-apart, Added-within, IsPooled,
}
use astralrelay_online.Vpn.Rows.{put_known, put_peer_new, apart_blank, within_blank}

-- The same addresses, but for rows without one.
abbrev Alike : List (Option ℕ) → List (Option ℕ) → Type 0
Alike ps os = (ps ≡ os) ⊎ (ps ≡ os ++ none ∷ [])

Alike-apart : (ps os : List (Option ℕ)) → Alike ps os → apart os ≡ true → apart ps ≡ true
Alike-apart ps os (inl e) h = rw e h
Alike-apart ps os (inr e) h = rw (e, apart_blank os) h

Alike-within :
    (n : ℕ) (ps os : List (Option ℕ)) → Alike ps os → within n os ≡ true → within n ps ≡ true
Alike-within n ps os (inl e) h = rw e h
Alike-within n ps os (inr e) h = rw (e, within_blank n os) h

pub with_peers-IsPooled :
    (d : VpnDb) (xs : List VpnPeer)
    → Alike (addresses xs) (addresses d.peers)
    → IsPooled d
    → IsPooled (record d { peers = xs })
with_peers-IsPooled d xs alike h = record {
  distinct = Alike-apart (addresses xs) (addresses d.peers) alike h.distinct;
  given = Alike-within d.next_addr (addresses xs) (addresses d.peers) alike h.given;
  least = h.least;
  last = h.last;
}

-- The end of getWireGuardConfig, for the address that the peer has.
store_known :
    (cfg : VpnConfig) (f : Faults) (now u v : ℕ) (node : VpnNode) (priv key : Text) (d : VpnDb)
    (n m : ℕ) (y : VpnPeer)
    → find_peer u v wireguard d.peers ≡ some y
    → y.client_address ≡ some m
    → IsPooled d
    → IsPooled (store_wireguard cfg f now u v node priv key d n).0
unfolding store_wireguard
store_known cfg f now u v node priv key d n m y found address h =
    let expires = expires_after now (expiry_days cfg (f 6) d) in
    let new = wg_row u v key n expires (traffic_limit_bytes (f 7) d) (node_ref node) in
    elim (Bool-cases (f 8)) [
      | inl bad ↦ rw bad h
      | inr fine ↦
          let same = put_known new (wg_update new n) n (λ x. refl) refl d.peers y m found address in
          rw fine (with_peers-IsPooled d (put_peer new (wg_update new n) d.peers) (inl same) h)
    ]

counted :
    (d : VpnDb)
    → d.next_addr ≤ 253
    → IsPooled d
    → IsPooled (record d { next_addr = suc d.next_addr })
counted d free h = record {
  distinct = h.distinct;
  given = within-suc d.next_addr (addresses d.peers) h.given;
  least = ground (arith, h.least);
  last = ground (arith, free);
}

-- The end of getWireGuardConfig, for a new address.
store_added :
    (cfg : VpnConfig) (f : Faults) (now u v : ℕ) (node : VpnNode) (priv key : Text) (d : VpnDb)
    → old_address (find_peer u v wireguard d.peers) ≡ none
    → d.next_addr ≤ 253
    → IsPooled d
    → IsPooled
        (store_wireguard cfg f now u v node priv key
          (record d { next_addr = suc d.next_addr })
          d.next_addr).0
unfolding store_wireguard
store_added cfg f now u v node priv key d without free h =
    let n = d.next_addr in
    let next : VpnDb = record d { next_addr = suc n } in
    let expires = expires_after now (expiry_days cfg (f 6) next) in
    let new = wg_row u v key n expires (traffic_limit_bytes (f 7) next) (node_ref node) in
    let added = put_peer_new new (wg_update new n) n (λ x. refl) refl d.peers without in
    let before = addresses d.peers in
    let after = addresses (put_peer new (wg_update new n) d.peers) in
    elim (Bool-cases (f 8)) [
      | inl bad ↦ rw bad (counted d free h)
      | inr fine ↦ rw fine (record {
        distinct = Added-apart n before after added (within-held n before h.given) h.distinct;
        given = Added-within n before after added h.least h.given;
        least = ground (arith, h.least);
        last = ground (arith, free);
      })
    ]

-- The key that was taken off the interface does not matter.
removed-IsPooled :
    (d : VpnDb) (gone : List Text) → IsPooled d → IsPooled (record d { removed = gone })
removed-IsPooled d gone h = record {
  distinct = h.distinct;
  given = h.given;
  least = h.least;
  last = h.last;
}

address_of :
    (fails : Bool) (o : Option VpnPeer) (m : ℕ)
    → old_address (if_read fails o) ≡ some m
    → (y : VpnPeer) × (o ≡ some y) × (y.client_address ≡ some m)
address_of true o m h = absurd (ground arith)
address_of false none m h = absurd (ground arith)
address_of false (some y) m h = (y, refl, h)

peer_address :
    (o : Option VpnPeer)
    → (old_address o ≡ none)
      ⊎ ((y : VpnPeer) × (m : ℕ) × (o ≡ some y) × (y.client_address ≡ some m))
peer_address none = inl refl
peer_address (some y) = elim (Option-cases y.client_address) [
  | inl gone ↦ inl gone
  | inr (m, address) ↦ inr (y, m, refl, address)
]

-- A new number, whether or not the query saw the address that the peer has.
issue_new :
    (cfg : VpnConfig) (f : Faults) (now u v : ℕ) (node : VpnNode) (priv key : Text) (d : VpnDb)
    → IsPooled d
    → IsPooled (with_address cfg f now u v node priv key (choose_address (f 5) none d)).0
unfolding choose_address next_address
issue_new cfg f now u v node priv key d h = elim (Bool-cases (f 5)) [
  | inl bad ↦ rw bad h
  | inr fine ↦ elim (Bool-cases (ltb 253 d.next_addr)) [
    | inl out ↦ rw (fine, out) h
    | inr room ↦
        let free : d.next_addr ≤ 253 = ground arith in
        elim (peer_address (find_peer u v wireguard d.peers)) [
          | inl without ↦ rw (fine, room) (store_added cfg f now u v node priv key d without free h)
          | inr (y, m, found, address) ↦
              rw (fine, room)
                (store_known cfg f now u v node priv key (record d { next_addr = suc d.next_addr })
                  d.next_addr m y found address (counted d free h))
        ]
  ]
]

pub issue_wireguard-IsPooled :
    (cfg : VpnConfig) (f : Faults) (now u v : ℕ) (node : VpnNode) (priv key : Text) (d : VpnDb)
    → IsPooled d
    → IsPooled (issue_wireguard cfg f now u v node priv key d).0
unfolding issue_wireguard choose_address
issue_wireguard-IsPooled cfg f now u v node priv key d h =
    let peer = find_peer u v wireguard d.peers in
    let gone = retired cfg key (old_key (if_read (f 3) peer)) d.removed in
    let d' : VpnDb = record d { removed = gone } in
    let h' = removed-IsPooled d gone h in
    elim (Option-cases (old_address (if_read (f 4) peer))) [
      | inl without ↦ rw without (issue_new cfg f now u v node priv key d' h')
      | inr (m, kept) ↦
          let (y, found, address) = address_of (f 4) peer m kept in
          rw kept (store_known cfg f now u v node priv key d' m m y found address h')
    ]
