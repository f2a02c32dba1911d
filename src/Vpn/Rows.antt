-- ===== src/Vpn/Rows.antt =====
-- What the statements on vpn_peers do to the addresses of the rows.
use astralrelay_online.Common.{
  ℕ, ◌≡◌, inl, inr, refl, ap, ◌∙◌, Bool, true, false, ◌||◌, Option, none, some, List, [], ◌∷◌, ◌++◌,
  ◌⊎◌, arith, Bool-cases, keep_if,
}
use astralrelay_online.Vpn.Tables.{VpnPeer, keyed, find_peer, put_peer}
use astralrelay_online.Vpn.Configs.{old_address, coalesce}
use astralrelay_online.Vpn.Addresses.{
  addresses, is_free, in_pool, held, apart, within, Added, appended, filled, later, and_left,
  and_right,
}

some_inj : {A : Type 0} (x y : A) → some x ≡ some y → x ≡ y
some_inj x y h = ground arith

module _ (new : VpnPeer) (update : VpnPeer → VpnPeer) where
  -- A statement that does not set the address.
  pub put_blank :
      (xs : List VpnPeer)
      → ((x : VpnPeer) → (update x).client_address ≡ x.client_address)
      → new.client_address ≡ none
      → (addresses (put_peer new update xs) ≡ addresses xs)
        ⊎ (addresses (put_peer new update xs) ≡ addresses xs ++ none ∷ [])
  unfolding put_peer
  put_blank [] keeps bare = inr (rw bare refl)
  put_blank (x ∷ xs) keeps bare =
      let rest = put_blank xs keeps bare in
      elim (Bool-cases (keyed new.user_id new.device_id new.protocol x)) [
        | inl same ↦ inl (rw (same, keeps x) refl)
        | inr other ↦ elim rest [
          | inl e ↦ inl (rw (other, e) refl)
          | inr e ↦ inr (rw (other, e) refl)
        ]
      ]

  module _ (n : ℕ) (sets : (x : VpnPeer) → (update x).client_address ≡ coalesce x.client_address n)
      (has : new.client_address ≡ some n) where
    -- The peer has an address, which stays.
    pub put_known :
        (xs : List VpnPeer) (y : VpnPeer) (m : ℕ)
        → find_peer new.user_id new.device_id new.protocol xs ≡ some y
        → y.client_address ≡ some m
        → addresses (put_peer new update xs) ≡ addresses xs
    unfolding put_peer find_peer
    put_known [] y m found address = absurd (ground arith)
    put_known (x ∷ xs) y m found address =
        elim (Bool-cases (keyed new.user_id new.device_id new.protocol x)) [
          | inl same ↦
              let here : x ≡ y = some_inj x y (rw same at found) in
              let own : x.client_address ≡ some m = ap (λ z. z.client_address) here ∙ address in
              rw (same, sets x, own) refl
          | inr other ↦
              let there : find_peer new.user_id new.device_id new.protocol xs ≡ some y =
                rw other at found in
              rw (other, put_known xs y m there address) refl
        ]

    -- The peer has none, or there is no such peer.
    pub put_peer_new :
        (xs : List VpnPeer)
        → old_address (find_peer new.user_id new.device_id new.protocol xs) ≡ none
        → Added n (addresses xs) (addresses (put_peer new update xs))
    unfolding put_peer find_peer
    put_peer_new [] h = rw has appended
    put_peer_new (x ∷ xs) h = elim (Bool-cases (keyed new.user_id new.device_id new.protocol x)) [
      | inl same ↦ let own : x.client_address ≡ none = rw same at h in rw (same, sets x, own) filled
      | inr other ↦
          let there : old_address (find_peer new.user_id new.device_id new.protocol xs) ≡ none =
            rw other at h in
          rw other (later (put_peer_new xs there))
    ]

held_blank : (m : ℕ) (os : List (Option ℕ)) → held m (os ++ none ∷ []) ≡ held m os
unfolding held
held_blank m [] = refl
held_blank m (o ∷ os) = rw (held_blank m os) refl

pub apart_blank : (os : List (Option ℕ)) → apart (os ++ none ∷ []) ≡ apart os
unfolding apart
apart_blank [] = refl
apart_blank (none ∷ os) = apart_blank os
apart_blank (some m ∷ os) = rw (held_blank m os, apart_blank os) refl

pub within_blank : (n : ℕ) (os : List (Option ℕ)) → within n (os ++ none ∷ []) ≡ within n os
unfolding within
within_blank n [] = refl
within_blank n (o ∷ os) = rw (within_blank n os) refl

or_false : (a b : Bool) → (a || b) ≡ false → (a ≡ false) × (b ≡ false)
or_false true b h = absurd (ground arith)
or_false false b h = (refl, h)

held-keep_if :
    (m : ℕ) (p : VpnPeer → Bool) (xs : List VpnPeer)
    → held m (addresses xs) ≡ false
    → held m (addresses (keep_if p xs)) ≡ false
unfolding held keep_if
held-keep_if m p [] h = refl
held-keep_if m p (x ∷ xs) h =
    let (first, others) = or_false _ (held m (addresses xs)) h in
    let rest = held-keep_if m p xs others in
    elim (Bool-cases (p x)) [ inl kept ↦ rw (kept, first, rest) refl | inr gone ↦ rw gone rest ]

is_free-keep_if :
    (o : Option ℕ) (p : VpnPeer → Bool) (xs : List VpnPeer)
    → is_free o (addresses xs) ≡ true
    → is_free o (addresses (keep_if p xs)) ≡ true
is_free-keep_if none p xs h = refl
is_free-keep_if (some m) p xs h =
    let unheld : held m (addresses xs) ≡ false = ground arith in
    rw (held-keep_if m p xs unheld) refl

pub apart-keep_if :
    (p : VpnPeer → Bool) (xs : List VpnPeer)
    → apart (addresses xs) ≡ true
    → apart (addresses (keep_if p xs)) ≡ true
unfolding apart keep_if
apart-keep_if p [] h = refl
apart-keep_if p (x ∷ xs) h =
    let rest = apart-keep_if p xs (and_right (is_free x.client_address (addresses xs)) _ h) in
    let free = is_free-keep_if x.client_address p xs (and_left _ (apart (addresses xs)) h) in
    elim (Bool-cases (p x)) [ inl kept ↦ rw (kept, free, rest) refl | inr gone ↦ rw gone rest ]

pub within-keep_if :
    (n : ℕ) (p : VpnPeer → Bool) (xs : List VpnPeer)
    → within n (addresses xs) ≡ true
    → within n (addresses (keep_if p xs)) ≡ true
unfolding within keep_if
within-keep_if n p [] h = refl
within-keep_if n p (x ∷ xs) h =
    let first = and_left (in_pool n x.client_address) (within n (addresses xs)) h in
    let rest = within-keep_if n p xs (and_right (in_pool n x.client_address) _ h) in
    elim (Bool-cases (p x)) [ inl kept ↦ rw (kept, first, rest) refl | inr gone ↦ rw gone rest ]
