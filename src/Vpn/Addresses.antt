-- ===== src/Vpn/Addresses.antt =====
-- The addresses of the WireGuard peers: no two peers have one, and none is outside the pool.
use astralrelay_online.Common.{
  ℕ, suc, ◌≤◌, ◌≡◌, ◌≢◌, refl, Bool, true, false, not, ◌&&◌, ◌||◌, Option, none, some, List, [],
  ◌∷◌, ◌==◌, map, ltb, leb, arith,
}
use astralrelay_online.Vpn.Tables.{VpnPeer, VpnDb}

-- The addresses of the peers, row by row.
abbrev pub addresses : List VpnPeer → List (Option ℕ)
addresses xs = map (λ x. x.client_address) xs

abbrev is_address : ℕ → Option ℕ → Bool
is_address n none = false
is_address n (some m) = m == n

-- Some row has the address.
unfoldable pub held : ℕ → List (Option ℕ) → Bool
held n [] = false
held n (o ∷ os) = is_address n o || held n os

abbrev pub is_free : Option ℕ → List (Option ℕ) → Bool
is_free none os = true
is_free (some m) os = not (held m os)

-- No two rows have one address.
unfoldable pub apart : List (Option ℕ) → Bool
apart [] = true
apart (o ∷ os) = is_free o os && apart os

abbrev pub in_pool : ℕ → Option ℕ → Bool
in_pool n none = true
in_pool n (some m) = leb 2 m && ltb m n

-- The addresses are from 2 on, and below n.
unfoldable pub within : ℕ → List (Option ℕ) → Bool
within n [] = true
within n (o ∷ os) = in_pool n o && within n os

-- Rows with one address more: in a row without one, or in a new row.
pub data Added (n : ℕ) : List (Option ℕ) → List (Option ℕ) → Type 0 where
  appended : Added n [] (some n ∷ [])
  filled : {os : List (Option ℕ)} → Added n (none ∷ os) (some n ∷ os)
  later : {o : Option ℕ} {os ps : List (Option ℕ)} → Added n os ps → Added n (o ∷ os) (o ∷ ps)

in_pool-is_address : (n : ℕ) (o : Option ℕ) → in_pool n o ≡ true → is_address n o ≡ false
in_pool-is_address n none h = refl
in_pool-is_address n (some m) h = ground arith

in_pool-suc : (n : ℕ) (o : Option ℕ) → in_pool n o ≡ true → in_pool (suc n) o ≡ true
in_pool-suc n none h = refl
in_pool-suc n (some m) h = ground arith

pub and_left : (a b : Bool) → (a && b) ≡ true → a ≡ true
and_left true b h = refl
and_left false b h = h

pub and_right : (a b : Bool) → (a && b) ≡ true → b ≡ true
and_right true b h = h
and_right false b h = absurd (ground arith)

pub within-held : (n : ℕ) (os : List (Option ℕ)) → within n os ≡ true → held n os ≡ false
unfolding within held
within-held n [] h = refl
within-held n (o ∷ os) h =
    rw
      (
        in_pool-is_address n o (and_left _ (within n os) h),
        within-held n os (and_right (in_pool n o) _ h),
      )
      refl

pub within-suc : (n : ℕ) (os : List (Option ℕ)) → within n os ≡ true → within (suc n) os ≡ true
unfolding within
within-suc n [] h = refl
within-suc n (o ∷ os) h =
    rw (in_pool-suc n o (and_left _ (within n os) h), within-suc n os (and_right (in_pool n o) _ h))
      refl

Added-held : (n m : ℕ) (os ps : List (Option ℕ)) → Added n os ps → n ≢ m → held m ps ≡ held m os
unfolding held
Added-held n m _ _ appended other = ground arith
Added-held n m _ _ filled other = ground arith
Added-held n m (o ∷ os) (_ ∷ ps) (later a) other = rw (Added-held n m os ps a other) refl

and_true : (a b : Bool) → (a && b) ≡ true → (a && true) ≡ true
and_true true b h = refl
and_true false b h = h

pub Added-apart :
    (n : ℕ) (os ps : List (Option ℕ))
    → Added n os ps
    → held n os ≡ false
    → apart os ≡ true
    → apart ps ≡ true
unfolding apart held
Added-apart n _ _ appended unheld h = refl
Added-apart n (none ∷ os) _ filled unheld h = rw unheld h
Added-apart n (none ∷ os) (_ ∷ ps) (later a) unheld h = Added-apart n os ps a unheld h
Added-apart n (some m ∷ os) (_ ∷ ps) (later a) unheld h =
    let other : n ≢ m = ground arith in
    let unheld' : held n os ≡ false = ground arith in
    let rest = Added-apart n os ps a unheld' (and_right (not (held m os)) _ h) in
    rw (Added-held n m os ps a other, rest) (and_true (not (held m os)) (apart os) h)

pub Added-within :
    (n : ℕ) (os ps : List (Option ℕ))
    → Added n os ps
    → 2 ≤ n
    → within n os ≡ true
    → within (suc n) ps ≡ true
unfolding within
Added-within n _ _ appended least h = ground arith
Added-within n (none ∷ os) _ filled least h = let rest = within-suc n os h in ground (arith, rest)
Added-within n (o ∷ os) (_ ∷ ps) (later a) least h =
    let rest = Added-within n os ps a least (and_right (in_pool n o) _ h) in
    rw (in_pool-suc n o (and_left _ (within n os) h), rest) refl

-- The addresses of the pool are 2 to 253.
pub record IsPooled (d : VpnDb) : Type 0 where
  pub distinct : apart (addresses d.peers) ≡ true
  pub given : within d.next_addr (addresses d.peers) ≡ true
  pub least : 2 ≤ d.next_addr
  pub last : d.next_addr ≤ 254
