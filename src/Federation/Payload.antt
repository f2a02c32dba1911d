-- ===== src/Federation/Payload.antt =====
-- The signed payload of server/internal/federation determines the request it was made for.
use astralrelay_online.Common.{ℕ, ◌≡◌, refl, [], ◌∷◌, ◌++◌}
use astralrelay_online.Common.Text.{Text}
use astralrelay_online.Common.Cuts.{Free}
use astralrelay_online.Federation.Signing.{signed_payload}

-- Two texts cut at the first occurrence of a byte.
cut_first :
    (b : ℕ) (s s' t t' : Text)
    → Free b s
    → Free b s'
    → s ++ (b ∷ t) ≡ s' ++ (b ∷ t')
    → (s ≡ s') × (t ≡ t')
cut_first b [] [] t t' f f' e = (refl, cc)
cut_first b [] (c ∷ s') t t' f f' e = absurd (f'.0 (cc))
cut_first b (c ∷ s) [] t t' f f' e = absurd (f.0 (cc))
cut_first b (c ∷ s) (d ∷ s') t t' f f' e =
    let (p, q) = cut_first b s s' t t' f.1 f'.1 (cc) in (cc, q)

not-Free : (b : ℕ) (s t : Text) → Free b (s ++ (b ∷ t)) → ⊥
not-Free b [] t f = f.0 refl
not-Free b (c ∷ s) t f = not-Free b s t f.1

-- Two texts cut at the last occurrence of a byte.
cut_last :
    (b : ℕ) (s s' t t' : Text)
    → Free b t
    → Free b t'
    → s ++ (b ∷ t) ≡ s' ++ (b ∷ t')
    → (s ≡ s') × (t ≡ t')
cut_last b [] [] t t' f f' e = (refl, cc)
cut_last b [] (c ∷ s') t t' f f' e =
    let tail : t ≡ s' ++ (b ∷ t') = cc in absurd (not-Free b s' t' (rw tail at f))
cut_last b (c ∷ s) [] t t' f f' e =
    let tail : t' ≡ s ++ (b ∷ t) = cc in absurd (not-Free b s t (rw tail at f'))
cut_last b (c ∷ s) (d ∷ s') t t' f f' e = let (p, q) = cut_last b s s' t t' f f' (cc) in (cc, q)

-- The parts of a request that a payload is made of.
pub record Signed : Type 0 where
  pub origin : Text
  pub dest : Text
  pub timestamp : Text
  pub method : Text
  pub path : Text
  pub hash : Text

abbrev pub payload_of : Signed → Text
payload_of r = signed_payload r.origin r.dest r.timestamp r.method r.path r.hash

-- Headers, methods and hashes have no line feed; a path, which arrives unescaped, may have some.
pub record IsLineFree (r : Signed) : Type 0 where
  pub origin : Free 10 r.origin
  pub dest : Free 10 r.dest
  pub timestamp : Free 10 r.timestamp
  pub method : Free 10 r.method
  pub hash : Free 10 r.hash

-- Two requests with one payload are the same request, even where the path has line feeds, if the
-- headers, the method and the hash have none.
pub payload_of-injective :
    (r r' : Signed) → IsLineFree r → IsLineFree r' → payload_of r ≡ payload_of r' → r ≡ r'
unfolding signed_payload
payload_of-injective r r' v w e =
    let (a, e1) = cut_first 10 r.origin r'.origin _ _ v.origin w.origin e in
    let (b, e2) = cut_first 10 r.dest r'.dest _ _ v.dest w.dest e1 in
    let (c, e3) = cut_first 10 r.timestamp r'.timestamp _ _ v.timestamp w.timestamp e2 in
    let (d, e4) = cut_first 10 r.method r'.method _ _ v.method w.method e3 in
    let (p, h) = cut_last 10 r.path r'.path r.hash r'.hash v.hash w.hash e4 in
    λ i. record { origin = a i; dest = b i; timestamp = c i; method = d i; path = p i; hash = h i }
