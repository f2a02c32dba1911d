-- ===== src/Federation/Authentic.antt =====
-- What a verified request of server/internal/federation/server.go shows.
use astralrelay_online.Common.{
  ℕ, ◌+◌, ◌^◌, ◌≤◌, ◌≡◌, ◌≢◌, ◌⊎◌, ◌↔◌, refl, ap, true, false, some, [], ◌∷◌, ◌++◌, arith, ok,
}
use astralrelay_online.Common.Text.{Text, lit, is_empty, has_prefix}
use astralrelay_online.Common.Cuts.{Free, index-append, take-append, drop_past}
use astralrelay_online.Common.Int64.{biased}
use astralrelay_online.Common.Decimal.{itoa, parse_int-itoa, itoa-ne-nil}
use astralrelay_online.Common.Int64.{IsClock, IsInt64}
use astralrelay_online.Federation.Signing.{
  Crypto, Request, signed_payload, body_hash, index_text, until_slash, url_dest, path_after,
  url_path_of, sign_request, is_stale, request_path, verify_request,
}

-- A timestamp passes exactly when it is at most 300 s away from the clock, or is 2^63 s before it,
-- where both differences wrap around.
pub is_stale_iff :
    (now ts : ℕ)
    → IsClock now
    → IsInt64 ts
    → (is_stale now now ts ≡ false) ↔ (
        ((biased now ≤ biased ts + 300) × (biased ts ≤ biased now + 300))
        ⊎ (biased ts + 2 ^ 63 ≡ biased now))
unfolding is_stale
is_stale_iff now ts c w = (λ h. ground arith, λ h. ground arith)

-- The documented behaviour of the cryptographic packages for the keys that sign here.
pub record IsSound (cr : Crypto) : Type 0 where
  pub verify-sign : (k m : Text) → cr.verify (cr.public_key k) m (cr.sign k m) ≡ true
  pub unbase64-base64 : (s : Text) → cr.unbase64 (cr.base64 s) ≡ some s
  pub signature_there : (k m : Text) → is_empty (cr.base64 (cr.sign k m)) ≡ false

is_empty-ne : (s : Text) → s ≢ [] → is_empty s ≡ false
is_empty-ne [] h = absurd (h refl)
is_empty-ne (c ∷ s) h = refl

abbrev pub https_url : Text → Text → Text
https_url host rest = lit "https://" ++ (host ++ (b'/' ∷ rest))

url_dest_https : (host rest : Text) → Free b'/' host → url_dest (https_url host rest) ≡ host
unfolding url_dest has_prefix
url_dest_https host rest free =
    rw (index-append b'/' host rest free, until_slash) (take-append host (b'/' ∷ rest))

url_path_of_https :
    (host rest : Text) → Free b'/' host → url_path_of (https_url host rest) ≡ b'/' ∷ rest
unfolding url_path_of index_text has_prefix
url_path_of_https host rest free =
    rw (index-append b'/' host rest free, path_after) (ap (◌∷◌ b'/') (drop_past host b'/' rest))

fresh_timestamp :
    (now n m : ℕ)
    → IsClock now
    → IsClock n
    → IsClock m
    → n ≤ now + 300
    → now ≤ m + 300
    → is_stale n m now ≡ false
unfolding is_stale
fresh_timestamp now n m a b c p q = ground arith

-- A request that the client signs for https://host/rest is verified at the destination by the
-- client's key, if method, path and body arrive as sent and the clocks are at most 300 s apart.
pub verify_request-sign_request :
    (cr : Crypto) (k domain host rest method body : Text) (now n m : ℕ) (r : Request)
    → IsSound cr
    → Free b'/' host
    → host ≢ []
    → domain ≢ []
    → IsClock now
    → IsClock n
    → IsClock m
    → n ≤ now + 300
    → now ≤ m + 300
    → r.headers ≡ sign_request cr k domain now method (https_url host rest) body
    → r.method ≡ method
    → request_path r ≡ b'/' ∷ rest
    → verify_request cr n m r body (cr.public_key k) ≡ ok tt
unfolding verify_request sign_request
verify_request-sign_request cr k domain host rest method body now n m r sound free there named c cn
      cm p q hs hm hp =
    let payload = signed_payload domain host (itoa now) method (b'/' ∷ rest) (body_hash cr body) in
    ground (
      arith,
      url_dest_https host rest free,
      url_path_of_https host rest free,
      is_empty-ne host there,
      is_empty-ne domain named,
      is_empty-ne (itoa now) (itoa-ne-nil now),
      sound.signature_there k payload,
      sound.verify-sign k payload,
      sound.unbase64-base64 (cr.sign k payload),
      parse_int-itoa now,
      fresh_timestamp now n m c cn cm p q,
    )
