-- ===== src/Federation/Discovery.antt =====
-- An endpoint that was found is used for five minutes, and a transaction goes where it should.
use astralrelay_online.Common.{
  ℕ, ◌+◌, ◌<◌, ◌≡◌, inl, inr, refl, sym, ap, ◌∙◌, Bool, true, false, none, some, ltb, arith,
  Option-cases, Result, ok, err,
}
use astralrelay_online.Common.Text.{Text, lit, text_eq_refl}
use astralrelay_online.Common.Trim.{norm}
use astralrelay_online.Federation.Client.{
  Client, Network, ClientError, get_request, unreachable, endpoint_of, url_at, discovery_cache_ttl,
  find_cached, fresh_endpoint, remember, discover, resolve_endpoint,
}

remembered :
    (c : Client) (d endpoint : Text) (now later : ℕ)
    → later < now + discovery_cache_ttl
    → fresh_endpoint later (find_cached d (remember c d endpoint now).cache) ≡ some endpoint
unfolding find_cached remember
remembered c d endpoint now later early =
    let fresh : ltb later (now + discovery_cache_ttl) ≡ true = ground arith in
    rw (text_eq_refl d) (rw fresh refl)

-- What a discovery that succeeds leaves in the cache.
discover_remembers :
    (n : Network) (now later : ℕ) (remote endpoint : Text) (c : Client)
    → (discover n now remote c).1 ≡ ok endpoint
    → later < now + discovery_cache_ttl
    → fresh_endpoint later (find_cached (norm remote) (discover n now remote c).0.cache)
      ≡ some endpoint
unfolding discover
discover_remembers n now later remote endpoint c found early =
    elim (Option-cases (n.answer (get_request (url_at remote (lit "/.well-known/federation"))))) [
      | inl silent ↦
          let failed : (discover n now remote c).1 ≡ err unreachable = rw (silent, discover) refl in
          ground (arith, failed, found)
      | inr (r, answered) ↦
          let base = url_at remote (lit "/federation/v1") in
          let did : discover n now remote c
              ≡ (remember c (norm remote) (endpoint_of n base r) now, ok (endpoint_of n base r)) =
            rw (answered, discover) refl in
          let same : endpoint_of n base r ≡ endpoint = ground (arith, did, found) in
          rw (did, same) (remembered c (norm remote) endpoint now later early)
    ]

resolve_endpoint_new :
    (n : Network) (now : ℕ) (remote : Text) (c : Client)
    → fresh_endpoint now (find_cached (norm remote) c.cache) ≡ none
    → resolve_endpoint n now remote c
      ≡ ((discover n now remote c).0, (discover n now remote c).1, true)
unfolding resolve_endpoint
resolve_endpoint_new n now remote c new = rw (new, resolve_endpoint) refl

resolve_endpoint_known :
    (m : Network) (later : ℕ) (remote endpoint : Text) (c : Client)
    → fresh_endpoint later (find_cached (norm remote) c.cache) ≡ some endpoint
    → resolve_endpoint m later remote c ≡ (c, ok endpoint, false)
unfolding resolve_endpoint
resolve_endpoint_known m later remote endpoint c known = rw (known, resolve_endpoint) refl

-- An endpoint that was discovered is given for five minutes to every spelling of the domain that is the
-- same in lower case without the spaces around it, whatever the network answers then, without a request.
pub resolve_endpoint_again :
    (n m : Network) (now later : ℕ) (remote spelled endpoint : Text) (c : Client)
    → fresh_endpoint now (find_cached (norm remote) c.cache) ≡ none
    → (resolve_endpoint n now remote c).1 ≡ ok endpoint
    → norm spelled ≡ norm remote
    → later < now + discovery_cache_ttl
    → resolve_endpoint m later spelled (resolve_endpoint n now remote c).0
      ≡ ((resolve_endpoint n now remote c).0, ok endpoint, false)
resolve_endpoint_again n m now later remote spelled endpoint c new found alike early =
    let resolved = resolve_endpoint_new n now remote c new in
    let met = sym (ap (λ (r : Client × Result ClientError Text × Bool). r.1) resolved) ∙ found in
    let kept = discover_remembers n now later remote endpoint c met early in
    resolve_endpoint_known m later spelled endpoint (resolve_endpoint n now remote c).0
      (rw (alike, resolved) kept)
