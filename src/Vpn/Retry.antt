-- ===== src/Vpn/Retry.antt =====
-- xrayRetry of server/internal/vpn/xrayapi.go: up to three attempts, with a wait before each but the first.
use astralrelay_online.Common.{
  ℕ, zero, suc, ◌+◌, ◌*◌, ◌≤◌, ◌≡◌, Bool, true, false, not, ◌&&◌, Result, ok, err, if◌then◌else◌,
  ◌==◌, arith,
}

pub data RetryError : Type 0 where
  cancelled last_error : RetryError

abbrev pub xray_retries : ℕ
xray_retries = 3

-- In milliseconds.
abbrev pub xray_backoff_base : ℕ
xray_backoff_base = 200

-- The loop from an attempt on, with the attempts that are left: whether attempt i fails, and whether the
-- context is done in the wait before it; the waits so far are summed up.
unfoldable pub retry_from :
    (ℕ → Bool) → (ℕ → Bool) → ℕ → ℕ → ℕ → ℕ → ℕ × Result RetryError (Unit {0})
retry_from fails done zero i backoff waited = (waited, err last_error)
retry_from fails done (suc left) i backoff waited =
    let first = retry_from fails done left (suc i) backoff waited in
    let later = retry_from fails done left (suc i) (backoff * 2) (waited + backoff) in
    if i == 0
    then (if fails i then first else (waited, ok tt))
    else if done i
    then (waited, err cancelled)
    else if fails i
    then later
    else (waited + backoff, ok tt)

-- xrayRetry; without a client nothing is done. The number is the milliseconds waited.
unfoldable pub xray_retry : Bool → (ℕ → Bool) → (ℕ → Bool) → ℕ × Result RetryError (Unit {0})
xray_retry has_client fails done =
    if not has_client then (0, ok tt) else retry_from fails done xray_retries 0 xray_backoff_base 0

-- With a client and a context that is not done, the call succeeds exactly when one of the three attempts
-- does, and it has waited 600 ms at most.
pub xray_retry_tries :
    (fails done : ℕ → Bool)
    → ((i : ℕ) → done i ≡ false)
    → ((xray_retry true fails done).1
        ≡ (if fails 0 && fails 1 && fails 2 then err last_error else ok tt))
      × ((xray_retry true fails done).0 ≤ 600)
unfolding xray_retry retry_from
xray_retry_tries fails done live =
    let one = live 1 in let two = live 2 in (ground (arith, one, two), ground (arith, one, two))
