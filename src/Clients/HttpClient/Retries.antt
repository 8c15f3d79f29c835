-- ===== src/Clients/HttpClient/Retries.antt =====
-- How many calls a request makes, how long it sleeps, and what it returns.
use flotilla_os.Common.{
  ℕ, zero, suc, ◌+◌, ◌*◌, ℤ, pos, Bool, true, false, List, [], ◌∷◌, if◌then◌else◌, ltb, ◌&&◌,
}
use flotilla_os.Common.Int64.{two63}
use flotilla_os.Clients.HttpClient.{Reply, succeeded, retryable, failed}

abbrev pub is_retryable : Reply → Bool
is_retryable succeeded = false
is_retryable (failed e) = false
is_retryable (retryable e) = true

-- How many of `n` calls from the `i`-th on return a retryable error before one does not.
unfoldable pub retried : (ℕ → Reply) → ℕ → ℕ → ℕ
retried fn zero i = 0
retried fn (suc n) i = if is_retryable (fn i) then suc (retried fn n (i + 1)) else 0

-- `n` sleeps, each twice as long as the one before.
unfoldable pub doubled_sleeps : ℕ → ℕ → List ℤ
doubled_sleeps zero s = []
doubled_sleeps (suc n) s = pos s ∷ doubled_sleeps n (s * 2)

-- None of `n` sleeps wraps.
unfoldable pub fits : ℕ → ℕ → Bool
fits zero s = true
fits (suc n) s = ltb (s * 2) two63 && fits n (s * 2)

-- The calls that are made of `n`, when `k` are retried.
abbrev pub made : ℕ → ℕ → ℕ
made n k = if ltb k n then k + 1 else n
