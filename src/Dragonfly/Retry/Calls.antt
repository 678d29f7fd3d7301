-- ===== src/Dragonfly/Retry/Calls.antt =====
-- What RetryWithBackoff (pkg/dragonfly/utils.go) calls, answers and sleeps.
use mathlib.Core.Bool.{false≢true}
use gochoreo.Common.{
  ℕ, suc, ◌+◌, ◌≤◌, ◌<◌, ◌≡◌, refl, inl, inr, true, false, Option, none, some, [], arith,
  Bool-cases, ltb, ◌∙◌, ap, sym, subst,
}
use gochoreo.Common.Int.{pos, negsuc}
use gochoreo.Text.{codes}
use gochoreo.Dragonfly.Errors.{Err, no_cause, wrapping, should_retry}
use gochoreo.Dragonfly.Retry.{World, retry_loop, retry_with_backoff, after, answer, doubles}
use gochoreo.Dragonfly.Retry.Rounds.{not_nil, retry_loop-Ends}

module _ {S : Type 0} (fn : S → Option Err × S) where
  -- With a number of retries that is not negative, RetryWithBackoff calls the function at most once
  -- more than that number and answers what the last call answered, never the error "max retries
  -- exceeded". Every call but the last failed in a way that ShouldRetry allows to retry, and the
  -- last did not. Between the calls it sleeps the initial delay and its doubles modulo 2 ^ 64.
  pub retry_with_backoff_lem :
      (n initial_delay : ℕ) (s : S)
      → (k : ℕ) × (k ≤ n)
        × (let r = retry_with_backoff fn (pos n) initial_delay s in
            (r.0 ≡ answer fn k s)
            × (r.1.state ≡ after fn (suc k) s)
            × (r.1.slept ≡ doubles k initial_delay)
            × ((j : ℕ) → j < k → should_retry (answer fn j s) j (pos n) ≡ true)
            × (should_retry (answer fn k s) k (pos n) ≡ false))
  unfolding retry_with_backoff
  retry_with_backoff_lem n initial_delay s =
      let w : World S = record { state = s; slept = [] } in
      let (k, le, ends) = retry_loop-Ends fn n n 0 initial_delay none w (omega arith) in
      (
        k,
        le,
        (
          ends.result,
          ends.state,
          ends.slept,
          (λ j lt.
              subst (λ i. should_retry (answer fn j s) i (pos n) ≡ true) (zero_add j)
                (ends.retried j lt)),
          subst (λ i. should_retry (answer fn k s) i (pos n) ≡ false) (zero_add k) ends.final,
        ),
      )
    where
      zero_add : (j : ℕ) → 0 + j ≡ j
      zero_add j = omega arith

  last_call :
      (n k m : ℕ) (s : S)
      → ((j : ℕ) → j < k → should_retry (answer fn j s) j (pos n) ≡ true)
      → should_retry (answer fn k s) k (pos n) ≡ false
      → ((j : ℕ) → j < m → should_retry (answer fn j s) j (pos n) ≡ true)
      → answer fn m s ≡ none
      → k ≡ m
  last_call n k m s retried final failures success = elim (Bool-cases (ltb k m)) [
    | inl before ↦ absurd (false≢true (sym final ∙ failures k (ground arith)))
    | inr not_before ↦ elim (Bool-cases (ltb m k)) [
      | inl behind ↦ absurd (
          false≢true (
            sym (ap (λ o. should_retry o m (pos n)) success ∙ not_nil (pos n) m)
            ∙ retried m (ground arith)))
      | inr not_behind ↦ ground arith
    ]
  ]

  -- If the call after m failures succeeds, m is at most the number of retries, and ShouldRetry
  -- allows a retry after each of these failures, RetryWithBackoff succeeds after exactly these
  -- calls.
  pub retry_with_backoff-succeeds :
      (n initial_delay m : ℕ) (s : S)
      → ((j : ℕ) → j < m → should_retry (answer fn j s) j (pos n) ≡ true)
      → answer fn m s ≡ none
      → let r = retry_with_backoff fn (pos n) initial_delay s in
        (r.0 ≡ none) × (r.1.state ≡ after fn (suc m) s) × (r.1.slept ≡ doubles m initial_delay)
  retry_with_backoff-succeeds n initial_delay m s failures success =
      let (k, le, (result, state, slept, retried, final)) =
        retry_with_backoff_lem n initial_delay s in
      let same : k ≡ m = last_call n k m s retried final failures success in
      (
        result ∙ ap (λ i. answer fn i s) same ∙ success,
        state ∙ ap (λ i. after fn (suc i) s) same,
        slept ∙ ap (λ i. doubles i initial_delay) same,
      )

  -- With a negative number of retries the function is not called at all, and the error says that
  -- the retries are exceeded, with no cause.
  pub retry_with_backoff-negative :
      (n initial_delay : ℕ) (s : S)
      → retry_with_backoff fn (negsuc n) initial_delay s ≡ (
        some (wrapping (codes "max retries exceeded: ") no_cause),
        record { state = s; slept = [] },
      )
  unfolding retry_with_backoff retry_loop
  retry_with_backoff-negative n initial_delay s = refl
