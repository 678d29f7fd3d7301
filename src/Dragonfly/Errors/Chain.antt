-- ===== src/Dragonfly/Errors/Chain.antt =====
-- The tests look for a pointer anywhere in the chain of causes, and for nothing else.
use mathlib.Core.Bool.{false≢true}
use gochoreo.Common.{
  ◌≡◌, refl, ◌↔◌, ℕ, Bool, true, false, ◌||◌, Option, none, some, arith, Bool-cases, inl, inr, ◌∙◌,
  sym, subst,
}
use gochoreo.Common.Int.{ℤ, pos, ltb_ℤ}
use gochoreo.Dragonfly.Errors.{
  Err, plain, connection_error, timeout_error, auth_error, cluster_error, protocol_error,
  metrics_error, health_check_error, invalid_config, wrapping, no_cause, caused_by, cause_of,
  errors_as, errors_as_cause, is_connection_pointer, is_timeout_pointer, is_auth_pointer,
  is_cluster_pointer, is_protocol_pointer, should_retry, is_connection_error, is_timeout_error,
  is_auth_error, is_cluster_error, is_protocol_error, is_temporary_error,
}

-- An error of the chain: the error itself, or one of the chain of its cause.
pub data InChain (x : Err) : Err → Type 0 where
  here : InChain x x
  deeper : {e c : Err} → cause_of e ≡ caused_by c → InChain x c → InChain x e

errors_as_step :
    (test : Err → Bool) (e : Err) → errors_as test e ≡ (test e || errors_as_cause test (cause_of e))
unfolding errors_as
errors_as_step test (plain t) = ground arith
errors_as_step test (connection_error f a c) = refl
errors_as_step test (timeout_error f o d c) = refl
errors_as_step test (auth_error f u c) = refl
errors_as_step test (cluster_error f n c) = refl
errors_as_step test (protocol_error f v c) = refl
errors_as_step test (metrics_error f o c) = refl
errors_as_step test (health_check_error f k c) = refl
errors_as_step test (invalid_config f n r) = ground arith
errors_as_step test (wrapping t c) = refl

errors_as_hit : (test : Err → Bool) (e : Err) → test e ≡ true → errors_as test e ≡ true
errors_as_hit test e h = errors_as_step test e ∙ rw h refl

errors_as_deeper :
    (test : Err → Bool) (e c : Err)
    → cause_of e ≡ caused_by c
    → errors_as test c ≡ true
    → errors_as test e ≡ true
unfolding errors_as_cause
errors_as_deeper test e c q h = errors_as_step test e ∙ rw (q, h) (ground arith)

-- What is in the chain is found.
errors_as_finds :
    (test : Err → Bool) (x : Err) {e : Err} → InChain x e → test x ≡ true → errors_as test e ≡ true
errors_as_finds test x here h = errors_as_hit test x h
errors_as_finds test x (deeper {e} {c} q i) h =
    errors_as_deeper test e c q (errors_as_finds test x i h)

abbrev pub Found : (Err → Bool) → Err → Type 0
Found test e = (x : Err) × InChain x e × (test x ≡ true)

found_last :
    (test : Err → Bool) (e : Err) → cause_of e ≡ no_cause → errors_as test e ≡ true → Found test e
unfolding errors_as_cause
found_last test e q h =
    let hit : (test e || errors_as_cause test no_cause) ≡ true =
      subst (λ c. (test e || errors_as_cause test c) ≡ true) q (sym (errors_as_step test e) ∙ h) in
    (e, here, ground arith)

found_deeper :
    (test : Err → Bool) (e c : Err)
    → cause_of e ≡ caused_by c
    → (errors_as test c ≡ true → Found test c)
    → errors_as test e ≡ true
    → Found test e
unfolding errors_as_cause
found_deeper test e c q rest h =
    let hit : (test e || errors_as test c) ≡ true =
      subst (λ c. (test e || errors_as_cause test c) ≡ true) q (sym (errors_as_step test e) ∙ h) in
    elim (Bool-cases (test e)) [
      | inl this ↦ (e, here, this)
      | inr other ↦ let (x, i, t) = rest (ground arith) in (x, deeper q i, t)
    ]

-- What is found is in the chain.
errors_as_found : (test : Err → Bool) (e : Err) → errors_as test e ≡ true → Found test e
errors_as_found test (plain t) h = found_last test _ refl h
errors_as_found test (connection_error f a no_cause) h = found_last test _ refl h
errors_as_found test (connection_error f a (caused_by c)) h =
    found_deeper test _ c refl (errors_as_found test c) h
errors_as_found test (timeout_error f o d no_cause) h = found_last test _ refl h
errors_as_found test (timeout_error f o d (caused_by c)) h =
    found_deeper test _ c refl (errors_as_found test c) h
errors_as_found test (auth_error f u no_cause) h = found_last test _ refl h
errors_as_found test (auth_error f u (caused_by c)) h =
    found_deeper test _ c refl (errors_as_found test c) h
errors_as_found test (cluster_error f n no_cause) h = found_last test _ refl h
errors_as_found test (cluster_error f n (caused_by c)) h =
    found_deeper test _ c refl (errors_as_found test c) h
errors_as_found test (protocol_error f v no_cause) h = found_last test _ refl h
errors_as_found test (protocol_error f v (caused_by c)) h =
    found_deeper test _ c refl (errors_as_found test c) h
errors_as_found test (metrics_error f o no_cause) h = found_last test _ refl h
errors_as_found test (metrics_error f o (caused_by c)) h =
    found_deeper test _ c refl (errors_as_found test c) h
errors_as_found test (health_check_error f k no_cause) h = found_last test _ refl h
errors_as_found test (health_check_error f k (caused_by c)) h =
    found_deeper test _ c refl (errors_as_found test c) h
errors_as_found test (invalid_config f n r) h = found_last test _ refl h
errors_as_found test (wrapping t no_cause) h = found_last test _ refl h
errors_as_found test (wrapping t (caused_by c)) h =
    found_deeper test _ c refl (errors_as_found test c) h

pub errors_as_iff : (test : Err → Bool) (e : Err) → (errors_as test e ≡ true) ↔ Found test e
errors_as_iff test e =
    (errors_as_found test e, λ h. let (x, i, t) = h in errors_as_finds test x i t)

abbrev pub is_retryable : Err → Bool
is_retryable x = is_connection_pointer x || is_timeout_pointer x || is_cluster_pointer x

Found-imp :
    (p q : Err → Bool) (e : Err) → ((x : Err) → p x ≡ true → q x ≡ true) → Found p e → Found q e
Found-imp p q e imp (x, i, t) = (x, i, imp x t)

errors_as_imp :
    (p q : Err → Bool) (e : Err)
    → ((x : Err) → p x ≡ true → q x ≡ true)
    → errors_as p e ≡ true
    → Found q e
errors_as_imp p q e imp h = Found-imp p q e imp (errors_as_found p e h)

-- The three searches of IsTemporaryError find what one search for the three finds.
temporary_iff : (e : Err) → (is_temporary_error (some e) ≡ true) ↔ Found is_retryable e
unfolding is_temporary_error is_connection_error is_timeout_error is_cluster_error
temporary_iff e = (to, from)
  where
    to :
        (errors_as is_connection_pointer e
            || errors_as is_timeout_pointer e
            || errors_as is_cluster_pointer e)
          ≡ true
        → Found is_retryable e
    to h = elim (Bool-cases (errors_as is_connection_pointer e)) [
      | inl c ↦ errors_as_imp is_connection_pointer is_retryable e (λ x t. ground arith) c
      | inr not_c ↦ elim (Bool-cases (errors_as is_timeout_pointer e)) [
        | inl t ↦ errors_as_imp is_timeout_pointer is_retryable e (λ x t. ground arith) t
        | inr not_t ↦
            errors_as_imp is_cluster_pointer is_retryable e (λ x t. ground arith) (ground arith)
      ]
    ]

    from :
        Found is_retryable e
        → (errors_as is_connection_pointer e
            || errors_as is_timeout_pointer e
            || errors_as is_cluster_pointer e)
          ≡ true
    from (x, i, t) = ground (
      arith,
      errors_as_finds is_connection_pointer x i,
      errors_as_finds is_timeout_pointer x i,
      errors_as_finds is_cluster_pointer x i,
    )

not_found : (p : Err → Bool) (e : Err) → (errors_as p e ≡ false) ↔ (¬ Found p e)
not_found p e = (
  (λ h f. absurd (false≢true (sym h ∙ (errors_as_iff p e).1 f))),
  λ n. elim (Bool-cases (errors_as p e)) [
    | inl found ↦ absurd (n ((errors_as_iff p e).0 found))
    | inr other ↦ other
  ],
)

retry_tests :
    (err : Err) (attempt : ℕ) (max_retries : ℤ)
    → (should_retry (some err) attempt max_retries ≡ true) ↔ (
        (ltb_ℤ (pos attempt) max_retries ≡ true)
        × (is_temporary_error (some err) ≡ true)
        × (errors_as is_auth_pointer err ≡ false)
        × (errors_as is_protocol_pointer err ≡ false))
unfolding should_retry is_auth_error is_protocol_error
retry_tests err attempt max_retries = ground arith

-- ShouldRetry allows another attempt exactly when the attempts are not used up, a pointer to a
-- connection, timeout or cluster error is in the chain of the error, and no pointer to an
-- authentication or protocol error is.
pub should_retry_iff :
    (err : Err) (attempt : ℕ) (max_retries : ℤ)
    → (should_retry (some err) attempt max_retries ≡ true) ↔ (
        (ltb_ℤ (pos attempt) max_retries ≡ true)
        × Found is_retryable err
        × (¬ Found is_auth_pointer err)
        × (¬ Found is_protocol_pointer err))
should_retry_iff err attempt max_retries =
    let (to, from) = retry_tests err attempt max_retries in
    (
      (λ h.
          let (left, temporary, auth, protocol) = to h in
          (
            left,
            (temporary_iff err).0 temporary,
            (not_found is_auth_pointer err).0 auth,
            (not_found is_protocol_pointer err).0 protocol,
          )),
      λ h.
          let (left, temporary, auth, protocol) = h in
          from (
            left,
            (temporary_iff err).1 temporary,
            (not_found is_auth_pointer err).1 auth,
            (not_found is_protocol_pointer err).1 protocol,
          ),
    )

-- An error whose chain holds no pointer, only values, is never retried.
pub should_retry-by_value :
    (err : Option Err) (attempt : ℕ) (max_retries : ℤ)
    → ((e x : Err) → err ≡ some e → InChain x e → is_retryable x ≡ false)
    → should_retry err attempt max_retries ≡ false
unfolding should_retry
should_retry-by_value none attempt max_retries h = refl
should_retry-by_value (some e) attempt max_retries h =
    elim (Bool-cases (should_retry (some e) attempt max_retries)) [
      | inl yes_retry ↦
          let (left, (x, i, t), auth, protocol) =
            (should_retry_iff e attempt max_retries).0 yes_retry in
          absurd (false≢true (sym (h e x refl i) ∙ t))
      | inr no_retry ↦ no_retry
    ]
