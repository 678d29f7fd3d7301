-- ===== src/Dragonfly/Retry/Rounds.antt =====
-- The rounds of RetryWithBackoff (pkg/dragonfly/utils.go).
use mathlib.Core.Bool.{false≢true}
use gochoreo.Common.{
  ℕ, zero, suc, ◌+◌, ◌≤◌, ◌<◌, ◌≡◌, refl, inl, inr, true, false, Option, none, some, ◌++◌, arith,
  Bool-cases, Option-cases, ◌∙◌, ap, sym, subst,
}
use mathlib.Core.List.{append_assoc}
use gochoreo.Common.Int.{ℤ, pos}
use gochoreo.Dragonfly.Errors.{Err, should_retry}
use gochoreo.Dragonfly.Retry.{World, waits, next_delay, retry_loop, after, answer, delays}

delays_step :
    (attempt k delay : ℕ)
    → waits attempt delay ++ delays (suc attempt) k (next_delay attempt delay)
      ≡ delays attempt (suc k) delay
delays_step zero k delay = refl
delays_step (suc attempt) k delay = refl

delays_zero : (attempt delay : ℕ) → waits attempt delay ≡ delays attempt 0 delay
delays_zero zero delay = refl
delays_zero (suc attempt) delay = refl

never_last :
    (n attempt : ℕ) (err : Option Err) → n ≤ attempt → should_retry err attempt (pos n) ≡ false
unfolding should_retry
never_last n attempt none h = refl
never_last n attempt (some e) h = ground arith

pub not_nil : (m : ℤ) (attempt : ℕ) → should_retry none attempt m ≡ false
not_nil m attempt = unfold should_retry in refl

module _ {S : Type 0} (fn : S → Option Err × S) where
  -- The loop ends after the call number k (counted on from the attempt): every call before it
  -- failed in a way that allows a retry, and its own answer does not.
  pub record Ends (max_retries : ℤ) (attempt delay k : ℕ) (w : World S) (r : Option Err × World S)
      : Type 0 where
    pub result : r.0 ≡ answer fn k w.state
    pub state : r.1.state ≡ after fn (suc k) w.state
    pub slept : r.1.slept ≡ w.slept ++ delays attempt k delay
    pub retried :
        (j : ℕ) → j < k → should_retry (answer fn j w.state) (attempt + j) max_retries ≡ true
    pub final : should_retry (answer fn k w.state) (attempt + k) max_retries ≡ false

  abbrev called : ℕ → ℕ → World S → World S
  called attempt delay w = record { state = (fn w.state).1; slept = w.slept ++ waits attempt delay }

  loop_stops :
      (m : ℤ) (rounds attempt delay : ℕ) (last : Option Err) (w : World S)
      → should_retry (fn w.state).0 attempt m ≡ false
      → retry_loop fn m (suc rounds) attempt delay last w ≡ ((fn w.state).0, called attempt delay w)
  unfolding retry_loop
  loop_stops m rounds attempt delay last w h = elim (Option-cases (fn w.state).0) [
    | inl fine ↦ rw (fine, retry_loop) refl
    | inr (e, failed) ↦
        let h' : should_retry (some e) attempt m ≡ false =
          sym (ap (λ o. should_retry o attempt m) failed) ∙ h in
        rw (failed, retry_loop, h') refl
  ]

  loop_goes_on :
      (m : ℤ) (rounds attempt delay : ℕ) (last : Option Err) (w : World S)
      → should_retry (fn w.state).0 attempt m ≡ true
      → retry_loop fn m (suc rounds) attempt delay last w
        ≡ retry_loop fn m rounds
            (suc attempt)
            (next_delay attempt delay)
            (fn w.state).0
            (called attempt delay w)
  unfolding retry_loop
  loop_goes_on m rounds attempt delay last w h = elim (Option-cases (fn w.state).0) [
    | inl fine ↦
        absurd
          (false≢true (sym (not_nil m attempt) ∙ sym (ap (λ o. should_retry o attempt m) fine) ∙ h))
    | inr (e, failed) ↦
        let h' : should_retry (some e) attempt m ≡ true =
          sym (ap (λ o. should_retry o attempt m) failed) ∙ h in
        rw (failed, retry_loop, h') refl
  ]

  stops-Ends :
      (m : ℤ) (rounds attempt delay : ℕ) (last : Option Err) (w : World S)
      → should_retry (fn w.state).0 attempt m ≡ false
      → Ends m attempt delay 0 w (retry_loop fn m (suc rounds) attempt delay last w)
  stops-Ends m rounds attempt delay last w h =
      rw (loop_stops m rounds attempt delay last w h) (record {
        result = refl;
        state = refl;
        slept = ap (λ d. w.slept ++ d) (delays_zero attempt delay);
        retried = λ j lt. absurd (omega arith);
        final = rw (add_zero attempt) h;
      })
    where
      add_zero : (n : ℕ) → n + 0 ≡ n
      add_zero n = omega arith

  goes_on-Ends :
      (m : ℤ) (rounds attempt delay k : ℕ) (last : Option Err) (w : World S)
      → should_retry (fn w.state).0 attempt m ≡ true
      → Ends m (suc attempt) (next_delay attempt delay) k (called attempt delay w) (
          retry_loop fn m rounds
            (suc attempt)
            (next_delay attempt delay)
            (fn w.state).0
            (called attempt delay w))
      → Ends m attempt delay (suc k) w (retry_loop fn m (suc rounds) attempt delay last w)
  goes_on-Ends m rounds attempt delay k last w h ends =
      rw (loop_goes_on m rounds attempt delay last w h) (record {
        result = ends.result;
        state = ends.state;
        slept =
            ends.slept
            ∙ append_assoc w.slept (waits attempt delay)
                (delays (suc attempt) k (next_delay attempt delay))
            ∙ ap (λ d. w.slept ++ d) (delays_step attempt k delay);
        retried = earlier;
        final =
            subst (λ i. should_retry (answer fn (suc k) w.state) i m ≡ false) (shift k) ends.final;
      })
    where
      shift : (j : ℕ) → suc attempt + j ≡ attempt + suc j
      shift j = omega arith

      earlier : (j : ℕ) → j < suc k → should_retry (answer fn j w.state) (attempt + j) m ≡ true
      earlier zero lt = subst (λ i. should_retry (answer fn 0 w.state) i m ≡ true) (omega arith) h
      earlier (suc j) lt =
          subst (λ i. should_retry (answer fn (suc j) w.state) i m ≡ true) (shift j)
            (ends.retried j (omega arith))

  pub retry_loop-Ends :
      (n rounds attempt delay : ℕ) (last : Option Err) (w : World S)
      → attempt + rounds ≡ n
      → (k : ℕ) × (k ≤ rounds)
        × Ends (pos n) attempt delay k w (retry_loop fn (pos n) (suc rounds) attempt delay last w)
  retry_loop-Ends n zero attempt delay last w e = (
    0,
    omega arith,
    stops-Ends (pos n) 0 attempt delay last w (never_last n attempt (fn w.state).0 (omega arith)),
  )
  retry_loop-Ends n (suc rounds) attempt delay last w e =
      elim (Bool-cases (should_retry (fn w.state).0 attempt (pos n))) [
        | inr stop ↦ (0, omega arith, stops-Ends (pos n) (suc rounds) attempt delay last w stop)
        | inl go_on ↦
            let (k, le, ends) =
              retry_loop-Ends n rounds (suc attempt) (next_delay attempt delay) (fn w.state).0
                (called attempt delay w) (omega arith) in
            (
              suc k,
              omega arith,
              goes_on-Ends (pos n) (suc rounds) attempt delay k last w go_on ends,
            )
      ]
