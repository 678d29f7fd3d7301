-- ===== src/Dragonfly/Retry.antt =====
-- RetryWithBackoff (pkg/dragonfly/utils.go): the function that is tried is a step on a state; the
-- sleeps are recorded in order.
pub mod Rounds
pub mod Calls
use mathlib.Core.Bool.{false≢true}
use gochoreo.Common.{
  ℕ, zero, suc, ◌+◌, ◌*◌, ◌%◌, ◌≤◌, ◌<◌, ◌≡◌, refl, inl, inr, true, false, Option, none, some, List,
  [], ◌∷◌, ◌++◌, arith, Bool-cases, Option-cases, ltb, ◌∙◌, ap, sym, subst,
}
use mathlib.Core.List.{append_assoc}
use gochoreo.Common.Int.{ℤ, pos, negsuc}
use gochoreo.Common.Word.{mod64}
use gochoreo.Text.{codes}
use gochoreo.Dragonfly.Errors.{Err, Cause, no_cause, caused_by, wrapping, should_retry}

pub record World (S : Type 0) : Type 0 where
  pub state : S
  pub slept : List ℕ

-- `delay *= 2` on an int64
abbrev pub double64 : ℕ → ℕ
double64 d = (2 * d) % mod64

abbrev pub cause_option : Option Err → Cause
cause_option none = no_cause
cause_option (some e) = caused_by e

-- `attempt <= maxRetries` for attempts from 0: the number of rounds
abbrev pub rounds_of : ℤ → ℕ
rounds_of (pos n) = suc n
rounds_of (negsuc n) = 0

-- `if attempt > 0 { time.Sleep(delay); delay *= 2 }`
abbrev pub waits : ℕ → ℕ → List ℕ
waits zero delay = []
waits (suc attempt) delay = delay ∷ []

abbrev pub next_delay : ℕ → ℕ → ℕ
next_delay zero delay = delay
next_delay (suc attempt) delay = double64 delay

module _ {S : Type 0} (fn : S → Option Err × S) where
  -- The loop, with the rounds that are left.
  unfoldable pub retry_loop : ℤ → ℕ → ℕ → ℕ → Option Err → World S → Option Err × World S
  retry_loop max_retries zero attempt delay last_err w =
      (some (wrapping (codes "max retries exceeded: ") (cause_option last_err)), w)
  retry_loop max_retries (suc rounds) attempt delay last_err w =
      let (err, s) = fn w.state in
      let called : World S = record { state = s; slept = w.slept ++ waits attempt delay } in
      elim err [
        | none ↦ (none, called)
        | some e ↦ elim (should_retry (some e) attempt max_retries) [
          | false ↦ (some e, called)
          | true ↦
              retry_loop max_retries rounds (suc attempt) (next_delay attempt delay) (some e) called
        ]
      ]

  unfoldable pub retry_with_backoff : ℤ → ℕ → S → Option Err × World S
  retry_with_backoff max_retries initial_delay s =
      retry_loop max_retries (rounds_of max_retries) 0 initial_delay none
        (record { state = s; slept = [] })

  -- The state after a number of calls, and what the next call answers.
  abbrev pub after : ℕ → S → S
  after zero s = s
  after (suc k) s = after k (fn s).1

  abbrev pub answer : ℕ → S → Option Err
  answer k s = (fn (after k s)).0

-- The delays before further calls: the first, and its doubles modulo 2 ^ 64.
abbrev pub doubles : ℕ → ℕ → List ℕ
doubles zero delay = []
doubles (suc k) delay = delay ∷ doubles k (double64 delay)

-- The sleeps of the calls from an attempt on: none before the first call of all.
abbrev pub delays : ℕ → ℕ → ℕ → List ℕ
delays zero k delay = doubles k delay
delays (suc attempt) k delay = doubles (suc k) delay
