-- ===== src/Dragonfly/Health/Counts.antt =====
-- The counters of the health status against the history of checks.
use mathlib.Core.Bool.{false≢true}
use gochoreo.Common.{
  ℕ, suc, ◌≤◌, ◌<◌, ◌≡◌, refl, inl, inr, Bool, true, false, not, ◌&&◌, ◌||◌, Option, none, some,
  List, [], ◌∷◌, arith, if◌then◌else◌, is_some, Option-cases, Bool-cases, ap, ◌∙◌, is_empty,
}
use gochoreo.Common.Word.{add64, lt64, lt64_small, half64}
use gochoreo.Text.{Text, codes, text_eq, has_prefix, split, cut}
use gochoreo.Text.Space.{trim_space}
use gochoreo.Dragonfly.Errors.{Err}
use gochoreo.Dragonfly.Metrics.{Metrics}
use gochoreo.Dragonfly.Health.{
  HealthStatus, HealthChecker, Answers, Clock, new_health_checker, store_info, parse_line,
  parse_lines, parse_server_info, parse_answer, set_and_get, perform_health_check, finish_check,
  check, is_healthy, reset_health,
}

-- Every command that a check needs was answered; INFO is not one of them.
abbrev pub all_answered : Answers → Bool
all_answered a =
    not a.client_is_nil && (not (is_some a.ping) && (not (is_some a.set) && not (is_some a.get)))

-- The states after a history: how many checks and how many failed ones there were since the last
-- Reset, and how many of these failed after the last one that passed.
pub data Reach : ℕ → ℕ → ℕ → HealthChecker → Type 0 where
  made :
      (now : ℕ) (connected : Bool) (last : Option ℕ) (metrics : Option Metrics)
      → Reach 0 0 0 (new_health_checker now connected last metrics)
  passed :
      (n f k : ℕ) (hc : HealthChecker) (a : Answers) (t : Clock)
      → Reach n f k hc
      → all_answered a ≡ true
      → Reach (suc n) f 0 (check a t hc)
  failed :
      (n f k : ℕ) (hc : HealthChecker) (a : Answers) (t : Clock)
      → Reach n f k hc
      → all_answered a ≡ false
      → Reach (suc n) (suc f) (suc k) (check a t hc)
  was_reset :
      (n f k : ℕ) (hc : HealthChecker) (now : ℕ)
      → Reach n f k hc
      → Reach 0 0 0 (reset_health now hc)

-- The error of a check says whether all commands were answered, and does not depend on the status.
perform_lem :
    (a : Answers) (s : HealthStatus) → is_some (perform_health_check a s).0 ≡ not (all_answered a)
unfolding perform_health_check set_and_get
perform_lem a s = ground arith

-- What the lines of INFO leave as it is.
record Counters : Type 0 where
  up : Bool
  checks : ℕ
  failures : ℕ
  consecutive : ℕ

abbrev counters : HealthStatus → Counters
counters s = record {
  up = s.connected;
  checks = s.check_count;
  failures = s.failure_count;
  consecutive = s.consecutive_fails;
}

store_info-counters : (k v : Text) (s : HealthStatus) → counters (store_info k v s) ≡ counters s
unfolding store_info
store_info-counters k v s = elim (Bool-cases (text_eq k (codes "used_memory"))) [
  | inl a ↦ rw a refl
  | inr a ↦ elim (Bool-cases (text_eq k (codes "connected_clients"))) [
    | inl b ↦ rw (a, b) refl
    | inr b ↦ rw (a, b) refl
  ]
]

parse_line-counters : (line : Text) (s : HealthStatus) → counters (parse_line line s) ≡ counters s
unfolding parse_line
parse_line-counters line s = elim (Bool-cases (is_empty line || has_prefix line (codes "#"))) [
  | inl skip ↦ rw (parse_line, skip) refl
  | inr use_it ↦ elim (Option-cases (cut line b':')) [
    | inl none_there ↦ rw (parse_line, use_it, none_there) refl
    | inr ((k, v), parts) ↦
        rw (parse_line, use_it, parts) (store_info-counters (trim_space k) (trim_space v) s)
  ]
]

parse_lines-counters :
    (lines : List Text) (s : HealthStatus) → counters (parse_lines lines s) ≡ counters s
unfolding parse_lines
parse_lines-counters [] s = refl
parse_lines-counters (line ∷ lines) s =
    parse_lines-counters lines (parse_line line s) ∙ parse_line-counters line s

perform-counters :
    (a : Answers) (s : HealthStatus) → counters (perform_health_check a s).1 ≡ counters s
unfolding perform_health_check parse_server_info
perform-counters a s = elim (Bool-cases a.client_is_nil) [
  | inl missing ↦ rw missing refl
  | inr there ↦ elim (Option-cases a.ping) [
    | inr (err, bad) ↦ rw (perform_health_check, there, bad) refl
    | inl good ↦ rw (perform_health_check, there, good) (answer-counters a.info)
  ]
]
  where
    answer-counters : (info : Option Text) → counters (parse_answer info s) ≡ counters s
    answer-counters none = refl
    answer-counters (some info) = parse_lines-counters (split info (13 ∷ 10 ∷ [])) s

abbrev started : Clock → HealthStatus → HealthStatus
started t s = record s {
  last_check = t.start;
  check_count = add64 s.check_count 1;
  uptime = t.since_start_time;
}

-- The counters after a check, from whether it passed.
abbrev next_counters : Bool → Counters → Counters
next_counters passes c = record {
  up = passes;
  checks = c.checks;
  failures = if passes then c.failures else add64 c.failures 1;
  consecutive = if passes then 0 else add64 c.consecutive 1;
}

finish-counters :
    (err : Option Err) (t : Clock) (s : HealthStatus) (hc : HealthChecker)
    → counters (finish_check err t s hc).status ≡ next_counters (not (is_some err)) (counters s)
unfolding finish_check
finish-counters none t s hc = refl
finish-counters (some err) t s hc = refl

not-not : (b : Bool) → not (not b) ≡ b
not-not b = ground arith

check-counters :
    (a : Answers) (t : Clock) (hc : HealthChecker)
    → counters (check a t hc).status
      ≡ next_counters (all_answered a) (counters (started t hc.status))
unfolding check
check-counters a t hc =
    let r = perform_health_check a (started t hc.status) in
    finish-counters r.0 t r.1 hc
    ∙ ap (λ b. next_counters (not b) (counters r.1)) (perform_lem a (started t hc.status))
    ∙ ap (λ b. next_counters b (counters r.1)) (not-not (all_answered a))
    ∙ ap (next_counters (all_answered a)) (perform-counters a (started t hc.status))

record Counted (n f k : ℕ) (c : Counters) : Type 0 where
  checks_eq : c.checks ≡ n
  failures_eq : c.failures ≡ f
  consecutive_eq : c.consecutive ≡ k
  trailing : k ≤ f
  bounded : f ≤ n
  none_trailing : c.up ≡ true → k ≡ 0

Reach-Counted :
    (n f k : ℕ) (hc : HealthChecker)
    → Reach n f k hc
    → n < half64
    → Counted n f k (counters hc.status)
unfolding new_health_checker reset_health add64
Reach-Counted _ _ _ _ (made now connected last metrics) small = record {
  checks_eq = refl;
  failures_eq = refl;
  consecutive_eq = refl;
  trailing = omega arith;
  bounded = omega arith;
  none_trailing = λ h. refl;
}
Reach-Counted _ _ _ _ (was_reset n f k hc now r) small = record {
  checks_eq = refl;
  failures_eq = refl;
  consecutive_eq = refl;
  trailing = omega arith;
  bounded = omega arith;
  none_trailing = λ h. refl;
}
Reach-Counted _ _ _ _ (passed n f k hc a t r h) small =
    let c = Reach-Counted n f k hc r (omega (arith, small)) in
    rw (check-counters a t hc, h)
      (record {
        checks_eq = omega (arith, c.checks_eq, small);
        failures_eq = c.failures_eq;
        consecutive_eq = refl;
        trailing = omega arith;
        bounded = omega (arith, c.bounded);
        none_trailing = λ q. refl;
      })
Reach-Counted _ _ _ _ (failed n f k hc a t r h) small =
    let c = Reach-Counted n f k hc r (omega (arith, small)) in
    rw (check-counters a t hc, h)
      (record {
        checks_eq = omega (arith, c.checks_eq, small);
        failures_eq = omega (arith, c.failures_eq, c.bounded, small);
        consecutive_eq = omega (arith, c.consecutive_eq, c.trailing, c.bounded, small);
        trailing = omega (arith, c.trailing);
        bounded = omega (arith, c.bounded);
        none_trailing = λ q. absurd (false≢true q);
      })

-- After any history of checks and resets with fewer than 2 ^ 63 checks, the status counts the checks
-- and the failed ones since the last Reset, and how many failed since one passed. IsHealthy is
-- then the same as Connected: the bound of three failures never matters.
pub Reach-is_healthy :
    (n f k : ℕ) (hc : HealthChecker)
    → Reach n f k hc
    → n < half64
    → (hc.status.check_count ≡ n)
      × (hc.status.failure_count ≡ f)
      × (hc.status.consecutive_fails ≡ k)
      × (k ≤ f)
      × (f ≤ n)
      × (is_healthy hc ≡ hc.status.connected)
unfolding is_healthy
Reach-is_healthy n f k hc r small =
    let c = Reach-Counted n f k hc r small in
    (c.checks_eq, c.failures_eq, c.consecutive_eq, c.trailing, c.bounded, healthy c)
  where
    healthy :
        Counted n f k (counters hc.status)
        → (hc.status.connected && lt64 hc.status.consecutive_fails 3) ≡ hc.status.connected
    healthy c = elim (Bool-cases hc.status.connected) [
      | inr down ↦ rw down refl
      | inl up ↦
          rw (up, c.consecutive_eq, c.none_trailing up, lt64_small 0 3 (omega arith) (omega arith))
            refl
    ]
