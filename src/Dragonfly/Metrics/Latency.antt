-- ===== src/Dragonfly/Metrics/Latency.antt =====
-- The latencies against the history of calls.
use mathlib.Core.Path.{subst₂}
use gochoreo.Common.{
  ℕ, ◌/◌, ◌≤◌, ◌<◌, ◌≡◌, refl, Bool, true, false, Option, none, some, List, [], ◌∷◌, arith,
  if◌then◌else◌, length, All, has, bind-eq-some, some_injective, ap, sym, ◌∙◌, subst,
}
use gochoreo.Common.Word.{add64, half64}
use gochoreo.Text.{Text, codes}
use gochoreo.Text.Equality.{text_key}
use gochoreo.Dragonfly.Metrics.{
  Metrics, contains_text, new_metrics, update_latency, next_min, next_max, categorize_error, add_at,
  initialize, count_command, count_error, record_command, record_connection, record_health_check,
  record_reconnect, record_pool_hit, record_pool_miss, record_pool_timeout, record_pool_stats,
  reset_commands, reset, get_average_latency,
}
use gochoreo.Dragonfly.Metrics.Spread.{
  average_between, div64_small, total, min_of, max_of, total_of, count_of_durations, Positive,
  spread, IsSpread, total_of_lem, count_lem, length_below,
}
use gochoreo.Dragonfly.Metrics.Totals.{
  Call, command, connection, health_check, reconnect, pool_hit, pool_miss, pool_timeout, pool_stats,
  reset_all, apply_call, run_calls,
}

-- The durations of the commands since the last Reset, the last one first.
abbrev pub next_durations : Call → List ℕ → List ℕ
next_durations (command c d err) ds = d ∷ ds
next_durations reset_all ds = []
next_durations _ ds = ds

abbrev pub durations_in : List (Call × ℕ) → List ℕ → List ℕ
durations_in [] ds = ds
durations_in ((call, now) ∷ calls) ds = durations_in calls (next_durations call ds)

record Tracked (ds : List ℕ) (low high sum n : ℕ) : Type 0 where
  low_eq : low ≡ min_of ds
  high_eq : high ≡ max_of ds
  sum_eq : sum ≡ total_of ds
  count_eq : n ≡ count_of_durations ds

abbrev Tracks : List ℕ → Metrics → Type 0
Tracks ds m = Tracked ds m.min_latency m.max_latency m.total_latency m.latency_count

-- What holds of both branches.
both : (P : Metrics → Type 0) (b : Bool) (m m' : Metrics) → P m → P m' → P (if b then m else m')
both P true m m' h h' = h
both P false m m' h h' = h'

initialize-Tracks :
    (ds : List ℕ) (c : Text) (m : Metrics) → Tracks ds m → Tracks ds (initialize c m)
unfolding initialize
initialize-Tracks ds c m t = both (Tracks ds) (has c m.command_counts) m _ t t

categorize_error-Tracks :
    (ds : List ℕ) (err : Text) (m : Metrics) → Tracks ds m → Tracks ds (categorize_error err m)
unfolding categorize_error
categorize_error-Tracks ds err m t = both (Tracks ds) (contains_text err (codes "timeout")) _ _ t (
    both (Tracks ds) (contains_text err (codes "connection")) _ _ t
      (both (Tracks ds) (contains_text err (codes "protocol")) _ m t t))

update_latency-Tracks :
    (ds : List ℕ) (d : ℕ) (m : Metrics) → Tracks ds m → Tracks (d ∷ ds) (update_latency d m)
unfolding update_latency
update_latency-Tracks ds d m t = record {
  low_eq = ap (λ x. next_min x d) t.low_eq;
  high_eq = ap (λ x. next_max x d) t.high_eq;
  sum_eq = ap (λ x. add64 x d) t.sum_eq;
  count_eq = ap (λ x. add64 x 1) t.count_eq;
}

count_command-Tracks :
    (ds : List ℕ) (c : Text) (d : ℕ) (m m' : Metrics)
    → count_command c d m ≡ some m'
    → Tracks ds m
    → Tracks (d ∷ ds) m'
unfolding count_command
count_command-Tracks ds c d m m' e t =
    let (counts, e1, e2) = bind-eq-some (add_at c 1 m.command_counts) _ m' e in
    let (durations, e3, e4) = bind-eq-some (add_at c d m.command_durations) _ m' e2 in
    subst (Tracks (d ∷ ds)) (some_injective e4) (
      update_latency-Tracks ds d
        (record m { command_counts = counts; command_durations = durations }) t)

count_error-Tracks :
    (ds : List ℕ) (c : Text) (err : Option Text) (m m' : Metrics)
    → count_error c err m ≡ some m'
    → Tracks ds m
    → Tracks ds m'
unfolding count_error
count_error-Tracks ds c none m m' e t = subst (Tracks ds) (some_injective e) t
count_error-Tracks ds c (some err) m m' e t =
    let (errors, e1, e2) = bind-eq-some (add_at c 1 m.command_errors) _ m' e in
    subst (Tracks ds) (some_injective e2) (
      categorize_error-Tracks ds err
        (record m { command_errors = errors; total_errors = add64 m.total_errors 1 }) t)

record_command-Tracks :
    (ds : List ℕ) (c : Text) (d : ℕ) (err : Option Text) (m m' : Metrics)
    → record_command c d err m ≡ some m'
    → Tracks ds m
    → Tracks (d ∷ ds) m'
unfolding record_command
record_command-Tracks ds c d err m m' e t =
    let (m1, e1, e2) = bind-eq-some (count_command c d (initialize c m)) _ m' e in
    count_error-Tracks (d ∷ ds) c err m1 m' e2
      (count_command-Tracks ds c d (initialize c m) m1 e1 (initialize-Tracks ds c m t))

no_durations : Tracked [] 0 0 0 0
no_durations = record { low_eq = refl; high_eq = refl; sum_eq = refl; count_eq = refl }

reset-Tracks : (m m' : Metrics) → reset m ≡ some m' → Tracks [] m'
unfolding reset
reset-Tracks m m' e =
    let (m1, e1, e2) = bind-eq-some (reset_commands m) _ m' e in
    subst (Tracks []) (some_injective e2) no_durations

other-Tracks : (ds : List ℕ) (m1 m' : Metrics) → Tracks ds m1 → some m1 ≡ some m' → Tracks ds m'
other-Tracks ds m1 m' t e = subst (Tracks ds) (some_injective e) t

apply_call-Tracks :
    (call : Call) (now : ℕ) (ds : List ℕ) (m m' : Metrics)
    → apply_call call now m ≡ some m'
    → Tracks ds m
    → Tracks (next_durations call ds) m'
unfolding apply_call record_connection record_health_check
apply_call-Tracks (command c d err) now ds m m' e t = record_command-Tracks ds c d err m m' e t
apply_call-Tracks reset_all now ds m m' e t = reset-Tracks m m' e
apply_call-Tracks (connection success) now ds m m' e t =
    other-Tracks ds (record_connection success m) m' t e
apply_call-Tracks (health_check success) now ds m m' e t =
    other-Tracks ds (record_health_check success now m) m' t e
apply_call-Tracks reconnect now ds m m' e t = other-Tracks ds (record_reconnect m) m' t e
apply_call-Tracks pool_hit now ds m m' e t = other-Tracks ds (record_pool_hit m) m' t e
apply_call-Tracks pool_miss now ds m m' e t = other-Tracks ds (record_pool_miss m) m' t e
apply_call-Tracks pool_timeout now ds m m' e t = other-Tracks ds (record_pool_timeout m) m' t e
apply_call-Tracks (pool_stats active idle) now ds m m' e t =
    other-Tracks ds (record_pool_stats active idle m) m' t e

run_calls-Tracks :
    (calls : List (Call × ℕ)) (ds : List ℕ) (m m' : Metrics)
    → run_calls calls m ≡ some m'
    → Tracks ds m
    → Tracks (durations_in calls ds) m'
unfolding run_calls
run_calls-Tracks [] ds m m' e t = other-Tracks ds m m' t e
run_calls-Tracks ((call, now) ∷ calls) ds m m' e t =
    let (m1, e1, e2) = bind-eq-some (apply_call call now m) _ m' e in
    run_calls-Tracks calls (next_durations call ds) m1 m' e2
      (apply_call-Tracks call now ds m m1 e1 t)

average_lem :
    (m : Metrics) (ds : List ℕ)
    → Tracks ds m
    → All Positive ds
    → total ds < half64
    → 1 ≤ length ds
    → get_average_latency m ≡ total ds / length ds
unfolding get_average_latency
average_lem m ds t p h k =
    let n : m.latency_count ≡ length ds =
      t.count_eq ∙ count_lem ds (omega (arith, length_below ds p, h)) in
    let s : m.total_latency ≡ total ds = t.sum_eq ∙ total_of_lem ds h in
    ground (arith, n, s, k, div64_small (total ds) (length ds) h, length_below ds p, h)

-- If the commands since the last Reset all took at least a nanosecond and their durations add up to
-- less than 2 ^ 63, the minimum and the maximum are the least and the greatest of these durations,
-- and GetAverageLatency is their sum divided by their number, between the two.
pub run_calls-IsSpread :
    (prefix : Text) (calls : List (Call × ℕ)) (m : Metrics)
    → run_calls calls (new_metrics prefix) ≡ some m
    → All Positive (durations_in calls [])
    → total (durations_in calls []) < half64
    → 1 ≤ length (durations_in calls [])
    → IsSpread m.min_latency m.max_latency (durations_in calls [])
      × (get_average_latency m ≡ total (durations_in calls []) / length (durations_in calls []))
      × (m.min_latency ≤ get_average_latency m)
      × (get_average_latency m ≤ m.max_latency)
unfolding new_metrics
run_calls-IsSpread prefix calls m e p h k =
    let t = run_calls-Tracks calls [] (new_metrics prefix) m e no_durations in
    let ds = durations_in calls [] in
    let a = average_lem m ds t p h k in
    let s =
      subst₂ (λ low high. IsSpread low high ds) (sym t.low_eq) (sym t.high_eq) (spread ds p h k) in
    let (above, below) = average_between m.min_latency m.max_latency ds s k in
    (
      s,
      a,
      subst (λ x. m.min_latency ≤ x) (sym a) above,
      subst (λ x. x ≤ m.max_latency) (sym a) below,
    )
