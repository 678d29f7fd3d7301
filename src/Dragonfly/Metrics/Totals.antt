-- ===== src/Dragonfly/Metrics/Totals.antt =====
-- What holds of the counters after any sequence of calls: the three maps agree on the commands, so
-- that no method panics, and their sums are the totals, modulo 2 ^ 64.
use gochoreo.Common.{
  ℕ, ◌≡◌, refl, inl, inr, Bool, true, false, Option, none, some, List, [], ◌∷◌, arith, Map, lookup,
  insert, has, Unique, insert-Unique, lookup-insert, Bool-cases, ap, sym, ◌∙◌,
}
use gochoreo.Common.Word.{add64}
use gochoreo.Dragonfly.Metrics.Sums.{sum_from-insert_new, add_at_lem, store_zeros_lem, zero_sum}
use gochoreo.Text.{Text, codes}
use gochoreo.Text.Equality.{text_key, text_eq_iff}
use gochoreo.Dragonfly.Metrics.{
  Metrics, new_metrics, update_latency, categorize_error, initialize, count_command, count_error,
  record_command, record_connection, record_reconnect, record_pool_stats, record_pool_hit,
  record_pool_miss, record_pool_timeout, record_health_check, store_zeros, reset_commands,
  reset_counters, reset, sum_from, get_total_commands, contains_text,
}

-- A call of a method that writes.
pub data Call : Type 0 where
  -- command, duration, text of the error
  command : Text → ℕ → Option Text → Call
  connection health_check : Bool → Call
  reconnect pool_hit pool_miss pool_timeout : Call
  pool_stats : ℕ → ℕ → Call
  reset_all : Call

-- The second argument is the time of the call.
unfoldable pub apply_call : Call → ℕ → Metrics → Option Metrics
apply_call (command c duration err) now m = record_command c duration err m
apply_call (connection success) now m = some (record_connection success m)
apply_call (health_check success) now m = some (record_health_check success now m)
apply_call reconnect now m = some (record_reconnect m)
apply_call pool_hit now m = some (record_pool_hit m)
apply_call pool_miss now m = some (record_pool_miss m)
apply_call pool_timeout now m = some (record_pool_timeout m)
apply_call (pool_stats active idle) now m = some (record_pool_stats active idle m)
apply_call reset_all now m = reset m

unfoldable pub run_calls : List (Call × ℕ) → Metrics → Option Metrics
run_calls [] m = some m
run_calls ((call, now) ∷ calls) m = elim (apply_call call now m) [
  | none ↦ none
  | some m' ↦ run_calls calls m'
]

pub record HasTotals (counts durations errors : Map Text ℕ) (calls total failures : ℕ)
    : Type 0 where
  pub unique_counts : Unique counts
  pub unique_durations : Unique durations
  pub unique_errors : Unique errors
  pub has_durations : (c : Text) → has c durations ≡ has c counts
  pub has_errors : (c : Text) → has c errors ≡ has c counts
  pub counts_sum : sum_from 0 counts ≡ calls
  pub durations_sum : sum_from 0 durations ≡ total
  pub errors_sum : sum_from 0 errors ≡ failures

abbrev pub IsConsistent : Metrics → Type 0
IsConsistent m =
    HasTotals m.command_counts m.command_durations m.command_errors m.latency_count m.total_latency
      m.total_errors

categorize_error-IsConsistent :
    (err : Text) (m : Metrics) → IsConsistent m → IsConsistent (categorize_error err m)
unfolding categorize_error
categorize_error-IsConsistent err m h = elim (Bool-cases (contains_text err (codes "timeout"))) [
  | inl a ↦ rw a h
  | inr a ↦ elim (Bool-cases (contains_text err (codes "connection"))) [
    | inl b ↦ rw (a, b) h
    | inr b ↦ elim (Bool-cases (contains_text err (codes "protocol"))) [
      | inl c ↦ rw (a, b, c) h
      | inr c ↦ rw (a, b, c) h
    ]
  ]
]

initialize-IsConsistent :
    (c : Text) (m : Metrics)
    → IsConsistent m
    → IsConsistent (initialize c m) × (has c (initialize c m).command_counts ≡ true)
unfolding initialize
initialize-IsConsistent c m h = elim (Bool-cases (has c m.command_counts)) [
  | inl known ↦ rw known (h, known)
  | inr new ↦
      rw new (added new, ground (arith, lookup-insert c c 0 m.command_counts, text_eq_iff c c))
]
  where
    added :
        has c m.command_counts ≡ false
        → HasTotals
            (insert c 0 m.command_counts)
            (insert c 0 m.command_durations)
            (insert c 0 m.command_errors)
            m.latency_count
            m.total_latency
            m.total_errors
    added new = record {
      unique_counts = insert-Unique c 0 m.command_counts h.unique_counts;
      unique_durations = insert-Unique c 0 m.command_durations h.unique_durations;
      unique_errors = insert-Unique c 0 m.command_errors h.unique_errors;
      has_durations = λ k. ground (
        arith,
        h.has_durations k,
        lookup-insert c k 0 m.command_counts,
        lookup-insert c k 0 m.command_durations,
      );
      has_errors = λ k. ground (
        arith,
        h.has_errors k,
        lookup-insert c k 0 m.command_counts,
        lookup-insert c k 0 m.command_errors,
      );
      counts_sum =
          sum_from-insert_new 0 c m.command_counts (omega arith) (ground (arith, new))
          ∙ h.counts_sum;
      durations_sum =
          sum_from-insert_new 0 c m.command_durations (omega arith)
            (ground (arith, new, h.has_durations c))
          ∙ h.durations_sum;
      errors_sum =
          sum_from-insert_new 0 c m.command_errors (omega arith)
            (ground (arith, new, h.has_errors c))
          ∙ h.errors_sum;
    }

count_command-IsConsistent :
    (c : Text) (d : ℕ) (m : Metrics)
    → IsConsistent m
    → has c m.command_counts ≡ true
    → (m' : Metrics) × (count_command c d m ≡ some m')
      × IsConsistent m'
      × (has c m'.command_counts ≡ true)
unfolding count_command update_latency
count_command-IsConsistent c d m h known =
    let (counts, n) = add_at_lem c 1 m.command_counts h.unique_counts known in
    let (durations, s) =
      add_at_lem c d m.command_durations h.unique_durations (h.has_durations c ∙ known) in
    (
      update_latency d (record m { command_counts = counts; command_durations = durations }),
      rw (n.stored, count_command, s.stored, count_command) refl,
      record {
        unique_counts = n.unique;
        unique_durations = s.unique;
        unique_errors = h.unique_errors;
        has_durations = λ k. s.same_keys k ∙ h.has_durations k ∙ sym (n.same_keys k);
        has_errors = λ k. h.has_errors k ∙ sym (n.same_keys k);
        counts_sum = n.sum ∙ ap (λ x. add64 x 1) h.counts_sum;
        durations_sum = s.sum ∙ ap (λ x. add64 x d) h.durations_sum;
        errors_sum = h.errors_sum;
      },
      n.same_keys c ∙ known,
    )

count_error-IsConsistent :
    (c : Text) (err : Option Text) (m : Metrics)
    → IsConsistent m
    → has c m.command_counts ≡ true
    → (m' : Metrics) × (count_error c err m ≡ some m') × IsConsistent m'
unfolding count_error
count_error-IsConsistent c none m h known = (m, refl, h)
count_error-IsConsistent c (some err) m h known =
    let (errors, n) = add_at_lem c 1 m.command_errors h.unique_errors (h.has_errors c ∙ known) in
    let counted : Metrics = record m {
      command_errors = errors;
      total_errors = add64 m.total_errors 1;
    } in
    (
      categorize_error err counted,
      rw (n.stored, count_error) refl,
      categorize_error-IsConsistent err counted (record {
        unique_counts = h.unique_counts;
        unique_durations = h.unique_durations;
        unique_errors = n.unique;
        has_durations = h.has_durations;
        has_errors = λ k. n.same_keys k ∙ h.has_errors k;
        counts_sum = h.counts_sum;
        durations_sum = h.durations_sum;
        errors_sum = n.sum ∙ ap (λ x. add64 x 1) h.errors_sum;
      }),
    )

record_command-IsConsistent :
    (c : Text) (d : ℕ) (err : Option Text) (m : Metrics)
    → IsConsistent m
    → (m' : Metrics) × (record_command c d err m ≡ some m') × IsConsistent m'
unfolding record_command
record_command-IsConsistent c d err m h =
    let (h', known) = initialize-IsConsistent c m h in
    let (m', e, h'', known') = count_command-IsConsistent c d (initialize c m) h' known in
    rw (e, record_command) (count_error-IsConsistent c err m' h'' known')

reset_commands_lem :
    (m : Metrics) (counts durations errors : Map Text ℕ)
    → store_zeros m.command_counts m.command_counts ≡ some counts
    → store_zeros m.command_counts m.command_durations ≡ some durations
    → store_zeros m.command_counts m.command_errors ≡ some errors
    → reset_commands m
      ≡ some (record m {
        command_counts = counts;
        command_durations = durations;
        command_errors = errors;
      })
unfolding reset_commands
reset_commands_lem m counts durations errors a b e =
    rw (reset_commands, a, reset_commands, b, reset_commands, e, reset_commands) refl

-- Reset stores 0 for every command, and in every other counter.
pub reset_zeros :
    (m : Metrics)
    → IsConsistent m
    → (counts : Map Text ℕ) × (durations : Map Text ℕ) × (errors : Map Text ℕ) × (reset m
        ≡ some (
            reset_counters (record m {
              command_counts = counts;
              command_durations = durations;
              command_errors = errors;
            })))
      × ((c : Text) (v : ℕ) → lookup c counts ≡ some v → v ≡ 0)
      × HasTotals counts durations errors 0 0 0
unfolding reset
reset_zeros m h =
    let (counts, a) =
      store_zeros_lem m.command_counts m.command_counts h.unique_counts (λ c k. k) in
    let (durations, b) =
      store_zeros_lem m.command_counts m.command_durations h.unique_durations
        (λ c k. h.has_durations c ∙ k) in
    let (errors, e) =
      store_zeros_lem m.command_counts m.command_errors h.unique_errors
        (λ c k. h.has_errors c ∙ k) in
    (
      counts,
      durations,
      errors,
      rw (reset, reset_commands_lem m counts durations errors a.stored b.stored e.stored) refl,
      (λ k v q. ground (arith, a.at k)),
      record {
        unique_counts = a.unique;
        unique_durations = b.unique;
        unique_errors = e.unique;
        has_durations = λ k. ground (arith, a.at k, b.at k, h.has_durations k);
        has_errors = λ k. ground (arith, a.at k, e.at k, h.has_errors k);
        counts_sum = zero_sum counts a.unique (λ k v q. ground (arith, a.at k));
        durations_sum =
            zero_sum durations b.unique (λ k v q. ground (arith, b.at k, h.has_durations k));
        errors_sum = zero_sum errors e.unique (λ k v q. ground (arith, e.at k, h.has_errors k));
      },
    )

reset-IsConsistent :
    (m : Metrics) → IsConsistent m → (m' : Metrics) × (reset m ≡ some m') × IsConsistent m'
reset-IsConsistent m h =
    let (counts, durations, errors, e, zero, totals) = reset_zeros m h in
    (
      reset_counters (record m {
        command_counts = counts;
        command_durations = durations;
        command_errors = errors;
      }),
      e,
      totals,
    )

apply_call-IsConsistent :
    (call : Call) (now : ℕ) (m : Metrics)
    → IsConsistent m
    → (m' : Metrics) × (apply_call call now m ≡ some m') × IsConsistent m'
unfolding apply_call record_connection record_health_check
apply_call-IsConsistent (command c d err) now m h = record_command-IsConsistent c d err m h
apply_call-IsConsistent (connection success) now m h = (record_connection success m, refl, h)
apply_call-IsConsistent (health_check success) now m h =
    (record_health_check success now m, refl, h)
apply_call-IsConsistent reconnect now m h = (record_reconnect m, refl, h)
apply_call-IsConsistent pool_hit now m h = (record_pool_hit m, refl, h)
apply_call-IsConsistent pool_miss now m h = (record_pool_miss m, refl, h)
apply_call-IsConsistent pool_timeout now m h = (record_pool_timeout m, refl, h)
apply_call-IsConsistent (pool_stats active idle) now m h =
    (record_pool_stats active idle m, refl, h)
apply_call-IsConsistent reset_all now m h = reset-IsConsistent m h

pub run_calls-IsConsistent :
    (calls : List (Call × ℕ)) (m : Metrics)
    → IsConsistent m
    → (m' : Metrics) × (run_calls calls m ≡ some m') × IsConsistent m'
unfolding run_calls
run_calls-IsConsistent [] m h = (m, refl, h)
run_calls-IsConsistent ((call, now) ∷ calls) m h =
    let (m', e, h') = apply_call-IsConsistent call now m h in
    rw (e, run_calls) (run_calls-IsConsistent calls m' h')

pub new_metrics-IsConsistent : (prefix : Text) → IsConsistent (new_metrics prefix)
unfolding new_metrics sum_from lookup
new_metrics-IsConsistent prefix = record {
  unique_counts = tt;
  unique_durations = tt;
  unique_errors = tt;
  has_durations = λ c. refl;
  has_errors = λ c. refl;
  counts_sum = refl;
  durations_sum = refl;
  errors_sum = refl;
}

-- No sequence of calls on new metrics panics. After it the three maps have the same commands, and
-- modulo 2 ^ 64 GetTotalCommands is the number of latencies, the durations of the commands add up
-- to the total latency, and their errors to the total of the errors.
pub run_calls-totals :
    (prefix : Text) (calls : List (Call × ℕ))
    → (m : Metrics) × (run_calls calls (new_metrics prefix) ≡ some m)
      × ((c : Text)
          → (has c m.command_durations ≡ has c m.command_counts)
            × (has c m.command_errors ≡ has c m.command_counts))
      × (get_total_commands m ≡ m.latency_count)
      × (sum_from 0 m.command_durations ≡ m.total_latency)
      × (sum_from 0 m.command_errors ≡ m.total_errors)
unfolding get_total_commands
run_calls-totals prefix calls =
    let (m, e, h) =
      run_calls-IsConsistent calls (new_metrics prefix) (new_metrics-IsConsistent prefix) in
    (m, e, (λ c. (h.has_durations c, h.has_errors c)), h.counts_sum, h.durations_sum, h.errors_sum)
