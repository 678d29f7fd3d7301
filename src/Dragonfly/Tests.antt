-- ===== src/Dragonfly/Tests.antt =====
-- The theorems on the Dragonfly client at concrete inputs.
use gochoreo.Common.{
  ℕ, zero, suc, ◌+◌, ◌*◌, ◌/◌, ◌≤◌, ◌<◌, ◌≡◌, refl, ◌↔◌, ◌⊎◌, inr, Bool, true, false, Option, none,
  some, List, [], ◌∷◌, ◌++◌, arith, Mem, lookup, insert, has, is_some,
}
use gochoreo.Common.Int.{pos, ltb_ℤ}
use gochoreo.Text.{Text, codes, contains, has_prefix}
use gochoreo.Text.Equality.{text_key}
use gochoreo.Text.Decimal.{format_int}
use gochoreo.Text.Space.{trim_space, trim_front}
use gochoreo.Metrics.{Floats}
use gochoreo.Dragonfly.Errors.{
  Err, connection_error, by_pointer, no_cause, plain, should_retry, is_auth_error,
  is_protocol_error, is_temporary_error, is_connection_error, errors_as, is_auth_pointer,
  is_protocol_pointer,
}
use gochoreo.Dragonfly.Errors.Chain.{should_retry_iff, is_retryable, Found}
use gochoreo.Dragonfly.Retry.{retry_with_backoff, answer, after, doubles}
use gochoreo.Dragonfly.Retry.Calls.{retry_with_backoff_lem, retry_with_backoff-succeeds}
use gochoreo.Dragonfly.Address.{validate_address, IsHostPort, validate_address_iff}
use gochoreo.Dragonfly.Bytes.{format_bytes, InUnits, format_bytes_lem}
use gochoreo.Dragonfly.Metrics.{
  Metrics, new_metrics, reset, get_total_commands, get_average_latency, sum_from, contains_text,
}
use gochoreo.Dragonfly.Metrics.Contains.{contains_text_lem}
use gochoreo.Dragonfly.Metrics.Totals.{
  Call, command, reset_all, run_calls, run_calls-totals, new_metrics-IsConsistent,
}
use gochoreo.Dragonfly.Metrics.Spread.{IsSpread, total}
use gochoreo.Dragonfly.Metrics.Latency.{run_calls-IsSpread}
use gochoreo.Dragonfly.Metrics.Snapshots.{
  snapshot, Shows, MetricsSnapshot, snapshot-run_calls, snapshot-reset,
}
use gochoreo.Dragonfly.Health.{HealthChecker, Answers, Clock, new_health_checker, check, is_healthy}
use gochoreo.Dragonfly.Health.Counts.{made, passed, failed, Reach-is_healthy}
use gochoreo.Dragonfly.Health.Batch.{
  Ping, batch_health_check, results_of, latencies_of, successes_of, batch_health_check_lem,
}
use gochoreo.Dragonfly.Config.{Config, validate}
use gochoreo.Dragonfly.Config.Presets.{default_config}
use gochoreo.Dragonfly.Config.Valid.{IsValid, validate_iff}
use gochoreo.Common.Guards.{first_error}
use gochoreo.Dragonfly.Client.{Client, build_client, reload, start, new_client}
use gochoreo.Dragonfly.Client.Life.{
  Kept, Reloaded, reload_lem, Event, starts, stops, reloads, checks, run_events,
  run_events-connected, start-start,
}
use gochoreo.Dragonfly.Client.Leaks.{IsOpen, note, ledger_of, run_events-leaks}
use gochoreo.Dragonfly.Client.Ledger.{first_ledger}
use gochoreo.Dragonfly.Info.{parse_rounds}
use gochoreo.Dragonfly.Info.Sections.{IsPair, parse_rounds-one_section}

-- A server that refuses as often as the state says.
abbrev refused : Err
refused = connection_error by_pointer (codes "localhost:6379") no_cause

abbrev flaky : ℕ → Option Err × ℕ
flaky zero = (none, 0)
flaky (suc n) = (some refused, n)

retried : (j : ℕ) → j < 2 → should_retry (answer flaky j 2) j (pos 3) ≡ true
unfolding should_retry is_auth_error is_protocol_error is_temporary_error is_connection_error
    errors_as
retried zero h = refl
retried (suc zero) h = refl
retried (suc (suc j)) h = absurd (omega (arith, h))

retry_with_backoff_lem_example :
    (k : ℕ) × (k ≤ 3)
    × (((retry_with_backoff flaky (pos 3) 100 2).0 ≡ answer flaky k 2)
        × ((retry_with_backoff flaky (pos 3) 100 2).1.state ≡ after flaky (suc k) 2)
        × ((retry_with_backoff flaky (pos 3) 100 2).1.slept ≡ doubles k 100)
        × ((j : ℕ) → j < k → should_retry (answer flaky j 2) j (pos 3) ≡ true)
        × (should_retry (answer flaky k 2) k (pos 3) ≡ false))
retry_with_backoff_lem_example = retry_with_backoff_lem flaky 3 100 2

retry_with_backoff-succeeds_example :
    ((retry_with_backoff flaky (pos 3) 100 2).0 ≡ none)
    × ((retry_with_backoff flaky (pos 3) 100 2).1.state ≡ after flaky 3 2)
    × ((retry_with_backoff flaky (pos 3) 100 2).1.slept ≡ doubles 2 100)
retry_with_backoff-succeeds_example = retry_with_backoff-succeeds flaky 3 100 2 2 retried refl

should_retry_iff_example : (should_retry (some refused) 1 (pos 3) ≡ true) ↔ (
    (ltb_ℤ (pos 1) (pos 3) ≡ true)
    × Found is_retryable refused
    × (¬ Found is_auth_pointer refused)
    × (¬ Found is_protocol_pointer refused))
should_retry_iff_example = should_retry_iff refused 1 (pos 3)

validate_address_iff_example :
    (validate_address (codes "cache:6379") ≡ none) ↔ IsHostPort (codes "cache:6379")
validate_address_iff_example = validate_address_iff (codes "cache:6379")

format_bytes_lem_example :
    ((ltb_ℤ (pos 3145728) (pos 1024) ≡ true)
      × (format_bytes (λ b d. codes "3.0") (pos 3145728)
          ≡ some (format_int (pos 3145728) ++ codes " B")))
    ⊎ ((n : ℕ) × (pos 3145728 ≡ pos n) × (1024 ≤ n) × InUnits (λ b d. codes "3.0") n)
format_bytes_lem_example = format_bytes_lem (λ b d. codes "3.0") (pos 3145728) (omega arith)

contains_text_lem_example :
    contains_text (codes "i/o timeout now") (codes "timeout")
    ≡ contains (codes "i/o timeout now") (codes "timeout")
contains_text_lem_example = contains_text_lem (codes "i/o timeout now") (codes "timeout")

-- Two commands, a reset, and two more.
abbrev calls : List (Call × ℕ)
calls =
    (command (codes "GET") 900 none, 1)
    ∷ (command (codes "SET") 400 (some (codes "i/o timeout")), 2)
    ∷ (reset_all, 3)
    ∷ (command (codes "GET") 300 none, 4)
    ∷ (command (codes "DEL") 500 (some (codes "connection refused")), 5)
    ∷ []

run_calls-totals_example :
    (m : Metrics) × (run_calls calls (new_metrics (codes "dragonfly_")) ≡ some m)
    × ((c : Text)
        → (has c m.command_durations ≡ has c m.command_counts)
          × (has c m.command_errors ≡ has c m.command_counts))
    × (get_total_commands m ≡ m.latency_count)
    × (sum_from 0 m.command_durations ≡ m.total_latency)
    × (sum_from 0 m.command_errors ≡ m.total_errors)
run_calls-totals_example = run_calls-totals (codes "dragonfly_") calls

abbrev counted : Metrics
counted = (run_calls-totals (codes "dragonfly_") calls).0

run_calls-IsSpread_example :
    IsSpread counted.min_latency counted.max_latency (500 ∷ 300 ∷ [])
    × (get_average_latency counted ≡ 800 / 2)
    × (counted.min_latency ≤ get_average_latency counted)
    × (get_average_latency counted ≤ counted.max_latency)
run_calls-IsSpread_example =
    run_calls-IsSpread (codes "dragonfly_") calls counted
      (run_calls-totals (codes "dragonfly_") calls).1 (omega arith, (omega arith, tt)) (omega arith)
      (omega arith)

-- Floats as pairs of a dividend and a divisor.
abbrev pairs : Floats
pairs = record {
  F = ℕ × ℕ;
  of_int64 = λ n. (n, 1);
  hundred = (100, 1);
  div = λ x y. (x.0 * y.1, x.1 * y.0);
  mul = λ x y. (x.0 * y.0, x.1 * y.1);
}

snapshot-run_calls_example :
    (m : Metrics) × (s : MetricsSnapshot pairs) × (run_calls calls
        (new_metrics (codes "dragonfly_"))
      ≡ some m)
    × (snapshot pairs 9 m ≡ some s)
    × ((c : Text) → Shows pairs m c (lookup c s.commands))
snapshot-run_calls_example = snapshot-run_calls pairs 9 (codes "dragonfly_") calls

snapshot-reset_example :
    (m' : Metrics) × (reset (new_metrics (codes "d")) ≡ some m')
    × (snapshot pairs 9 m'
        ≡ snapshot pairs 9 (record (new_metrics (new_metrics (codes "d")).prefix) {
          last_health_check = (new_metrics (codes "d")).last_health_check;
        }))
snapshot-reset_example =
    snapshot-reset pairs 9 (new_metrics (codes "d")) (new_metrics-IsConsistent (codes "d"))

-- A server that answers everything, and one that does not answer PING.
abbrev answering : Answers
answering = record {
  client_is_nil = false;
  ping = none;
  info = some (codes "used_memory:7");
  set = none;
  get = none;
}

abbrev silent : Answers
silent = record answering { ping = some (plain (codes "timeout")) }

abbrev clock : Clock
clock = record { start = 5; since_start_time = 5; since_start = 1; now = 6 }

abbrev fresh : HealthChecker
fresh = new_health_checker 0 false none none

abbrev checked : HealthChecker
checked = check silent clock (check answering clock fresh)

Reach-is_healthy_example :
    (checked.status.check_count ≡ 2)
    × (checked.status.failure_count ≡ 1)
    × (checked.status.consecutive_fails ≡ 1)
    × (1 ≤ 1)
    × (1 ≤ 2)
    × (is_healthy checked ≡ checked.status.connected)
Reach-is_healthy_example =
    Reach-is_healthy 2 1 1 checked
      (failed 1 0 0 (check answering clock fresh) silent clock
        (passed 0 0 0 fresh answering clock (made 0 false none none) refl) refl)
      (omega arith)

abbrev pings : ℕ → Ping
pings zero = record { start = 0; answer = none; took = 30 }
pings (suc i) = record { start = 100; answer = some (plain (codes "timeout")); took = 10 }

batch_health_check_lem_example :
    let b = batch_health_check pairs pings (pos 0) in
    (b.count ≡ 10)
    × (b.results ≡ results_of pings 10)
    × (b.success_count ≡ successes_of pings 10)
    × (b.success_count + b.failure_count ≡ 10)
    × (b.success_rate ≡ (1, 10))
    × IsSpread b.min_latency b.max_latency (latencies_of pings 10)
    × (b.average_latency ≡ total (latencies_of pings 10) / 10)
    × (b.min_latency ≤ b.average_latency)
    × (b.average_latency ≤ b.max_latency)
batch_health_check_lem_example =
    batch_health_check_lem pairs pings (pos 0) 10 (omega arith) (inr (refl, refl)) (omega arith)

-- A natural number stands for a tls.Config.
abbrev tls : Bool → ℕ
tls skip = 0

validate_iff_example : (validate (default_config {T = ℕ}) ≡ none) ↔ IsValid (default_config {T = ℕ})
validate_iff_example = validate_iff (default_config {T = ℕ})

abbrev made_client : Client tls
made_client = build_client tls default_config 0

reload_lem_example :
    ((is_some (reload tls (some default_config) (some (plain (codes "refused"))) made_client).0
        ≡ true)
      × Kept tls made_client
          (reload tls (some default_config) (some (plain (codes "refused"))) made_client).1)
    ⊎ ((given : Config ℕ) × (◌≡◌ {A = Option (Config ℕ)} (some default_config) (some given))
        × (validate given ≡ none)
        × (◌≡◌ {A = Option Err} (some (plain (codes "refused"))) none)
        × ((reload tls (some default_config) (some (plain (codes "refused"))) made_client).0 ≡ none)
        × Reloaded tls given made_client
            (reload tls (some default_config) (some (plain (codes "refused"))) made_client).1)
reload_lem_example =
    reload_lem tls (some default_config) (some (plain (codes "refused"))) made_client

abbrev events : List (Event tls)
events =
    starts none (λ cmd. none) 1
    ∷ reloads (some default_config) (some (plain (codes "refused")))
    ∷ checks silent clock
    ∷ []

-- A stop, and a reload behind it.
abbrev stopped_events : List (Event tls)
stopped_events = events ++ stops none ∷ reloads (some default_config) none ∷ stops none ∷ []

was_made : new_client tls none none 0 ≡ inr made_client
unfolding new_client validate first_error default_config
was_made = refl

run_events-leaks_example :
    let l = ledger_of tls stopped_events first_ledger in
    let c' = run_events tls stopped_events made_client in
    (c'.client.id ≡ l.used)
    × (IsOpen tls 2 c' ↔ (Mem 2 l.lost ⊎ ((l.used_open ≡ true) × (2 ≡ l.used))))
run_events-leaks_example = run_events-leaks tls none none 0 made_client stopped_events 2 was_made

-- The reload that failed and the one behind the stop are left open.
leaked :
    ledger_of tls stopped_events first_ledger
    ≡ record { next = 3; used = 2; stopped = true; used_open = true; lost = 1 ∷ [] }
unfolding ledger_of note validate first_error default_config
leaked = refl

abbrev up : Client tls
up = record made_client { connected = true }

run_events-connected_example : (run_events tls events up).connected ≡ true
run_events-connected_example = run_events-connected tls events up (tt, (tt, (tt, tt))) refl

start-start_example :
    (start tls none
        (λ cmd. none)
        2
        (start tls (some (plain (codes "refused"))) (λ cmd. none) 1 made_client).2
      ≡ (none, [], (start tls (some (plain (codes "refused"))) (λ cmd. none) 1 made_client).2))
    × ((is_some (start tls (some (plain (codes "refused"))) (λ cmd. none) 1 made_client).0 ≡ false)
        ⊎ ((start tls (some (plain (codes "refused"))) (λ cmd. none) 1 made_client).2.connected
            ≡ made_client.connected))
start-start_example =
    start-start tls (some (plain (codes "refused"))) none (λ cmd. none) (λ cmd. none) 1 2
      made_client

abbrev memory_pair : Text × Text
memory_pair = (codes "used_memory", codes " 12")

memory_pair-IsPair : IsPair memory_pair
unfolding trim_space trim_front has_prefix
memory_pair-IsPair = record { line_trimmed = refl; no_colon = ground arith; no_header = refl }

parse_rounds-one_section_example :
    parse_rounds (codes "# Memory" ∷ codes "used_memory: 12" ∷ []) [] []
    ≡ some ((codes "Memory", (codes "used_memory", codes "12") ∷ []) ∷ [])
unfolding trim_space trim_front has_prefix insert
parse_rounds-one_section_example =
    parse_rounds-one_section b'M' (codes "emory") (memory_pair ∷ []) refl refl
      (memory_pair-IsPair, tt)
