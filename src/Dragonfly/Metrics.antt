-- ===== src/Dragonfly/Metrics.antt =====
-- pkg/dragonfly/metrics.go: the counters of a client. Each method that touches the maps holds the
-- mutex, and so does every caller of updateLatency, so that its loops take one round; a method is
-- one step. `none` is a panic: a nil counter that a map gives for a missing key.
pub mod Contains
pub mod Spread
pub mod Latency
pub mod Sums
pub mod Totals
pub mod Snapshots
use gochoreo.Common.{
  ℕ, zero, suc, ◌+◌, ◌-◌, ◌/◌, ◌%◌, Bool, true, false, not, ◌&&◌, ◌||◌, Option, none, some, List,
  [], ◌∷◌, ◌++◌, if◌then◌else◌, length, ltb, leb, take, drop, Map, lookup, insert, has, ◌==◌,
}
use gochoreo.Common.Word.{add64, lt64, mod64, half64}
use gochoreo.Text.{Text, codes, text_eq}
use gochoreo.Text.Equality.{text_key}
use gochoreo.Metrics.{Floats}

-- Int64 division, which truncates, on bit patterns.
abbrev neg64 : ℕ → ℕ
neg64 a = (mod64 - a) % mod64

unfoldable pub div64 : ℕ → ℕ → ℕ
div64 a b =
    if ltb a half64
    then (if ltb b half64 then a / b else neg64 (a / neg64 b))
    else if ltb b half64
    then neg64 (neg64 a / b)
    else neg64 a / neg64 b

pub record Metrics : Type 0 where
  pub prefix : Text
  pub command_counts : Map Text ℕ
  pub command_durations : Map Text ℕ
  pub command_errors : Map Text ℕ
  pub connection_count : ℕ
  pub connection_failures : ℕ
  pub reconnects : ℕ
  pub active_connections : ℕ
  pub idle_connections : ℕ
  pub pool_hits : ℕ
  pub pool_misses : ℕ
  pub pool_timeouts : ℕ
  pub min_latency : ℕ
  pub max_latency : ℕ
  pub total_latency : ℕ
  pub latency_count : ℕ
  pub total_errors : ℕ
  pub timeout_errors : ℕ
  pub connection_errors : ℕ
  pub protocol_errors : ℕ
  pub health_check_count : ℕ
  pub health_check_failures : ℕ
  -- a time, once there was a check
  pub last_health_check : Option ℕ

unfoldable pub new_metrics : Text → Metrics
new_metrics prefix = record {
  prefix = prefix;
  command_counts = [];
  command_durations = [];
  command_errors = [];
  connection_count = 0;
  connection_failures = 0;
  reconnects = 0;
  active_connections = 0;
  idle_connections = 0;
  pool_hits = 0;
  pool_misses = 0;
  pool_timeouts = 0;
  min_latency = 0;
  max_latency = 0;
  total_latency = 0;
  latency_count = 0;
  total_errors = 0;
  timeout_errors = 0;
  connection_errors = 0;
  protocol_errors = 0;
  health_check_count = 0;
  health_check_failures = 0;
  last_health_check = none;
}

-- The loop over the positions: the slices `s[i:i+len(substr)]` for the numbers i that are left.
unfoldable pub find_from : ℕ → Text → Text → Bool
find_from zero s substr = false
find_from (suc left) s substr =
    if text_eq (take (length substr) s) substr then true else find_from left (drop 1 s) substr

unfoldable pub find_substring : Text → Text → Bool
find_substring s substr =
    if leb (length substr) (length s)
    then find_from (suc (length s - length substr)) s substr
    else false

unfoldable pub contains_text : Text → Text → Bool
contains_text s substr =
    leb (length substr) (length s)
    && (text_eq s substr
        || (ltb (length substr) (length s)
            && (text_eq (take (length substr) s) substr
                || (text_eq (drop (length s - length substr) s) substr
                    || find_substring s substr))))

-- The minimum after a latency: 0 counts as not set.
abbrev pub next_min : ℕ → ℕ → ℕ
next_min current latency =
    if not (current == 0) && not (lt64 latency current) then current else latency

abbrev pub next_max : ℕ → ℕ → ℕ
next_max current latency = if not (lt64 current latency) then current else latency

unfoldable pub update_latency : ℕ → Metrics → Metrics
update_latency latency m = record m {
  total_latency = add64 m.total_latency latency;
  latency_count = add64 m.latency_count 1;
  min_latency = next_min m.min_latency latency;
  max_latency = next_max m.max_latency latency;
}

-- An error is its text.
unfoldable pub categorize_error : Text → Metrics → Metrics
categorize_error err m =
    if contains_text err (codes "timeout")
    then record m { timeout_errors = add64 m.timeout_errors 1 }
    else if contains_text err (codes "connection")
    then record m { connection_errors = add64 m.connection_errors 1 }
    else if contains_text err (codes "protocol")
    then record m { protocol_errors = add64 m.protocol_errors 1 }
    else m

-- `m[command].Add(n)`
unfoldable pub add_at : Text → ℕ → Map Text ℕ → Option (Map Text ℕ)
add_at command n counters = elim (lookup command counters) [
  | none ↦ none
  | some v ↦ some (insert command (add64 v n) counters)
]

-- `if _, exists := m.commandCounts[command]; !exists`
unfoldable pub initialize : Text → Metrics → Metrics
initialize command m = if has command m.command_counts then m else record m {
  command_counts = insert command 0 m.command_counts;
  command_durations = insert command 0 m.command_durations;
  command_errors = insert command 0 m.command_errors;
}

-- The counts and the durations.
unfoldable pub count_command : Text → ℕ → Metrics → Option Metrics
count_command command duration m = elim (add_at command 1 m.command_counts) [
  | none ↦ none
  | some counts ↦ elim (add_at command duration m.command_durations) [
    | none ↦ none
    | some durations ↦ some (
        update_latency duration
          (record m { command_counts = counts; command_durations = durations }))
  ]
]

-- `if err != nil`
unfoldable pub count_error : Text → Option Text → Metrics → Option Metrics
count_error command none m = some m
count_error command (some err) m = elim (add_at command 1 m.command_errors) [
  | none ↦ none
  | some errors ↦ some (
      categorize_error err
        (record m { command_errors = errors; total_errors = add64 m.total_errors 1 }))
]

unfoldable pub record_command : Text → ℕ → Option Text → Metrics → Option Metrics
record_command command duration err m =
    elim (count_command command duration (initialize command m)) [
      | none ↦ none
      | some m' ↦ count_error command err m'
    ]

unfoldable pub record_connection : Bool → Metrics → Metrics
record_connection success m = record m {
  connection_count = add64 m.connection_count 1;
  connection_failures =
      if not success then add64 m.connection_failures 1 else m.connection_failures;
}

abbrev pub record_reconnect : Metrics → Metrics
record_reconnect m = record m { reconnects = add64 m.reconnects 1 }

abbrev pub record_pool_stats : ℕ → ℕ → Metrics → Metrics
record_pool_stats active idle m = record m { active_connections = active; idle_connections = idle }

abbrev pub record_pool_hit : Metrics → Metrics
record_pool_hit m = record m { pool_hits = add64 m.pool_hits 1 }

abbrev pub record_pool_miss : Metrics → Metrics
record_pool_miss m = record m { pool_misses = add64 m.pool_misses 1 }

abbrev pub record_pool_timeout : Metrics → Metrics
record_pool_timeout m = record m { pool_timeouts = add64 m.pool_timeouts 1 }

unfoldable pub record_health_check : Bool → ℕ → Metrics → Metrics
record_health_check success now m = record m {
  health_check_count = add64 m.health_check_count 1;
  last_health_check = some now;
  health_check_failures =
      if not success then add64 m.health_check_failures 1 else m.health_check_failures;
}

-- `m[command].Store(0)` for every command of another map; `none` for a nil counter.
unfoldable pub store_zeros : Map Text ℕ → Map Text ℕ → Option (Map Text ℕ)
store_zeros [] counters = some counters
store_zeros ((command, v) ∷ commands) counters = elim (lookup command counters) [
  | none ↦ none
  | some w ↦ store_zeros commands (insert command 0 counters)
]

-- The loop of Reset over the commands.
unfoldable pub reset_commands : Metrics → Option Metrics
reset_commands m = elim (store_zeros m.command_counts m.command_counts) [
  | none ↦ none
  | some counts ↦ elim (store_zeros m.command_counts m.command_durations) [
    | none ↦ none
    | some durations ↦ elim (store_zeros m.command_counts m.command_errors) [
      | none ↦ none
      | some errors ↦ some (record m {
        command_counts = counts;
        command_durations = durations;
        command_errors = errors;
      })
    ]
  ]
]

abbrev pub reset_counters : Metrics → Metrics
reset_counters m = record m {
  connection_count = 0;
  connection_failures = 0;
  reconnects = 0;
  active_connections = 0;
  idle_connections = 0;
  pool_hits = 0;
  pool_misses = 0;
  pool_timeouts = 0;
  min_latency = 0;
  max_latency = 0;
  total_latency = 0;
  latency_count = 0;
  total_errors = 0;
  timeout_errors = 0;
  connection_errors = 0;
  protocol_errors = 0;
  health_check_count = 0;
  health_check_failures = 0;
}

unfoldable pub reset : Metrics → Option Metrics
reset m = elim (reset_commands m) [ none ↦ none | some m' ↦ some (reset_counters m') ]

-- The loop of GetTotalCommands.
unfoldable pub sum_from : ℕ → Map Text ℕ → ℕ
sum_from total [] = total
sum_from total ((command, count) ∷ m) = sum_from (add64 total count) m

unfoldable pub get_total_commands : Metrics → ℕ
get_total_commands m = sum_from 0 m.command_counts

unfoldable pub get_average_latency : Metrics → ℕ
get_average_latency m = if m.latency_count == 0 then 0 else div64 m.total_latency m.latency_count
