-- ===== src/Dragonfly/Health.antt =====
-- pkg/dragonfly/health.go. The mutex makes every method one step; the answers of the go-redis client,
-- the clock and the logger (left out) are outside.
pub mod Counts
pub mod Batch
use gochoreo.Common.{
  ℕ, zero, suc, Bool, true, false, not, ◌&&◌, ◌||◌, Option, none, some, List, [], ◌∷◌, ◌++◌,
  if◌then◌else◌, is_empty, Map, lookup, insert,
}
use gochoreo.Common.Int.{ℤ, pos, negsuc}
use gochoreo.Common.Word.{add64, lt64}
use gochoreo.Text.{Text, codes, text_eq, has_prefix, split, cut}
use gochoreo.Text.Equality.{text_key}
use gochoreo.Text.Decimal.{atoi}
use gochoreo.Text.Space.{trim_space}
use gochoreo.Dragonfly.Errors.{Err, Cause, plain, wrapping, caused_by}
use gochoreo.Dragonfly.Metrics.{Metrics, record_health_check}

pub record HealthStatus : Type 0 where
  pub connected : Bool
  pub last_check : ℕ
  pub last_error : Option Err
  pub latency : ℕ
  pub check_count : ℕ
  pub failure_count : ℕ
  pub consecutive_fails : ℕ
  pub uptime : ℕ
  pub server_info : Map Text Text
  pub memory_usage : ℤ
  pub connected_clients : ℤ

-- The checker with the fields of the client that it writes.
pub record HealthChecker : Type 0 where
  pub status : HealthStatus
  pub start_time : ℕ
  pub client_connected : Bool
  pub client_last_connected : Option ℕ
  pub client_metrics : Option Metrics

-- What the go-redis client answers to the commands of one check; `info` is none for an error.
pub record Answers : Type 0 where
  pub client_is_nil : Bool
  pub ping : Option Err
  pub info : Option Text
  pub set : Option Err
  pub get : Option Err

-- What the clock shows during one check.
pub record Clock : Type 0 where
  pub start : ℕ
  pub since_start_time : ℕ
  pub since_start : ℕ
  -- the time that the metrics store
  pub now : ℕ

unfoldable pub new_health_checker : ℕ → Bool → Option ℕ → Option Metrics → HealthChecker
new_health_checker now connected last_connected metrics = record {
  status = record {
    connected = false;
    last_check = now;
    last_error = none;
    latency = 0;
    check_count = 0;
    failure_count = 0;
    consecutive_fails = 0;
    uptime = 0;
    server_info = [];
    memory_usage = pos 0;
    connected_clients = pos 0;
  };
  start_time = now;
  client_connected = connected;
  client_last_connected = last_connected;
  client_metrics = metrics;
}

-- `if n, err := strconv.ParseInt(value, 10, 64); err == nil`
abbrev pub parsed_or : ℤ → Text → ℤ
parsed_or otherwise value = elim (atoi value) [ none ↦ otherwise | some n ↦ n ]

unfoldable pub store_info : Text → Text → HealthStatus → HealthStatus
store_info key value s =
    let stored = record s { server_info = insert key value s.server_info } in
    if text_eq key (codes "used_memory")
    then record stored { memory_usage = parsed_or s.memory_usage value }
    else if text_eq key (codes "connected_clients")
    then record stored { connected_clients = parsed_or s.connected_clients value }
    else stored

-- One round of the loop over the lines.
unfoldable pub parse_line : Text → HealthStatus → HealthStatus
parse_line line s =
    if is_empty line || has_prefix line (codes "#") then s else elim (cut line b':') [
      | none ↦ s
      | some (key, value) ↦ store_info (trim_space key) (trim_space value) s
    ]

unfoldable pub parse_lines : List Text → HealthStatus → HealthStatus
parse_lines [] s = s
parse_lines (line ∷ lines) s = parse_lines lines (parse_line line s)

unfoldable pub parse_server_info : Text → HealthStatus → HealthStatus
parse_server_info info s = parse_lines (split info (13 ∷ 10 ∷ [])) s

-- `if info, err := client.Info(ctx).Result(); err == nil`
abbrev pub parse_answer : Option Text → HealthStatus → HealthStatus
parse_answer none s = s
parse_answer (some info) s = parse_server_info info s

-- The commands after INFO.
unfoldable pub set_and_get : Answers → Option Err
set_and_get a = elim a.set [
  | some err ↦ some (wrapping (codes "set operation failed: ") (caused_by err))
  | none ↦ elim a.get [
    | some err ↦ some (wrapping (codes "get operation failed: ") (caused_by err))
    | none ↦ none
  ]
]

unfoldable pub perform_health_check : Answers → HealthStatus → Option Err × HealthStatus
perform_health_check a s =
    if a.client_is_nil then (some (plain (codes "client is nil")), s) else elim a.ping [
      | some err ↦ (some (wrapping (codes "ping failed: ") (caused_by err)), s)
      | none ↦ (set_and_get a, parse_answer a.info s)
    ]

abbrev pub record_check : Bool → ℕ → Option Metrics → Option Metrics
record_check success now none = none
record_check success now (some m) = some (record_health_check success now m)

-- What Check does after the commands.
unfoldable pub finish_check : Option Err → Clock → HealthStatus → HealthChecker → HealthChecker
finish_check (some err) t s hc = record hc {
  status = record s {
    latency = t.since_start;
    connected = false;
    last_error = some err;
    failure_count = add64 s.failure_count 1;
    consecutive_fails = add64 s.consecutive_fails 1;
  };
  client_metrics = record_check false t.now hc.client_metrics;
}
finish_check none t s hc = record hc {
  status = record s {
    latency = t.since_start;
    connected = true;
    last_error = none;
    consecutive_fails = 0;
  };
  client_connected = true;
  client_last_connected = some t.start;
  client_metrics = record_check true t.now hc.client_metrics;
}

unfoldable pub check : Answers → Clock → HealthChecker → HealthChecker
check a t hc =
    let started = record hc.status {
      last_check = t.start;
      check_count = add64 hc.status.check_count 1;
      uptime = t.since_start_time;
    } in
    let (err, s) = perform_health_check a started in finish_check err t s hc

abbrev pub get_status : HealthChecker → HealthStatus
get_status hc = hc.status

unfoldable pub is_healthy : HealthChecker → Bool
is_healthy hc = hc.status.connected && lt64 hc.status.consecutive_fails 3

unfoldable pub reset_health : ℕ → HealthChecker → HealthChecker
reset_health now hc = record hc {
  status = record hc.status {
    check_count = 0;
    failure_count = 0;
    consecutive_fails = 0;
    last_error = none;
  };
  start_time = now;
}
