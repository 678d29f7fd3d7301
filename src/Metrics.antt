-- ===== src/Metrics.antt =====
-- pkg/version/metrics.go: the in-memory collector and the usage statistics. Its mutex makes every
-- method one step. What `GetMetrics` returns is a copy, so no caller shares the collector's maps.
pub mod Counting
pub mod Usage
mod Tests
use gochoreo.Common.{
  ℕ, Bool, true, false, not, ◌&&◌, ◌||◌, Option, none, some, List, [], ◌∷◌, map, if◌then◌else◌,
  is_empty, ◌==◌, Map, lookup, insert, delete, keys,
}
use gochoreo.Common.Word.{add64, lt64, minus_one}
use gochoreo.Text.{Text, codes, text_lt}
use gochoreo.Text.Equality.{text_key}
use gochoreo.Version.{Version, to_string}

pub record ComponentMetrics : Type 0 where
  pub component : Text
  pub version_metrics : Map Text ℕ
  pub last_accessed : Map Text Text
  pub error_counts : Map Text ℕ

-- DefaultMetricsCollector
abbrev pub Collector : Type 0
Collector = Map Text ComponentMetrics

abbrev pub new_default_metrics_collector : Collector
new_default_metrics_collector = []

abbrev pub empty_metrics : Text → ComponentMetrics
empty_metrics component = record {
  component = component;
  version_metrics = [];
  last_accessed = [];
  error_counts = [];
}

-- `c.metrics[component]`, created if it is nil
abbrev pub metrics_of : Text → Collector → ComponentMetrics
metrics_of component c = elim (lookup component c) [
  | none ↦ empty_metrics component
  | some metrics ↦ metrics
]

-- `m[key]`, 0 for a missing key
abbrev pub count_of : Text → Map Text ℕ → ℕ
count_of key m = elim (lookup key m) [ none ↦ 0 | some n ↦ n ]

-- `m[key]++`
unfoldable pub bump : Text → Map Text ℕ → Map Text ℕ
bump key m = insert key (add64 (count_of key m) 1) m

-- RecordRequest; the last argument is the formatted time.
unfoldable pub record_request : Text → Version → Text → Collector → Collector
record_request component version now c =
    let metrics = metrics_of component c in
    let version_str = to_string version in
    insert component
      (record metrics {
        version_metrics = bump version_str metrics.version_metrics;
        last_accessed = insert version_str now metrics.last_accessed;
      })
      c

unfoldable pub record_error : Text → Version → Collector → Collector
record_error component version c =
    let metrics = metrics_of component c in
    insert component
      (record metrics { error_counts = bump (to_string version) metrics.error_counts }) c

unfoldable pub get_metrics : Text → Collector → Option ComponentMetrics
get_metrics component c = lookup component c

abbrev pub get_all_metrics : Collector → Map Text ComponentMetrics
get_all_metrics c = c

abbrev pub reset : Collector → Collector
reset c = []

unfoldable pub reset_component : Text → Collector → Collector
reset_component component c = delete component c

-- The variables of the loop of GetUsageStats.
pub record Tally : Type 0 where
  pub total_requests : ℕ
  pub most_used_count : ℕ
  pub most_used_version : Text
  pub least_used_count : ℕ
  pub least_used_version : Text
  pub latest_activity : Text

abbrev pub start_tally : Tally
start_tally = record {
  total_requests = 0;
  most_used_count = 0;
  most_used_version = [];
  least_used_count = minus_one;
  least_used_version = [];
  latest_activity = [];
}

-- `if latestActivity == "" || lastAccessed > latestActivity`, for a version that has a time
abbrev pub later : Text → Option Text → Text
later latest none = latest
later latest (some accessed) =
    if is_empty latest || text_lt latest accessed then accessed else latest

-- One round of the loop over VersionMetrics.
unfoldable pub tally_round : Map Text Text → Text → ℕ → Tally → Tally
tally_round last_accessed version count t =
    let most = lt64 t.most_used_count count in
    let least = (t.least_used_count == minus_one) || lt64 count t.least_used_count in
    record {
      total_requests = add64 t.total_requests count;
      most_used_count = if most then count else t.most_used_count;
      most_used_version = if most then version else t.most_used_version;
      least_used_count = if least then count else t.least_used_count;
      least_used_version = if least then version else t.least_used_version;
      latest_activity = later t.latest_activity (lookup version last_accessed);
    }

unfoldable pub tally_loop : Map Text Text → Map Text ℕ → Tally → Tally
tally_loop last_accessed [] t = t
tally_loop last_accessed ((version, count) ∷ m) t =
    tally_loop last_accessed m (tally_round last_accessed version count t)

unfoldable pub sum_counts : Map Text ℕ → ℕ → ℕ
sum_counts [] total = total
sum_counts ((version, count) ∷ m) total = sum_counts m (add64 total count)

-- float64, of which the code divides and multiplies.
pub record Floats : Type 1 where
  pub F : Type 0
  pub of_int64 : ℕ → F
  pub hundred : F
  pub div : F → F → F
  pub mul : F → F → F

module _ (f : Floats) where
  pub record VersionUsageStats : Type 0 where
    pub component : Text
    pub total_requests : ℕ
    pub total_errors : ℕ
    pub version_breakdown : Map Text f.F
    pub error_rate : f.F
    pub most_used_version : Text
    pub least_used_version : Text
    pub deprecated_usage : Map Text ℕ
    pub last_activity : Text

  -- The second loop over VersionMetrics.
  pub breakdown : ℕ → Map Text ℕ → Map Text f.F → Map Text f.F
  breakdown total [] result = result
  breakdown total ((version, count) ∷ m) result = breakdown total m (
      if lt64 0 total
      then insert version (f.mul (f.div (f.of_int64 count) (f.of_int64 total)) f.hundred) result
      else result)

  pub usage_stats : Text → ComponentMetrics → VersionUsageStats
  usage_stats component metrics =
      let t = tally_loop metrics.last_accessed metrics.version_metrics start_tally in
      let total_errors = sum_counts metrics.error_counts 0 in
      record {
        component = component;
        total_requests = t.total_requests;
        total_errors = total_errors;
        version_breakdown = breakdown t.total_requests metrics.version_metrics [];
        error_rate =
            if lt64 0 t.total_requests
            then f.div (f.of_int64 total_errors) (f.of_int64 t.total_requests)
            else f.of_int64 0;
        most_used_version = t.most_used_version;
        least_used_version = t.least_used_version;
        deprecated_usage = [];
        last_activity = t.latest_activity;
      }

  unfoldable pub get_usage_stats : Text → Collector → Option VersionUsageStats
  unfolding usage_stats
  get_usage_stats component c = elim (get_metrics component c) [
    | none ↦ none
    | some metrics ↦ some (usage_stats component metrics)
  ]

  -- The loop of GetAllUsageStats over the names that were read under the lock.
  pub usage_loop : List Text → Collector → Map Text VersionUsageStats → Map Text VersionUsageStats
  usage_loop [] c result = result
  usage_loop (component ∷ names) c result = usage_loop names c (elim (get_usage_stats component c) [
    | none ↦ result
    | some stats ↦ insert component stats result
  ])

  unfoldable pub get_all_usage_stats : Collector → Map Text VersionUsageStats
  unfolding usage_loop
  get_all_usage_stats c = usage_loop (keys c) c []
