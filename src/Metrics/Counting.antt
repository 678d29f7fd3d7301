-- ===== src/Metrics/Counting.antt =====
-- The collector's counters against the history of calls.
use gochoreo.Common.{
  ℕ, ◌+◌, ◌%◌, ◌≡◌, refl, Bool, true, false, ◌&&◌, none, some, List, [], ◌∷◌, arith, if◌then◌else◌,
  Map, lookup, insert, lookup-insert, lookup-delete, lookup-nil, ◌∙◌, ap,
}
use gochoreo.Common.Word.{add64, mod64}
use gochoreo.Text.{Text, text_eq}
use gochoreo.Text.Equality.{text_key, text_eq_iff}
use gochoreo.Version.{Version, to_string}
use gochoreo.Metrics.{
  Collector, ComponentMetrics, metrics_of, count_of, bump, record_request, record_error, reset,
  reset_component, get_metrics, new_default_metrics_collector,
}

-- A call of a method that writes.
pub data Call : Type 0 where
  request : Text → Version → Text → Call
  error : Text → Version → Call
  reset_all : Call
  reset_one : Text → Call

unfoldable pub apply_call : Call → Collector → Collector
apply_call (request component version now) c = record_request component version now c
apply_call (error component version) c = record_error component version c
apply_call reset_all c = reset c
apply_call (reset_one component) c = reset_component component c

unfoldable pub run_calls : List Call → Collector → Collector
run_calls [] c = c
run_calls (call ∷ calls) c = run_calls calls (apply_call call c)

-- The counters that `GetMetrics` shows, 0 for a component or a version that it does not show.
abbrev pub requests_at : Text → Text → Collector → ℕ
requests_at component key c = elim (get_metrics component c) [
  | none ↦ 0
  | some m ↦ count_of key m.version_metrics
]

abbrev pub errors_at : Text → Text → Collector → ℕ
errors_at component key c = elim (get_metrics component c) [
  | none ↦ 0
  | some m ↦ count_of key m.error_counts
]

-- The specification: how many of the calls were requests, or errors, of the component and version
-- since the component was last reset.
abbrev pub requests_in : Text → Text → List Call → ℕ → ℕ
requests_in component key [] n = n
requests_in component key (request c v now ∷ calls) n =
    requests_in component key calls
      (if text_eq c component && text_eq (to_string v) key then n + 1 else n)
requests_in component key (error c v ∷ calls) n = requests_in component key calls n
requests_in component key (reset_all ∷ calls) n = requests_in component key calls 0
requests_in component key (reset_one c ∷ calls) n =
    requests_in component key calls (if text_eq c component then 0 else n)

abbrev pub errors_in : Text → Text → List Call → ℕ → ℕ
errors_in component key [] n = n
errors_in component key (request c v now ∷ calls) n = errors_in component key calls n
errors_in component key (error c v ∷ calls) n =
    errors_in component key calls
      (if text_eq c component && text_eq (to_string v) key then n + 1 else n)
errors_in component key (reset_all ∷ calls) n = errors_in component key calls 0
errors_in component key (reset_one c ∷ calls) n =
    errors_in component key calls (if text_eq c component then 0 else n)

count_of-bump :
    (j k : Text) (m : Map Text ℕ)
    → count_of k (bump j m) ≡ (if text_eq j k then add64 (count_of k m) 1 else count_of k m)
unfolding bump
count_of-bump j k m = ground (arith, lookup-insert j k (add64 (count_of j m) 1) m, text_eq_iff j k)

module _ (component key : Text) (s : Collector) where
  requests_at-metrics_of :
      requests_at component key s ≡ count_of key (metrics_of component s).version_metrics
  unfolding get_metrics
  requests_at-metrics_of = ground (arith, lookup-nil {V = ℕ} key)

  errors_at-metrics_of :
      errors_at component key s ≡ count_of key (metrics_of component s).error_counts
  unfolding get_metrics
  errors_at-metrics_of = ground (arith, lookup-nil {V = ℕ} key)

abbrev pub step_at : Bool → ℕ → ℕ
step_at hit n = if hit then add64 n 1 else n

abbrev pub hits : Text → Text → Text → Version → Bool
hits component key c v = text_eq c component && text_eq (to_string v) key

module _ (component key c : Text) (v : Version) (s : Collector) where
  pub requests_at-record_request :
      (now : Text)
      → requests_at component key (record_request c v now s)
        ≡ step_at (hits component key c v) (requests_at component key s)
  unfolding record_request get_metrics
  requests_at-record_request now = ground (
    arith,
    lookup-insert c component
        (record (metrics_of c s) {
          version_metrics = bump (to_string v) (metrics_of c s).version_metrics;
          last_accessed = insert (to_string v) now (metrics_of c s).last_accessed;
        })
        s,
    count_of-bump (to_string v) key (metrics_of c s).version_metrics,
    text_eq_iff c component,
    requests_at-metrics_of component key s,
  )

  pub errors_at-record_request :
      (now : Text) → errors_at component key (record_request c v now s) ≡ errors_at component key s
  unfolding record_request get_metrics
  errors_at-record_request now = ground (
    arith,
    lookup-insert c component
        (record (metrics_of c s) {
          version_metrics = bump (to_string v) (metrics_of c s).version_metrics;
          last_accessed = insert (to_string v) now (metrics_of c s).last_accessed;
        })
        s,
    text_eq_iff c component,
    errors_at-metrics_of component key s,
  )

  pub requests_at-record_error :
      requests_at component key (record_error c v s) ≡ requests_at component key s
  unfolding record_error get_metrics
  requests_at-record_error = ground (
    arith,
    lookup-insert c component
        (record (metrics_of c s) {
          error_counts = bump (to_string v) (metrics_of c s).error_counts;
        })
        s,
    text_eq_iff c component,
    requests_at-metrics_of component key s,
  )

  pub errors_at-record_error :
      errors_at component key (record_error c v s)
      ≡ step_at (hits component key c v) (errors_at component key s)
  unfolding record_error get_metrics
  errors_at-record_error = ground (
    arith,
    lookup-insert c component
        (record (metrics_of c s) {
          error_counts = bump (to_string v) (metrics_of c s).error_counts;
        })
        s,
    count_of-bump (to_string v) key (metrics_of c s).error_counts,
    text_eq_iff c component,
    errors_at-metrics_of component key s,
  )

module _ (component key c : Text) (s : Collector) where
  requests_at-reset_component :
      requests_at component key (reset_component c s)
      ≡ (if text_eq c component then 0 else requests_at component key s)
  unfolding reset_component get_metrics
  requests_at-reset_component = ground (arith, lookup-delete c component s)

  errors_at-reset_component :
      errors_at component key (reset_component c s)
      ≡ (if text_eq c component then 0 else errors_at component key s)
  unfolding reset_component get_metrics
  errors_at-reset_component = ground (arith, lookup-delete c component s)

step_at-mod : (hit : Bool) (n : ℕ) → step_at hit (n % mod64) ≡ (if hit then n + 1 else n) % mod64
unfolding add64
step_at-mod true n = omega arith
step_at-mod false n = refl

-- The counters follow the history.
requests_at-run_calls :
    (component key : Text) (calls : List Call) (s : Collector) (n : ℕ)
    → requests_at component key s ≡ n % mod64
    → requests_at component key (run_calls calls s) ≡ requests_in component key calls n % mod64
unfolding run_calls apply_call get_metrics
requests_at-run_calls component key [] s n h = h
requests_at-run_calls component key (request c v now ∷ calls) s n h =
    requests_at-run_calls component key calls (record_request c v now s) _ (
      requests_at-record_request component key c v s now
      ∙ ap (step_at (hits component key c v)) h
      ∙ step_at-mod (hits component key c v) n)
requests_at-run_calls component key (error c v ∷ calls) s n h =
    requests_at-run_calls component key calls (record_error c v s) n
      (requests_at-record_error component key c v s ∙ h)
requests_at-run_calls component key (reset_all ∷ calls) s n h =
    requests_at-run_calls component key calls (reset s) 0
      (ground (arith, lookup-nil {V = ComponentMetrics} component))
requests_at-run_calls component key (reset_one c ∷ calls) s n h =
    requests_at-run_calls component key calls (reset_component c s) _
      (requests_at-reset_component component key c s ∙ ground arith)

errors_at-run_calls :
    (component key : Text) (calls : List Call) (s : Collector) (n : ℕ)
    → errors_at component key s ≡ n % mod64
    → errors_at component key (run_calls calls s) ≡ errors_in component key calls n % mod64
unfolding run_calls apply_call get_metrics
errors_at-run_calls component key [] s n h = h
errors_at-run_calls component key (request c v now ∷ calls) s n h =
    errors_at-run_calls component key calls (record_request c v now s) n
      (errors_at-record_request component key c v s now ∙ h)
errors_at-run_calls component key (error c v ∷ calls) s n h =
    errors_at-run_calls component key calls (record_error c v s) _ (
      errors_at-record_error component key c v s
      ∙ ap (step_at (hits component key c v)) h
      ∙ step_at-mod (hits component key c v) n)
errors_at-run_calls component key (reset_all ∷ calls) s n h =
    errors_at-run_calls component key calls (reset s) 0
      (ground (arith, lookup-nil {V = ComponentMetrics} component))
errors_at-run_calls component key (reset_one c ∷ calls) s n h =
    errors_at-run_calls component key calls (reset_component c s) _
      (errors_at-reset_component component key c s ∙ ground arith)

-- Whatever calls a new collector has served, its request counter and its error counter of a
-- component and version text are, modulo 2 ^ 64, the numbers of such requests and errors since the
-- last reset that covers the component.
pub counters_lem :
    (component key : Text) (calls : List Call)
    → let c = run_calls calls new_default_metrics_collector in
      (requests_at component key c ≡ requests_in component key calls 0 % mod64)
      × (errors_at component key c ≡ errors_in component key calls 0 % mod64)
unfolding get_metrics lookup
counters_lem component key calls = (
  requests_at-run_calls component key calls [] 0 refl,
  errors_at-run_calls component key calls [] 0 refl,
)
