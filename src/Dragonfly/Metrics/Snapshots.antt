-- ===== src/Dragonfly/Metrics/Snapshots.antt =====
-- Snapshot and GetErrorRate (pkg/dragonfly/metrics.go). Dividing floats is a parameter.
use gochoreo.Common.{
  ℕ, ◌≡◌, refl, true, false, Option, none, some, List, [], ◌∷◌, arith, if◌then◌else◌, ◌==◌, Map,
  lookup, insert, has, lookup-insert, Unique, Option-cases, Bool-cases, ◌∙◌, lookup_of_Mem, Mem,
  inl, inr, ◌≢◌, ◌⊎◌, ◌<◌, ◌/◌, subst, sym, if-eq-left, if-eq-right,
}
use gochoreo.Common.Word.{lt64, half64}
use gochoreo.Text.{Text}
use gochoreo.Text.Equality.{text_key, text_eq_iff}
use gochoreo.Metrics.{Floats, count_of}
use gochoreo.Dragonfly.Metrics.{
  Metrics, new_metrics, div64, reset, get_total_commands, reset_counters,
}
use gochoreo.Dragonfly.Metrics.Spread.{div64_small}
use gochoreo.Dragonfly.Metrics.Totals.{
  IsConsistent, reset_zeros, run_calls, Call, run_calls-IsConsistent, new_metrics-IsConsistent,
}

module _ (f : Floats) where
  pub record CommandMetrics : Type 0 where
    pub count : ℕ
    pub total_duration : ℕ
    pub average_duration : ℕ
    pub errors : ℕ
    pub error_rate : f.F

  pub record MetricsSnapshot : Type 0 where
    pub timestamp : ℕ
    pub commands : Map Text CommandMetrics
    pub connection_count : ℕ
    pub connection_failures : ℕ
    pub reconnects : ℕ
    pub active_connections : ℕ
    pub idle_connections : ℕ
    pub pool_hits : ℕ
    pub pool_misses : ℕ
    pub pool_timeouts : ℕ
    pub average_latency : ℕ
    pub min_latency : ℕ
    pub max_latency : ℕ
    pub total_errors : ℕ
    pub timeout_errors : ℕ
    pub connection_errors : ℕ
    pub protocol_errors : ℕ
    pub health_check_count : ℕ
    pub health_check_failures : ℕ
    -- `none` for the zero time
    pub last_health_check : Option ℕ

  unfoldable pub command_metrics : ℕ → ℕ → ℕ → CommandMetrics
  command_metrics count duration errors = record {
    count = count;
    total_duration = duration;
    average_duration = div64 duration count;
    errors = errors;
    error_rate = f.div (f.of_int64 errors) (f.of_int64 count);
  }

  -- `snapshot.Commands[command] = …`; `none` for a nil counter
  unfoldable pub add_command :
      Text → ℕ → Metrics → Map Text CommandMetrics → Option (Map Text CommandMetrics)
  add_command command count m result = elim (lookup command m.command_durations) [
    | none ↦ none
    | some duration ↦ elim (lookup command m.command_errors) [
      | none ↦ none
      | some errors ↦ some (insert command (command_metrics count duration errors) result)
    ]
  ]

  -- The loop over the commands; those that were not called are left out.
  unfoldable pub command_loop :
      Map Text ℕ → Metrics → Map Text CommandMetrics → Option (Map Text CommandMetrics)
  command_loop [] m result = some result
  command_loop ((command, count) ∷ counts) m result =
      elim (if count == 0 then some result else add_command command count m result) [
        | none ↦ none
        | some result' ↦ command_loop counts m result'
      ]

  abbrev pub snapshot_with : ℕ → Metrics → Map Text CommandMetrics → MetricsSnapshot
  snapshot_with now m commands =
      let any_latency = lt64 0 m.latency_count in
      record {
        timestamp = now;
        commands = commands;
        connection_count = m.connection_count;
        connection_failures = m.connection_failures;
        reconnects = m.reconnects;
        active_connections = m.active_connections;
        idle_connections = m.idle_connections;
        pool_hits = m.pool_hits;
        pool_misses = m.pool_misses;
        pool_timeouts = m.pool_timeouts;
        average_latency = if any_latency then div64 m.total_latency m.latency_count else 0;
        min_latency = if any_latency then m.min_latency else 0;
        max_latency = if any_latency then m.max_latency else 0;
        total_errors = m.total_errors;
        timeout_errors = m.timeout_errors;
        connection_errors = m.connection_errors;
        protocol_errors = m.protocol_errors;
        health_check_count = m.health_check_count;
        health_check_failures = m.health_check_failures;
        last_health_check = m.last_health_check;
      }

  unfoldable pub snapshot : ℕ → Metrics → Option MetricsSnapshot
  snapshot now m = elim (command_loop m.command_counts m []) [
    | none ↦ none
    | some commands ↦ some (snapshot_with now m commands)
  ]

  unfoldable pub get_error_rate : Metrics → f.F
  get_error_rate m =
      let total_commands = get_total_commands m in
      if total_commands == 0
      then f.of_int64 0
      else f.div (f.of_int64 m.total_errors) (f.of_int64 total_commands)

  -- A loop over counters that are all 0 adds nothing.
  zero_loop :
      (counts : Map Text ℕ) (m : Metrics) (result : Map Text CommandMetrics)
      → ((c : Text) (v : ℕ) → Mem (c, v) counts → v ≡ 0)
      → command_loop counts m result ≡ some result
  unfolding command_loop
  zero_loop [] m result h = refl
  zero_loop ((c, v) ∷ counts) m result h =
      rw (h c v (inl refl)) (zero_loop counts m result (λ d w k. h d w (inr k)))

  -- Reset and then Snapshot, on metrics that are consistent (as every sequence of calls leaves
  -- them), gives what Snapshot gives of new metrics, but for the time of the last health check,
  -- which Reset leaves.
  pub snapshot-reset :
      (now : ℕ) (m : Metrics)
      → IsConsistent m
      → (m' : Metrics) × (reset m ≡ some m')
        × (snapshot now m'
            ≡ snapshot now
                (record (new_metrics m.prefix) { last_health_check = m.last_health_check }))
  unfolding snapshot command_loop new_metrics
  snapshot-reset now m h =
      let (counts, durations, errors, e, zero, totals) = reset_zeros m h in
      (
        reset_counters (record m {
          command_counts = counts;
          command_durations = durations;
          command_errors = errors;
        }),
        e,
        rw
            (
              zero_loop counts
                  (reset_counters (record m {
                    command_counts = counts;
                    command_durations = durations;
                    command_errors = errors;
                  }))
                  [] (λ c v k. zero c v (lookup_of_Mem c v counts totals.unique_counts k)),
              snapshot,
            )
            refl,
      )

  -- What a loop over some counts shows of a command.
  abbrev shown : Metrics → Map Text ℕ → Text → Option CommandMetrics → Option CommandMetrics
  shown m counts c otherwise =
      if count_of c counts == 0
      then otherwise
      else some (
          command_metrics (count_of c counts) (count_of c m.command_durations)
            (count_of c m.command_errors))

  add_command_lem :
      (c : Text) (v : ℕ) (m : Metrics) (result : Map Text CommandMetrics)
      → has c m.command_durations ≡ true
      → has c m.command_errors ≡ true
      → add_command c v m result
        ≡ some (
            insert c
              (command_metrics v (count_of c m.command_durations) (count_of c m.command_errors))
              result)
  unfolding add_command
  add_command_lem c v m result h k = elim (Option-cases (lookup c m.command_durations)) [
    | inl missing ↦ absurd (no_key missing)
    | inr (d, there) ↦ elim (Option-cases (lookup c m.command_errors)) [
      | inl missing ↦ absurd (no_key' missing)
      | inr (n, there') ↦ rw (add_command, count_of, there, there', add_command, count_of) refl
    ]
  ]
    where
      no_key : lookup c m.command_durations ≡ none → ⊥
      no_key e = ground (arith, h)

      no_key' : lookup c m.command_errors ≡ none → ⊥
      no_key' e = ground (arith, k)

  -- One round, as a step of the table.
  command_loop_lem :
      (counts : Map Text ℕ) (m : Metrics) (result : Map Text CommandMetrics)
      → Unique counts
      → ((c : Text) → has c counts ≡ true → has c m.command_counts ≡ true)
      → IsConsistent m
      → (commands : Map Text CommandMetrics) × (command_loop counts m result ≡ some commands)
        × ((c : Text) → lookup c commands ≡ shown m counts c (lookup c result))
  unfolding command_loop lookup
  command_loop_lem [] m result u h k = (result, refl, λ c. refl)
  command_loop_lem ((c, v) ∷ counts) m result u h k = elim (Bool-cases (v == 0)) [
    | inl zero ↦
        let (commands, e, at) = command_loop_lem counts m result u.1 later k in
        (commands, rw (command_loop, zero) e, λ d. skipped commands at zero d)
    | inr more ↦
        let result' =
          insert c
            (command_metrics v (count_of c m.command_durations) (count_of c m.command_errors))
            result in
        let (commands, e, at) = command_loop_lem counts m result' u.1 later k in
        (
          commands,
          rw
              (
                command_loop,
                more,
                add_command_lem c v m result (k.has_durations c ∙ known) (k.has_errors c ∙ known),
              )
              e,
          λ d. added commands at more d,
        )
  ]
    where
      known : has c m.command_counts ≡ true
      known = h c (ground (arith, text_eq_iff c c))

      later : (d : Text) → has d counts ≡ true → has d m.command_counts ≡ true
      later d q = ground (arith, h d)

      skipped :
          (commands : Map Text CommandMetrics)
          → ((d : Text) → lookup d commands ≡ shown m counts d (lookup d result))
          → (v == 0) ≡ true
          → (d : Text) → lookup d commands ≡ shown m ((c, v) ∷ counts) d (lookup d result)
      skipped commands at zero d = ground (arith, at d, text_eq_iff c d, u.0)

      added :
          (commands : Map Text CommandMetrics)
          → ((d : Text)
              → lookup d commands
                ≡ shown m counts d (
                    lookup d (
                      insert c
                        (command_metrics v
                          (count_of c m.command_durations)
                          (count_of c m.command_errors))
                        result)))
          → (v == 0) ≡ false
          → (d : Text) → lookup d commands ≡ shown m ((c, v) ∷ counts) d (lookup d result)
      added commands at more d = ground (
        arith,
        at d,
        text_eq_iff c d,
        u.0,
        lookup-insert c d
            (command_metrics v (count_of c m.command_durations) (count_of c m.command_errors))
            result,
      )

  -- What a snapshot shows of a command: nothing if its count is 0; else its count, its duration and
  -- its errors, and their quotients.
  abbrev pub Shows : Metrics → Text → Option CommandMetrics → Type 0
  Shows m c entry =
      ((count_of c m.command_counts ≡ 0) × (entry ≡ none))
      ⊎ ((count_of c m.command_counts ≢ 0)
          × (cm : CommandMetrics) × (entry ≡ some cm)
          × (cm.count ≡ count_of c m.command_counts)
          × (cm.total_duration ≡ count_of c m.command_durations)
          × (cm.errors ≡ count_of c m.command_errors)
          × (count_of c m.command_durations < half64
              → count_of c m.command_counts < half64
              → cm.average_duration ≡ count_of c m.command_durations / count_of c m.command_counts)
          × (cm.error_rate
              ≡ f.div (f.of_int64 (count_of c m.command_errors))
                  (f.of_int64 (count_of c m.command_counts))))

  shown-Shows : (m : Metrics) (c : Text) → Shows m c (shown m m.command_counts c none)
  unfolding command_metrics
  shown-Shows m c = elim (Bool-cases (count_of c m.command_counts == 0)) [
    | inl zero ↦ inl (ground (arith, zero), if-eq-left (count_of c m.command_counts == 0) _ _ zero)
    | inr more ↦ inr (
      (λ e. ground (arith, more)),
      command_metrics (count_of c m.command_counts) (count_of c m.command_durations)
          (count_of c m.command_errors),
      if-eq-right (count_of c m.command_counts == 0) _ _ more,
      refl,
      refl,
      refl,
      (λ h k. div64_small (count_of c m.command_durations) (count_of c m.command_counts) h k),
      refl,
    )
  ]

  -- Snapshot does not panic after any sequence of calls on new metrics. It lists exactly the commands
  -- whose count is not 0, each with its own count, duration and errors, the quotient of the duration
  -- and the count, as far as both are below 2 ^ 63, and the quotient of the errors and the count.
  pub snapshot-run_calls :
      (now : ℕ) (prefix : Text) (calls : List (Call × ℕ))
      → (m : Metrics) × (s : MetricsSnapshot) × (run_calls calls (new_metrics prefix) ≡ some m)
        × (snapshot now m ≡ some s)
        × ((c : Text) → Shows m c (lookup c s.commands))
  unfolding snapshot lookup
  snapshot-run_calls now prefix calls =
      let (m, r, h) =
        run_calls-IsConsistent calls (new_metrics prefix) (new_metrics-IsConsistent prefix) in
      let (commands, e, at) = command_loop_lem m.command_counts m [] h.unique_counts (λ c k. k) h in
      (
        m,
        snapshot_with now m commands,
        r,
        rw (snapshot, e, snapshot) refl,
        λ c. subst (Shows m c) (sym (at c)) (shown-Shows m c),
      )
