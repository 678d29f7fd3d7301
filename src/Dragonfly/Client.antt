-- ===== src/Dragonfly/Client.antt =====
-- pkg/dragonfly/client.go: the client's life. The go-redis clients that it opens are numbered; what
-- they and the logger answer, and the clock, are arguments. Logging and OpenTelemetry are left out,
-- and a background routine is only noted as started: its rounds are the events `round`.
pub mod Options
pub mod Life
pub mod Ledger
pub mod Leaks
use gochoreo.Common.{
  ℕ, suc, Bool, true, false, not, Option, none, some, List, [], ◌∷◌, ◌++◌, ◌⊎◌, inl, inr,
  if◌then◌else◌, is_empty, ltb, length, is_some,
}
use gochoreo.Common.Int.{pos}
use gochoreo.Text.{Text, codes}
use gochoreo.Dragonfly.Errors.{Err, Cause, plain, wrapping, caused_by}
use gochoreo.Dragonfly.Config.{Config, validate}
use gochoreo.Dragonfly.Config.Presets.{default_config}
use gochoreo.Dragonfly.Metrics.{Metrics, new_metrics, record_command}
use gochoreo.Dragonfly.Health.{
  HealthChecker, HealthStatus, Answers, Clock, new_health_checker, check,
}
use gochoreo.Dragonfly.Client.Options.{RedisOptions, options_of}

pub data Routine : Type 0 where
  health_routine metrics_routine : Routine

module _ {T : Type 0} (skip_verify : Bool → T) where
  pub record Redis : Type 0 where
    pub id : ℕ
    pub options : RedisOptions T

  pub record Client : Type 0 where
    pub config : Config T
    pub client : Redis
    -- how many go-redis clients were opened, and which were closed
    pub opened : ℕ
    pub closed : List ℕ
    pub metrics : Option Metrics
    pub metrics_enabled : Bool
    pub health_checker : Option HealthChecker
    pub health_enabled : Bool
    pub connected : Bool
    pub last_connected : Option ℕ
    pub routines : List Routine
    pub cancelled : Bool
    pub start_once : Bool
    pub stop_once : Bool

  -- createRedisClient on the client's config: it never fails.
  unfoldable pub create_redis_client : Client → Option Err × Client
  create_redis_client c = (
    none,
    record c {
      client = record { id = c.opened; options = options_of skip_verify c.config };
      opened = suc c.opened;
    },
  )

  -- NewClient after the tests: createRedisClient on the new fields, the metrics, the health checker.
  abbrev pub build_client : Config T → ℕ → Client
  build_client config now =
      let metrics =
        if config.enable_metrics then some (new_metrics config.metrics_prefix) else none in
      record {
        config = config;
        client = record { id = 0; options = options_of skip_verify config };
        opened = 1;
        closed = [];
        metrics = metrics;
        metrics_enabled = config.enable_metrics;
        health_checker =
            if config.enable_health_check
            then some (new_health_checker now false none metrics)
            else none;
        health_enabled = config.enable_health_check;
        connected = false;
        last_connected = none;
        routines = [];
        cancelled = false;
        start_once = false;
        stop_once = false;
      }

  -- NewClient; the second argument is the error of logger.New.
  unfoldable pub new_client : Option (Config T) → Option Err → ℕ → Err ⊎ Client
  new_client config logger now =
      let config' : Config T = elim config [ none ↦ default_config | some given ↦ given ] in
      elim (validate config') [
        | some err ↦ inl (wrapping (codes "invalid configuration: ") (caused_by err))
        | none ↦ elim logger [
          | some err ↦ inl (wrapping (codes "failed to create logger: ") (caused_by err))
          | none ↦ inr (build_client config' now)
        ]
      ]

  -- runInitCommands: the commands that are sent, and the error that ends them.
  unfoldable pub run_init_commands : (Text → Option Err) → List Text → List Text × Option Err
  run_init_commands send [] = ([], none)
  run_init_commands send (cmd ∷ cmds) =
      let (sent, err) = run_init_commands send cmds in
      if is_empty cmd
      then (sent, err)
      else elim (send cmd) [ some failed ↦ (cmd ∷ [], some failed) | none ↦ (cmd ∷ sent, err) ]

  -- The body of startOnce.Do after the ping: an error of the initialization is only logged.
  abbrev pub started : ℕ → Client → Client
  started now c = record c {
    start_once = true;
    connected = true;
    last_connected = some now;
    routines =
        c.routines
        ++ ((if c.health_enabled then health_routine ∷ [] else [])
            ++ (if c.metrics_enabled then metrics_routine ∷ [] else []));
  }

  -- Start: its error, the initialization commands that it sends, and the client.
  unfoldable pub start :
      Option Err → (Text → Option Err) → ℕ → Client → Option Err × List Text × Client
  start ping send now c = if c.start_once then (none, [], c) else elim ping [
    | some err ↦ (
      some (wrapping (codes "failed to connect to Dragonfly: ") (caused_by err)),
      [],
      record c { start_once = true },
    )
    | none ↦ (none, (run_init_commands send c.config.init_commands).0, started now c)
  ]

  -- Stop; the argument is what Close answers. The routines have ended when it goes on.
  unfoldable pub stop : Option Err → Client → Option Err × Client
  stop close c = if c.stop_once then (none, c) else (
    (elim close [
      | none ↦ none
      | some err ↦ some (wrapping (codes "failed to close Redis client: ") (caused_by err))
    ]),
    record c {
      stop_once = true;
      cancelled = true;
      routines = [];
      closed = c.closed ++ c.client.id ∷ [];
      connected = false;
    },
  )

  -- Reload after the tests on the new configuration.
  unfoldable pub switch_client : Config T → Option Err → Client → Option Err × Client
  switch_client new_config ping c =
      let (err, c') = create_redis_client (record c { config = new_config }) in
      elim err [
        | some e ↦ (
          some (wrapping (codes "failed to create new Redis client: ") (caused_by e)),
          record c' { config = c.config },
        )
        | none ↦ elim ping [
          | some e ↦ (
            some (wrapping (codes "failed to connect with new configuration: ") (caused_by e)),
            record c' { client = c.client; config = c.config },
          )
          | none ↦ (none, record c' { closed = c'.closed ++ c.client.id ∷ [] })
        ]
      ]

  unfoldable pub reload : Option (Config T) → Option Err → Client → Option Err × Client
  reload none ping c = (some (plain (codes "configuration cannot be nil")), c)
  reload (some new_config) ping c = elim (validate new_config) [
    | some err ↦ (some (wrapping (codes "invalid new configuration: ") (caused_by err)), c)
    | none ↦ switch_client new_config ping c
  ]

  -- A round of runHealthChecker: Check on the fields of this client.
  unfoldable pub round : Answers → Clock → Client → Client
  round a t c = elim c.health_checker [
    | none ↦ c
    | some hc ↦
        let hc' = check a t (record hc {
          client_connected = c.connected;
          client_last_connected = c.last_connected;
          client_metrics = c.metrics;
        }) in
        record c {
          health_checker = some hc';
          connected = hc'.client_connected;
          last_connected = hc'.client_last_connected;
          metrics = hc'.client_metrics;
        }
  ]

  -- What Health answers without a checker.
  abbrev pub fallback_status : Option Err → ℕ → ℕ → Client → HealthStatus
  fallback_status ping now latency c = record {
    connected = if is_some ping then false else c.connected;
    last_check = now;
    last_error = ping;
    latency = latency;
    check_count = 1;
    failure_count = if is_some ping then 1 else 0;
    consecutive_fails = 0;
    uptime = 0;
    server_info = [];
    memory_usage = pos 0;
    connected_clients = pos 0;
  }

  unfoldable pub health : Option Err → ℕ → ℕ → Client → HealthStatus
  health ping now latency c = elim c.health_checker [
    | some hc ↦ hc.status
    | none ↦ fallback_status ping now latency c
  ]

  -- ExecuteWithMetrics on a command with a name, an error and the time that reading the error
  -- takes; the text of the error is what the metrics use. A nil pointer of the metrics is `none`.
  unfoldable pub execute_with_metrics :
      Text → Option Text → ℕ → Client → Option (Option Text × Client)
  execute_with_metrics name err duration c =
      if not c.metrics_enabled then some (err, c) else elim c.metrics [
        | none ↦ none
        | some m ↦ elim (record_command name duration err m) [
          | none ↦ none
          | some m' ↦ some (err, record c { metrics = some m' })
        ]
      ]
