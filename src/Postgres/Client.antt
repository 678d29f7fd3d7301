-- ===== src/Postgres/Client.antt =====
-- pkg/postgres/client.go: the state of the client, its queries, its health and its end. What pgx
-- answers and how long it takes are arguments; a mutex makes every method one step.
pub mod Transactions
pub mod Columns
pub mod Queries
pub mod Balance
pub mod Closed
use gochoreo.Common.{
  ℕ, ◌+◌, Bool, true, false, not, ◌&&◌, ◌||◌, Option, none, some, List, [], ◌∷◌, if◌then◌else◌,
  is_empty, is_some, ◌⊎◌, inl, inr, ◌==◌,
}
use gochoreo.Common.Int.{ℤ, pos, eqb_ℤ}
use gochoreo.Common.Word.{add64}
use gochoreo.Text.{Text, codes}
use gochoreo.Dragonfly.Metrics.{div64}
use gochoreo.Postgres.Errors.{
  PgError, wrapping, connection_pool_closed, invalid_query, health_check_failed,
  database_unavailable,
}
use gochoreo.Postgres.Config.{Libraries, Config, validate}
use gochoreo.Postgres.Config.Presets.{default_config}

-- Int64 counters as bit patterns.
pub record Metrics : Type 0 where
  pub total_connections : ℕ
  pub active_connections : ℕ
  pub idle_connections : ℕ
  pub queries_executed : ℕ
  pub query_errors : ℕ
  pub transactions_started : ℕ
  pub transactions_committed : ℕ
  pub transactions_rolled_back : ℕ
  pub average_query_time : ℕ

abbrev pub no_metrics : Metrics
no_metrics = record {
  total_connections = 0;
  active_connections = 0;
  idle_connections = 0;
  queries_executed = 0;
  query_errors = 0;
  transactions_started = 0;
  transactions_committed = 0;
  transactions_rolled_back = 0;
  average_query_time = 0;
}

-- The client; of the pool, how often it was closed.
pub record Client : Type 0 where
  pub metrics : Metrics
  pub closed : Bool
  pub cancelled : Bool
  -- the ticker of the health monitoring: none, running or stopped
  pub monitoring : Option Bool
  pub pool_closes : ℕ

unfoldable pub update_query_metrics : ℕ → Option PgError → Metrics → Metrics
update_query_metrics duration err m = record m {
  queries_executed = add64 m.queries_executed 1;
  query_errors = if is_some err then add64 m.query_errors 1 else m.query_errors;
  average_query_time =
      if m.average_query_time == 0 then duration else div64 (add64 m.average_query_time duration) 2;
}

abbrev pub with_metrics : Metrics → Client → Client
with_metrics m c = record c { metrics = m }

-- The answer of pgx to a query, and the durations that the code measures after it.
pub record Answer : Type 0 where
  pub err : Option PgError
  -- in the branch of an error
  pub took : ℕ
  -- in the deferred call
  pub took_in_all : ℕ

-- The part that Execute and Query share, after the tests: the branch of an error, then the
-- deferred call, which reports no error.
abbrev pub measure : Answer → Client → Client
measure a c =
    let m : Metrics = elim a.err [
      | none ↦ c.metrics
      | some e ↦ update_query_metrics a.took (some e) c.metrics
    ] in
    with_metrics (update_query_metrics a.took_in_all none m) c

-- Execute; its tag is what pgx gives.
unfoldable pub execute : Text → Answer → Client → Option PgError × Client
execute query a c =
    if is_empty query
    then (some invalid_query, c)
    else if c.closed
    then (some connection_pool_closed, c)
    else (
      elim a.err [ none ↦ none | some e ↦ some (wrapping (codes "execute failed: ") e) ],
      measure a c,
    )

-- Query; its rows are what pgx gives.
unfoldable pub query : Text → Answer → Client → Option PgError × Client
query text a c =
    if is_empty text
    then (some invalid_query, c)
    else if c.closed
    then (some connection_pool_closed, c)
    else (
      elim a.err [ none ↦ none | some e ↦ some (wrapping (codes "query failed: ") e) ],
      measure a c,
    )

-- QueryRow: the query that pgx is asked, and the client.
unfoldable pub query_row : Text → ℕ → Client → Text × Client
query_row text took_in_all c =
    if is_empty text
    then (codes "SELECT NULL WHERE FALSE", c)
    else if c.closed
    then (codes "SELECT NULL WHERE FALSE", c)
    else (text, with_metrics (update_query_metrics took_in_all none c.metrics) c)

unfoldable pub ping : Option PgError → Client → Option PgError
ping answer c = if c.closed then some connection_pool_closed else answer

-- What pgx answers during a health check: the ping, the pool's size, and SELECT 1.
pub record HealthAnswers : Type 0 where
  pub ping_err : Option PgError
  pub total_conns : ℕ
  pub query_err : Option PgError
  pub result : ℤ

unfoldable pub health : HealthAnswers → Client → Option PgError
health a c = if c.closed then some connection_pool_closed else elim a.ping_err [
  | some e ↦ some (wrapping (codes "ping failed: ") e)
  | none ↦ if a.total_conns == 0 then some database_unavailable else elim a.query_err [
    | some e ↦ some (wrapping (codes "health check query failed: ") e)
    | none ↦ if not (eqb_ℤ a.result (pos 1)) then some health_check_failed else none
  ]
]

unfoldable pub close : Client → Client
close c = if c.closed then c else record c {
  closed = true;
  cancelled = true;
  monitoring = elim c.monitoring [ none ↦ none | some running ↦ some false ];
  pool_closes = c.pool_closes + 1;
}

module _ {l : Libraries} where
  abbrev pub new_with : Config l → Client
  new_with config = record {
    metrics = no_metrics;
    closed = false;
    cancelled = false;
    monitoring = if config.enable_health_check then some true else none;
    pool_closes = 0;
  }

  -- New; the errors are those of pgxpool.ParseConfig and of pgxpool.NewWithConfig.
  unfoldable pub new : Option (Config l) → Option PgError → Option PgError → PgError ⊎ Client
  new config parse_err pool_err =
      let config' : Config l = elim config [ none ↦ default_config | some given ↦ given ] in
      elim (validate config') [
        | some e ↦ inl (wrapping (codes "invalid configuration: ") e)
        | none ↦ elim parse_err [
          | some e ↦ inl (wrapping (codes "failed to create pool config: ") e)
          | none ↦ elim pool_err [
            | some e ↦ inl (wrapping (codes "failed to create connection pool: ") e)
            | none ↦ inr (new_with config')
          ]
        ]
      ]
