-- ===== src/Postgres/Tests.antt =====
-- The theorems on the PostgreSQL client at concrete inputs.
use gochoreo.Common.{
  ℕ, ◌+◌, ◌≡◌, refl, ◌≢◌, ◌⊎◌, true, false, Option, none, some, List, [], ◌∷◌, ◌++◌, arith,
}
use gochoreo.Common.Int.{ℤ, pos}
use gochoreo.Text.{Text, codes}
use gochoreo.Text.Decimal.{format_ℕ}
use gochoreo.Postgres.Errors.{PgError, driver, connection_pool_closed}
use gochoreo.Postgres.Config.{Libraries, Config}
use gochoreo.Postgres.Config.Presets.{default_config}
use gochoreo.Postgres.Config.Connection.{
  to_connection_string, other_settings, to_connection_string-port,
}
use gochoreo.Postgres.Client.{
  Client, no_metrics, Answer, HealthAnswers, close, ping, health, execute, query,
}
use gochoreo.Postgres.Client.Queries.{Call, run_calls, run_calls-counts}
use gochoreo.Postgres.Client.Transactions.{
  Steps, default_level, returned, panicked, run_in_transaction, Ended, rolled_back,
  run_in_transaction_lem,
}
use gochoreo.Postgres.Client.Balance.{Job}
use gochoreo.Postgres.Client.Closed.{close_lem}

-- Numbers stand for the values of the libraries.
abbrev numbers : Libraries
numbers = record { Tls = ℕ; Float = ℕ; ExecMode = ℕ; decimal = λ n d. n; exec_mode_exec = 0 }

abbrev whole_seconds : ℤ → ℤ
whole_seconds d = pos 30

abbrev local : Config numbers
local = record default_config { host = codes "localhost"; port = pos 5432; database_url = [] }

host_given : codes "localhost" ≢ []
host_given e = cc

to_connection_string-port_example :
    (t : Text) × (to_connection_string whole_seconds local
      ≡ codes "host="
        ++ (codes "localhost"
            ++ (codes " port=" ++ (t ++ (codes " " ++ other_settings whole_seconds local)))))
    × (t ≢ format_ℕ 5432)
to_connection_string-port_example =
    to_connection_string-port numbers whole_seconds local 5431 refl host_given refl (omega arith)

abbrev client : Client
client = record {
  metrics = no_metrics;
  closed = false;
  cancelled = false;
  monitoring = none;
  pool_closes = 0;
}

abbrev calls : List Call
calls =
    record {
      is_execute = true;
      text = codes "SELECT 1";
      answer = record { err = none; took = 0; took_in_all = 4 };
    }
    ∷ record {
      is_execute = false;
      text = codes "SELEC 1";
      answer = record { err = some (driver (codes "syntax error")); took = 3; took_in_all = 4 };
    }
    ∷ []

run_calls-counts_example :
    ((run_calls calls client).metrics.queries_executed ≡ 0 + (2 + 1))
    × ((run_calls calls client).metrics.query_errors ≡ 0 + 1)
run_calls-counts_example =
    run_calls-counts calls client ((λ e. cc), ((λ e. cc), tt)) refl (omega arith) (omega arith)

-- A database that counts its steps, and a function that panics.
abbrev steps : Steps ℕ
steps = record {
  begin_step = λ level n. (none, n + 1);
  commit_step = λ n. (none, n + 10);
  rollback_step = λ n. (none, n + 100);
  fn_step = λ c n. (panicked, c, n + 1000);
}

-- The same with a function that rolls back itself and returns an error.
abbrev own_rollback : Steps ℕ
own_rollback = record steps {
  fn_step = λ c n. (returned (some (driver (codes "no stock"))), rolled_back c, n + 100);
}

run_in_transaction_lem_example :
    let r = run_in_transaction steps default_level client 0 in
    ((client.closed ≡ true)
      × ((err : PgError) × (r.0 ≡ returned (some err)))
      × (r.1 ≡ client)
      × (r.2 ≡ 0))
    ⊎ ((client.closed ≡ false)
        × (false ≡ true)
        × ((err : PgError) × (r.0 ≡ returned (some err)))
        × (r.1 ≡ client)
        × (r.2 ≡ 1))
    ⊎ ((client.closed ≡ false) × (◌≡◌ {A = Option PgError} none none) × Ended steps panicked 1001 r)
run_in_transaction_lem_example = run_in_transaction_lem steps default_level client 0

abbrev jobs : List (Job ℕ)
jobs =
    record { level = default_level; steps = steps; own_ends = 0 }
    ∷ record { level = default_level; steps = own_rollback; own_ends = 1 }
    ∷ []

abbrev well : HealthAnswers
well = record { ping_err = none; total_conns = 1; query_err = none; result = pos 1 }

abbrev fine : Answer
fine = record { err = none; took = 0; took_in_all = 4 }

close_lem_example :
    (close (close client) ≡ close client)
    × (ping none (close client) ≡ some connection_pool_closed)
    × (health well (close client) ≡ some connection_pool_closed)
    × (execute (codes "SELECT 1") fine (close client) ≡ (some connection_pool_closed, close client))
    × (query (codes "SELECT 1") fine (close client) ≡ (some connection_pool_closed, close client))
    × (run_in_transaction steps default_level (close client) 0
        ≡ (returned (some connection_pool_closed), close client, 0))
    × ((close client).pool_closes ≡ 1)
close_lem_example =
    close_lem client none well (codes "SELECT 1") fine steps default_level 0 (λ e. cc)
