-- ===== src/Postgres/Errors.antt =====
-- pkg/postgres/errors.go, and the errors that the client makes of others.
use gochoreo.Text.{Text}

-- The errors of the package that its code returns.
pub data PgError : Type 0 where
  invalid_host invalid_port invalid_database invalid_user : PgError
  invalid_max_connections invalid_min_connections invalid_connection_range invalid_connect_timeout :
      PgError
  connection_pool_closed invalid_query health_check_failed database_unavailable : PgError
  -- an error of pgx, by its text
  driver : Text → PgError
  -- fmt.Errorf: the text before %w
  wrapping : Text → PgError → PgError
  -- "transaction error: %w, rollback error: %v"
  transaction_error : PgError → PgError → PgError
