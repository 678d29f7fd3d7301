-- ===== src/Postgres/Config.antt =====
-- Config, Validate and the With methods (pkg/postgres/config.go). A duration is its number of
-- nanoseconds, a nil map is empty.
pub mod Presets
pub mod Valid
pub mod Connection
use gochoreo.Common.{
  ℕ, Bool, true, false, not, ◌&&◌, ◌||◌, Option, none, some, List, [], ◌∷◌, Map, is_empty,
}
use gochoreo.Common.Int.{ℤ, pos, negsuc, ltb_ℤ}
use gochoreo.Common.Guards.{first_error}
use gochoreo.Text.{Text, codes}
use gochoreo.Postgres.Errors.{
  PgError, invalid_host, invalid_port, invalid_database, invalid_user, invalid_max_connections,
  invalid_min_connections, invalid_connection_range, invalid_connect_timeout,
}

abbrev pub ssl_mode_disable : Text
ssl_mode_disable = codes "disable"

abbrev pub ssl_mode_allow : Text
ssl_mode_allow = codes "allow"

abbrev pub ssl_mode_prefer : Text
ssl_mode_prefer = codes "prefer"

abbrev pub ssl_mode_require : Text
ssl_mode_require = codes "require"

abbrev pub ssl_mode_verify_ca : Text
ssl_mode_verify_ca = codes "verify-ca"

abbrev pub ssl_mode_verify_full : Text
ssl_mode_verify_full = codes "verify-full"

abbrev pub log_level_none : Text
log_level_none = codes "none"

abbrev pub log_level_error : Text
log_level_error = codes "error"

abbrev pub log_level_warn : Text
log_level_warn = codes "warn"

abbrev pub log_level_info : Text
log_level_info = codes "info"

abbrev pub log_level_debug : Text
log_level_debug = codes "debug"

abbrev pub log_level_trace : Text
log_level_trace = codes "trace"

abbrev pub isolation_level_read_uncommitted : Text
isolation_level_read_uncommitted = codes "read_uncommitted"

abbrev pub isolation_level_read_committed : Text
isolation_level_read_committed = codes "read_committed"

abbrev pub isolation_level_repeatable_read : Text
isolation_level_repeatable_read = codes "repeatable_read"

abbrev pub isolation_level_serializable : Text
isolation_level_serializable = codes "serializable"

-- Types of libraries, of which the code stores values: crypto/tls.Config, float64, and
-- pgx.QueryExecMode with its value Exec. `decimal n d` is the literal n / d.
pub record Libraries : Type 1 where
  pub Tls : Type 0
  pub Float : Type 0
  pub ExecMode : Type 0
  pub decimal : ℕ → ℕ → Float
  pub exec_mode_exec : ExecMode

pub record Config (l : Libraries) : Type 0 where
  pub host : Text
  pub port : ℤ
  pub database : Text
  pub user : Text
  pub password : Text
  pub database_url : Text
  pub ssl_mode : Text
  pub ssl_cert : Text
  pub ssl_key : Text
  pub ssl_root_cert : Text
  pub ssl_password : Text
  pub ssl_server_name : Text
  pub ssl_inline_data : Bool
  pub max_connections : ℤ
  pub min_connections : ℤ
  pub max_connection_lifetime : ℤ
  pub max_connection_idle_time : ℤ
  pub health_check_period : ℤ
  pub connect_timeout : ℤ
  pub socket_timeout : ℤ
  pub application_name : Text
  pub search_path : Text
  pub timezone : Text
  pub default_isolation_level : Text
  pub default_lock_timeout : ℤ
  pub statement_timeout : ℤ
  pub idle_in_transaction_timeout : ℤ
  pub log_level : Text
  pub enable_query_logging : Bool
  pub log_slow_queries : Bool
  pub slow_query_threshold : ℤ
  pub log_sample_rate : l.Float
  pub default_query_exec_mode : l.ExecMode
  pub prepared_statement_cache_size : ℤ
  pub description_cache_capacity : ℤ
  pub prefer_simple_protocol : Bool
  pub disable_prepared_binary_result : Bool
  pub tls_config : Option l.Tls
  pub enable_auto_vacuum : Bool
  pub vacuum_cost_delay : ℤ
  pub vacuum_cost_limit : ℤ
  pub enable_metrics : Bool
  pub metrics_prefix : Text
  pub enable_health_check : Bool
  pub health_check_interval : ℤ
  pub custom_params : Map Text Text

module _ {l : Libraries} where
  abbrev pub guards : Config l → List (Bool × PgError)
  guards c =
      let fields = is_empty c.database_url in
      (fields && is_empty c.host, invalid_host)
      ∷ (fields && (not (ltb_ℤ (pos 0) c.port) || ltb_ℤ (pos 65535) c.port), invalid_port)
      ∷ (fields && is_empty c.database, invalid_database)
      ∷ (fields && is_empty c.user, invalid_user)
      ∷ (not (ltb_ℤ (pos 0) c.max_connections), invalid_max_connections)
      ∷ (ltb_ℤ c.min_connections (pos 0), invalid_min_connections)
      ∷ (ltb_ℤ c.max_connections c.min_connections, invalid_connection_range)
      ∷ (ltb_ℤ c.connect_timeout (pos 0), invalid_connect_timeout)
      ∷ []

  unfoldable pub validate : Config l → Option PgError
  validate c = first_error (guards c)

  unfoldable pub with_ssl : Text → Text → Text → Text → Config l → Config l
  with_ssl mode cert_file key_file ca_file c = record c {
    ssl_mode = mode;
    ssl_cert = cert_file;
    ssl_key = key_file;
    ssl_root_cert = ca_file;
  }

  unfoldable pub with_pool : ℤ → ℤ → ℤ → ℤ → Config l → Config l
  with_pool max_connections min_connections max_lifetime max_idle_time c = record c {
    max_connections = max_connections;
    min_connections = min_connections;
    max_connection_lifetime = max_lifetime;
    max_connection_idle_time = max_idle_time;
  }

  unfoldable pub with_timeouts : ℤ → ℤ → ℤ → Config l → Config l
  with_timeouts connect_timeout statement_timeout idle_timeout c = record c {
    connect_timeout = connect_timeout;
    statement_timeout = statement_timeout;
    idle_in_transaction_timeout = idle_timeout;
  }

  unfoldable pub with_logging : Text → Bool → ℤ → Config l → Config l
  with_logging level enable_query slow_threshold c = record c {
    log_level = level;
    enable_query_logging = enable_query;
    log_slow_queries = ltb_ℤ (pos 0) slow_threshold;
    slow_query_threshold = slow_threshold;
  }
