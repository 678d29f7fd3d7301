-- ===== src/Postgres/Config/Presets.antt =====
-- The configurations that pkg/postgres/config.go offers.
use gochoreo.Common.{true, false, none, []}
use gochoreo.Common.Int.{pos}
use gochoreo.Common.Durations.{milliseconds, seconds, minutes, hours}
use gochoreo.Text.{codes}
use gochoreo.Postgres.Config.{
  Libraries, Config, ssl_mode_prefer, ssl_mode_require, log_level_warn, log_level_error,
  log_level_debug, isolation_level_read_committed,
}

module _ {l : Libraries} where
  unfoldable pub default_config : Config l
  default_config = record {
    host = codes "localhost";
    port = pos 5432;
    database = codes "postgres";
    user = codes "postgres";
    password = [];
    database_url = [];
    ssl_mode = ssl_mode_prefer;
    ssl_cert = [];
    ssl_key = [];
    ssl_root_cert = [];
    ssl_password = [];
    ssl_server_name = [];
    ssl_inline_data = false;
    max_connections = pos 30;
    min_connections = pos 2;
    max_connection_lifetime = hours 1;
    max_connection_idle_time = minutes 30;
    health_check_period = minutes 1;
    connect_timeout = seconds 30;
    socket_timeout = seconds 30;
    application_name = codes "gochoreo-postgres-client";
    search_path = codes "public";
    timezone = codes "UTC";
    default_isolation_level = isolation_level_read_committed;
    default_lock_timeout = pos 0;
    statement_timeout = pos 0;
    idle_in_transaction_timeout = pos 0;
    log_level = log_level_warn;
    enable_query_logging = false;
    log_slow_queries = false;
    slow_query_threshold = seconds 1;
    log_sample_rate = l.decimal 1 10;
    default_query_exec_mode = l.exec_mode_exec;
    prepared_statement_cache_size = pos 100;
    description_cache_capacity = pos 1000;
    prefer_simple_protocol = false;
    disable_prepared_binary_result = false;
    tls_config = none;
    enable_auto_vacuum = true;
    vacuum_cost_delay = pos 0;
    vacuum_cost_limit = pos 200;
    enable_metrics = true;
    metrics_prefix = codes "postgres";
    enable_health_check = true;
    health_check_interval = seconds 30;
    custom_params = [];
  }

  unfoldable pub development_config : Config l
  development_config = record default_config {
    database = codes "dev_db";
    log_level = log_level_debug;
    enable_query_logging = true;
    log_slow_queries = true;
    slow_query_threshold = milliseconds 100;
    log_sample_rate = l.decimal 10 10;
    max_connections = pos 10;
    min_connections = pos 1;
  }

  unfoldable pub production_config : Config l
  production_config = record default_config {
    ssl_mode = ssl_mode_require;
    log_level = log_level_warn;
    enable_query_logging = false;
    log_slow_queries = true;
    slow_query_threshold = seconds 5;
    log_sample_rate = l.decimal 1 100;
    max_connections = pos 50;
    min_connections = pos 5;
    max_connection_lifetime = hours 2;
    statement_timeout = seconds 30;
    idle_in_transaction_timeout = minutes 10;
    prepared_statement_cache_size = pos 500;
    description_cache_capacity = pos 2000;
  }

  unfoldable pub test_config : Config l
  test_config = record default_config {
    database = codes "test_db";
    max_connections = pos 5;
    min_connections = pos 1;
    log_level = log_level_error;
    enable_query_logging = false;
    enable_health_check = false;
    connect_timeout = seconds 5;
  }
