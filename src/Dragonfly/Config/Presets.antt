-- ===== src/Dragonfly/Config/Presets.antt =====
-- The configurations that pkg/dragonfly/config.go offers.
use gochoreo.Common.{ℕ, ◌*◌, true, false, none, List, [], ◌∷◌, length}
use gochoreo.Common.Int.{ℤ, pos}
use gochoreo.Common.Word.{signed64}
use gochoreo.Text.{Text, codes}
use gochoreo.Common.Durations.{milliseconds, seconds, minutes, hours}
use gochoreo.Dragonfly.Config.{Config}

-- The product of two ints.
abbrev pub product_int : ℕ → ℕ → ℤ
product_int a b = signed64 (a * b)

module _ {T : Type 0} where
  unfoldable pub default_config : Config T
  default_config = record {
    addresses = codes "localhost:6379" ∷ [];
    username = [];
    password = [];
    db = pos 0;
    pool_size = pos 50;
    min_idle_conns = pos 10;
    max_idle_conns = pos 25;
    conn_max_lifetime = hours 2;
    conn_max_idle_time = minutes 30;
    dial_timeout = seconds 2;
    read_timeout = seconds 1;
    write_timeout = seconds 1;
    max_retries = pos 3;
    min_retry_backoff = milliseconds 8;
    max_retry_backoff = milliseconds 512;
    tls_enabled = false;
    tls_config = none;
    tls_skip_verify = false;
    cluster_enabled = false;
    cluster_slots = [];
    read_only = false;
    route_by_latency = true;
    route_randomly = false;
    disable_indentity = false;
    protocol_version = pos 3;
    pipeline = true;
    pipeline_size = pos 100;
    disable_cluster_check = false;
    network_buffer_size = pos (64 * 1024);
    enable_keep_alive = true;
    keep_alive_interval = seconds 30;
    enable_metrics = true;
    metrics_prefix = codes "dragonfly_";
    enable_health_check = true;
    health_check_interval = seconds 30;
    client_name = codes "gochoreo-gateway";
    context_timeout = seconds 10;
    custom_commands = [];
    init_commands = [];
    debug = false;
    slow_log_threshold = milliseconds 100;
  }

  unfoldable pub production_config : Config T
  production_config = record default_config {
    pool_size = pos 100;
    min_idle_conns = pos 20;
    max_idle_conns = pos 50;
    dial_timeout = seconds 5;
    read_timeout = seconds 2;
    write_timeout = seconds 2;
    max_retries = pos 5;
    max_retry_backoff = seconds 2;
    enable_metrics = true;
    enable_health_check = true;
    health_check_interval = seconds 15;
    network_buffer_size = pos (128 * 1024);
    debug = false;
    slow_log_threshold = milliseconds 50;
  }

  unfoldable pub development_config : Config T
  development_config = record default_config {
    pool_size = pos 10;
    min_idle_conns = pos 2;
    max_idle_conns = pos 5;
    debug = true;
    slow_log_threshold = milliseconds 10;
    dial_timeout = seconds 1;
    health_check_interval = seconds 10;
  }

  unfoldable pub cluster_config : List Text → Config T
  cluster_config addresses = record production_config {
    addresses = addresses;
    cluster_enabled = true;
    route_by_latency = true;
    route_randomly = false;
    pool_size = product_int 20 (length addresses);
    max_retries = product_int 2 (length addresses);
    disable_cluster_check = false;
  }

  unfoldable pub high_throughput_config : Config T
  high_throughput_config = record production_config {
    pool_size = pos 200;
    min_idle_conns = pos 50;
    max_idle_conns = pos 100;
    pipeline = true;
    pipeline_size = pos 500;
    network_buffer_size = pos (256 * 1024);
    read_timeout = milliseconds 500;
    write_timeout = milliseconds 500;
  }

  unfoldable pub low_latency_config : Config T
  low_latency_config = record default_config {
    pool_size = pos 20;
    min_idle_conns = pos 15;
    max_idle_conns = pos 20;
    dial_timeout = milliseconds 500;
    read_timeout = milliseconds 200;
    write_timeout = milliseconds 200;
    pipeline = false;
    network_buffer_size = pos (16 * 1024);
    health_check_interval = seconds 5;
  }
