-- ===== src/Dragonfly/Client/Options.antt =====
-- createRedisClient (pkg/dragonfly/client.go): the options that it hands to go-redis. `T` is
-- crypto/tls.Config, and `skip_verify` makes the one with InsecureSkipVerify only.
use gochoreo.Common.{Bool, Option, none, some, List, if◌then◌else◌}
use gochoreo.Common.Int.{ℤ}
use gochoreo.Text.{Text}
use gochoreo.Dragonfly.Config.{Config}

pub record UniversalOptions (T : Type 0) : Type 0 where
  pub addrs : List Text
  pub username : Text
  pub password : Text
  pub db : ℤ
  pub pool_size : ℤ
  pub min_idle_conns : ℤ
  pub conn_max_lifetime : ℤ
  pub conn_max_idle_time : ℤ
  pub dial_timeout : ℤ
  pub read_timeout : ℤ
  pub write_timeout : ℤ
  pub max_retries : ℤ
  pub min_retry_backoff : ℤ
  pub max_retry_backoff : ℤ
  pub protocol : ℤ
  pub client_name : Text
  pub tls_config : Option T

pub record ClusterOptions (T : Type 0) : Type 0 where
  pub addrs : List Text
  pub username : Text
  pub password : Text
  pub pool_size : ℤ
  pub min_idle_conns : ℤ
  pub conn_max_lifetime : ℤ
  pub conn_max_idle_time : ℤ
  pub dial_timeout : ℤ
  pub read_timeout : ℤ
  pub write_timeout : ℤ
  pub max_retries : ℤ
  pub min_retry_backoff : ℤ
  pub max_retry_backoff : ℤ
  pub tls_config : Option T
  pub client_name : Text
  pub read_only : Bool
  pub route_by_latency : Bool
  pub route_randomly : Bool

pub data RedisOptions (T : Type 0) : Type 0 where
  universal : UniversalOptions T → RedisOptions T
  cluster : ClusterOptions T → RedisOptions T

module _ {T : Type 0} (skip_verify : Bool → T) where
  abbrev pub tls_options : Config T → Option T
  tls_options c =
      if c.tls_enabled
      then elim c.tls_config [ none ↦ some (skip_verify c.tls_skip_verify) | some tls ↦ some tls ]
      else none

  abbrev pub universal_options : Config T → UniversalOptions T
  universal_options c = record {
    addrs = c.addresses;
    username = c.username;
    password = c.password;
    db = c.db;
    pool_size = c.pool_size;
    min_idle_conns = c.min_idle_conns;
    conn_max_lifetime = c.conn_max_lifetime;
    conn_max_idle_time = c.conn_max_idle_time;
    dial_timeout = c.dial_timeout;
    read_timeout = c.read_timeout;
    write_timeout = c.write_timeout;
    max_retries = c.max_retries;
    min_retry_backoff = c.min_retry_backoff;
    max_retry_backoff = c.max_retry_backoff;
    protocol = c.protocol_version;
    client_name = c.client_name;
    tls_config = tls_options c;
  }

  abbrev pub cluster_options : Config T → UniversalOptions T → ClusterOptions T
  cluster_options c opts = record {
    addrs = opts.addrs;
    username = opts.username;
    password = opts.password;
    pool_size = opts.pool_size;
    min_idle_conns = opts.min_idle_conns;
    conn_max_lifetime = opts.conn_max_lifetime;
    conn_max_idle_time = opts.conn_max_idle_time;
    dial_timeout = opts.dial_timeout;
    read_timeout = opts.read_timeout;
    write_timeout = opts.write_timeout;
    max_retries = opts.max_retries;
    min_retry_backoff = opts.min_retry_backoff;
    max_retry_backoff = opts.max_retry_backoff;
    tls_config = opts.tls_config;
    client_name = opts.client_name;
    read_only = c.read_only;
    route_by_latency = c.route_by_latency;
    route_randomly = c.route_randomly;
  }

  unfoldable pub options_of : Config T → RedisOptions T
  options_of c =
      let opts = universal_options c in
      if c.cluster_enabled then cluster (cluster_options c opts) else universal opts
