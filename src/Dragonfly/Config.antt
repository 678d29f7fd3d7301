-- ===== src/Dragonfly/Config.antt =====
-- Config and its Validate (pkg/dragonfly/config.go). A duration is its number of nanoseconds; a nil
-- slice or map is empty. `T` is crypto/tls.Config, which the code only stores.
pub mod Presets
pub mod Valid
use gochoreo.Common.{
  ℕ, Bool, true, false, not, ◌&&◌, ◌||◌, Option, none, some, List, [], ◌∷◌, Map, is_empty,
}
use gochoreo.Common.Int.{ℤ, pos, negsuc, ltb_ℤ, eqb_ℤ}
use gochoreo.Common.Guards.{first_error}
use gochoreo.Text.{Text, codes}
use gochoreo.Dragonfly.Errors.{Err, invalid_config, by_value}

pub record Config (T : Type 0) : Type 0 where
  pub addresses : List Text
  pub username : Text
  pub password : Text
  pub db : ℤ
  pub pool_size : ℤ
  pub min_idle_conns : ℤ
  pub max_idle_conns : ℤ
  pub conn_max_lifetime : ℤ
  pub conn_max_idle_time : ℤ
  pub dial_timeout : ℤ
  pub read_timeout : ℤ
  pub write_timeout : ℤ
  pub max_retries : ℤ
  pub min_retry_backoff : ℤ
  pub max_retry_backoff : ℤ
  pub tls_enabled : Bool
  pub tls_config : Option T
  pub tls_skip_verify : Bool
  pub cluster_enabled : Bool
  pub cluster_slots : List Text
  pub read_only : Bool
  pub route_by_latency : Bool
  pub route_randomly : Bool
  pub disable_indentity : Bool
  pub protocol_version : ℤ
  pub pipeline : Bool
  pub pipeline_size : ℤ
  pub disable_cluster_check : Bool
  pub network_buffer_size : ℤ
  pub enable_keep_alive : Bool
  pub keep_alive_interval : ℤ
  pub enable_metrics : Bool
  pub metrics_prefix : Text
  pub enable_health_check : Bool
  pub health_check_interval : ℤ
  pub client_name : Text
  pub context_timeout : ℤ
  pub custom_commands : Map Text Text
  pub init_commands : List Text
  pub debug : Bool
  pub slow_log_threshold : ℤ

-- `return ErrInvalidConfig{…}`
abbrev pub invalid : Text → Text → Err
invalid field reason = invalid_config by_value field reason

module _ {T : Type 0} where
  abbrev pub guards : Config T → List (Bool × Err)
  guards c =
      (is_empty c.addresses, invalid (codes "addresses") (codes "at least one address is required"))
      ∷ (
        not (ltb_ℤ (pos 0) c.pool_size),
        invalid (codes "pool_size") (codes "must be greater than 0"),
      )
      ∷ (
        ltb_ℤ c.min_idle_conns (pos 0),
        invalid (codes "min_idle_conns") (codes "must be non-negative"),
      )
      ∷ (
        ltb_ℤ c.max_idle_conns c.min_idle_conns,
        invalid (codes "max_idle_conns") (codes "must be greater than or equal to min_idle_conns"),
      )
      ∷ (
        not (ltb_ℤ (pos 0) c.dial_timeout),
        invalid (codes "dial_timeout") (codes "must be greater than 0"),
      )
      ∷ (
        ltb_ℤ c.read_timeout (pos 0),
        invalid (codes "read_timeout") (codes "must be non-negative"),
      )
      ∷ (
        ltb_ℤ c.write_timeout (pos 0),
        invalid (codes "write_timeout") (codes "must be non-negative"),
      )
      ∷ (ltb_ℤ c.max_retries (pos 0), invalid (codes "max_retries") (codes "must be non-negative"))
      ∷ (
        not (eqb_ℤ c.protocol_version (pos 2)) && not (eqb_ℤ c.protocol_version (pos 3)),
        invalid (codes "protocol_version") (codes "must be 2 or 3"),
      )
      ∷ (
        not (ltb_ℤ (pos 0) c.pipeline_size),
        invalid (codes "pipeline_size") (codes "must be greater than 0"),
      )
      ∷ (
        not (ltb_ℤ (pos 0) c.network_buffer_size),
        invalid (codes "network_buffer_size") (codes "must be greater than 0"),
      )
      ∷ []

  unfoldable pub validate : Config T → Option Err
  validate c = first_error (guards c)
