-- ===== src/Dragonfly/Config/Valid.antt =====
-- What Validate of pkg/dragonfly/config.go accepts.
use gochoreo.Common.{
  ◌<◌, ◌≡◌, refl, ◌≢◌, ◌↔◌, ◌⊎◌, false, not, ◌&&◌, none, List, [], ◌∷◌, length, arith,
  is_empty-false,
}
use gochoreo.Common.Int.{ℤ, pos, ◌<ℤ◌, eqb_ℤ, eqb_ℤ_iff, not_ltb_ℤ_iff, positive_iff, ◌≤ℤ◌}
use gochoreo.Common.Guards.{first_error, first_error-none}
use gochoreo.Text.{Text}
use gochoreo.Dragonfly.Config.{Config, guards, validate}
use gochoreo.Dragonfly.Config.Presets.{
  default_config, production_config, development_config, cluster_config, high_throughput_config,
  low_latency_config,
}

two_or_three :
    (v : ℤ)
    → ((not (eqb_ℤ v (pos 2)) && not (eqb_ℤ v (pos 3))) ≡ false) ↔ ((v ≡ pos 2) ⊎ (v ≡ pos 3))
two_or_three v = ground (arith, eqb_ℤ_iff v (pos 2), eqb_ℤ_iff v (pos 3))

module _ {T : Type 0} where
  pub record IsValid (c : Config T) : Type 0 where
    pub addresses : c.addresses ≢ []
    pub pool_size : pos 0 <ℤ c.pool_size
    pub min_idle_conns : pos 0 ≤ℤ c.min_idle_conns
    pub max_idle_conns : c.min_idle_conns ≤ℤ c.max_idle_conns
    pub dial_timeout : pos 0 <ℤ c.dial_timeout
    pub read_timeout : pos 0 ≤ℤ c.read_timeout
    pub write_timeout : pos 0 ≤ℤ c.write_timeout
    pub max_retries : pos 0 ≤ℤ c.max_retries
    pub protocol_version : (c.protocol_version ≡ pos 2) ⊎ (c.protocol_version ≡ pos 3)
    pub pipeline_size : pos 0 <ℤ c.pipeline_size
    pub network_buffer_size : pos 0 <ℤ c.network_buffer_size

  -- Validate accepts exactly the configurations with an address, positive pool, pipeline and buffer
  -- sizes and dial timeout, other timeouts, retries and idle connections that are not negative, a
  -- maximum of idle connections that is not below the minimum, and protocol version 2 or 3.
  pub validate_iff : (c : Config T) → (validate c ≡ none) ↔ IsValid c
  unfolding validate
  validate_iff c = (
    λ e.
        let (a, (p, (i, (x, (d, (r, (w, (m, (v, (l, (b, _))))))))))) =
          (first_error-none (guards c)).0 e in
        record {
          addresses = (is_empty-false c.addresses).0 a;
          pool_size = (positive_iff c.pool_size).0 p;
          min_idle_conns = (not_ltb_ℤ_iff c.min_idle_conns (pos 0)).0 i;
          max_idle_conns = (not_ltb_ℤ_iff c.max_idle_conns c.min_idle_conns).0 x;
          dial_timeout = (positive_iff c.dial_timeout).0 d;
          read_timeout = (not_ltb_ℤ_iff c.read_timeout (pos 0)).0 r;
          write_timeout = (not_ltb_ℤ_iff c.write_timeout (pos 0)).0 w;
          max_retries = (not_ltb_ℤ_iff c.max_retries (pos 0)).0 m;
          protocol_version = (two_or_three c.protocol_version).0 v;
          pipeline_size = (positive_iff c.pipeline_size).0 l;
          network_buffer_size = (positive_iff c.network_buffer_size).0 b;
        },
    λ h. (first_error-none (guards c)).1 (
      (is_empty-false c.addresses).1 h.addresses,
      (
        (positive_iff c.pool_size).1 h.pool_size,
        (
          (not_ltb_ℤ_iff c.min_idle_conns (pos 0)).1 h.min_idle_conns,
          (
            (not_ltb_ℤ_iff c.max_idle_conns c.min_idle_conns).1 h.max_idle_conns,
            (
              (positive_iff c.dial_timeout).1 h.dial_timeout,
              (
                (not_ltb_ℤ_iff c.read_timeout (pos 0)).1 h.read_timeout,
                (
                  (not_ltb_ℤ_iff c.write_timeout (pos 0)).1 h.write_timeout,
                  (
                    (not_ltb_ℤ_iff c.max_retries (pos 0)).1 h.max_retries,
                    (
                      (two_or_three c.protocol_version).1 h.protocol_version,
                      (
                        (positive_iff c.pipeline_size).1 h.pipeline_size,
                        ((positive_iff c.network_buffer_size).1 h.network_buffer_size, tt),
                      ),
                    ),
                  ),
                ),
              ),
            ),
          ),
        ),
      ),
    ),
  )

-- Every configuration that the package offers is valid, that for a cluster if it gets an address
-- and the products fit an int (fewer than 2 ^ 58 addresses).
pub presets-IsValid :
    (T : Type 0) (addresses : List Text)
    → addresses ≢ []
    → length addresses < 288230376151711744
    → (validate (default_config {T = T}) ≡ none)
      × (validate (production_config {T = T}) ≡ none)
      × (validate (development_config {T = T}) ≡ none)
      × (validate (high_throughput_config {T = T}) ≡ none)
      × (validate (low_latency_config {T = T}) ≡ none)
      × (validate (cluster_config {T = T} addresses) ≡ none)
unfolding validate first_error default_config production_config development_config
    high_throughput_config low_latency_config cluster_config
presets-IsValid T [] some_address h = absurd (some_address refl)
presets-IsValid T (a ∷ addresses) some_address h = (refl, refl, refl, refl, refl, ground arith)
