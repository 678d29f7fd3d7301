-- ===== src/Postgres/Config/Valid.antt =====
-- What Validate of pkg/postgres/config.go accepts.
use gochoreo.Common.{
  ◌≡◌, refl, ◌≢◌, ◌↔◌, ◌⊎◌, inl, inr, Bool, false, not, ◌&&◌, ◌||◌, none, [], arith, is_empty,
  is_empty-false, Bool-cases,
}
use gochoreo.Common.Int.{ℤ, pos, ◌<ℤ◌, ◌≤ℤ◌, ltb_ℤ, not_ltb_ℤ_iff, positive_iff}
use gochoreo.Common.Guards.{first_error, first_error-none}
use gochoreo.Text.{Text}
use gochoreo.Postgres.Config.{
  Libraries, Config, guards, validate, with_pool, with_timeouts, with_ssl, with_logging,
}
use gochoreo.Postgres.Config.Presets.{
  default_config, development_config, production_config, test_config,
}

module _ {l : Libraries} where
  -- The single fields name a database.
  pub record NamesDatabase (c : Config l) : Type 0 where
    pub host : c.host ≢ []
    pub port_low : pos 0 <ℤ c.port
    pub port_high : c.port ≤ℤ pos 65535
    pub database : c.database ≢ []
    pub user : c.user ≢ []

  pub record IsValid (c : Config l) : Type 0 where
    pub where_to : (c.database_url ≢ []) ⊎ NamesDatabase c
    pub max_connections : pos 0 <ℤ c.max_connections
    pub min_connections : pos 0 ≤ℤ c.min_connections
    pub range : c.min_connections ≤ℤ c.max_connections
    pub connect_timeout : pos 0 ≤ℤ c.connect_timeout

both_false : (a b : Bool) → b ≡ false → (a && b) ≡ false
both_false a b h = ground arith

port_test :
    (p : ℤ)
    → ((not (ltb_ℤ (pos 0) p) || ltb_ℤ (pos 65535) p) ≡ false) ↔ ((pos 0 <ℤ p) × (p ≤ℤ pos 65535))
port_test p = ground (arith, positive_iff p, not_ltb_ℤ_iff (pos 65535) p)

module _ {l : Libraries} where
  abbrev Unnamed : Config l → Type 0
  Unnamed c =
      ((is_empty c.database_url && is_empty c.host) ≡ false)
      × ((is_empty c.database_url && (not (ltb_ℤ (pos 0) c.port) || ltb_ℤ (pos 65535) c.port))
          ≡ false)
      × ((is_empty c.database_url && is_empty c.database) ≡ false)
      × ((is_empty c.database_url && is_empty c.user) ≡ false)

  where_to_iff : (c : Config l) → Unnamed c ↔ ((c.database_url ≢ []) ⊎ NamesDatabase c)
  where_to_iff c = (
    λ h. elim (Bool-cases (is_empty c.database_url)) [
      | inr url ↦ inl ((is_empty-false c.database_url).0 url)
      | inl fields ↦
          let (host, port, database, user) = h in
          let (low, high) = (port_test c.port).0 (rw fields at port) in
          inr (record {
            host = (is_empty-false c.host).0 (rw fields at host);
            port_low = low;
            port_high = high;
            database = (is_empty-false c.database).0 (rw fields at database);
            user = (is_empty-false c.user).0 (rw fields at user);
          })
    ],
    λ h. elim h [
      | inl url ↦
          let given = (is_empty-false c.database_url).1 url in rw given (refl, refl, refl, refl)
      | inr named ↦ (
        both_false (is_empty c.database_url) _ ((is_empty-false c.host).1 named.host),
        both_false (is_empty c.database_url) _
            ((port_test c.port).1 (named.port_low, named.port_high)),
        both_false (is_empty c.database_url) _ ((is_empty-false c.database).1 named.database),
        both_false (is_empty c.database_url) _ ((is_empty-false c.user).1 named.user),
      )
    ],
  )

  -- Validate accepts exactly the configurations that have a URL or name a host, a port from 1 to
  -- 65535, a database and a user, and whose pool is not empty, with a minimum from 0 to its
  -- maximum, and whose timeout for connecting is not negative.
  pub validate-none_iff : (c : Config l) → (validate c ≡ none) ↔ IsValid c
  unfolding validate
  validate-none_iff c = (
    λ e.
        let (host, (port, (database, (user, (x, (n, (r, (t, _)))))))) =
          (first_error-none (guards c)).0 e in
        record {
          where_to = (where_to_iff c).0 (host, port, database, user);
          max_connections = (positive_iff c.max_connections).0 x;
          min_connections = (not_ltb_ℤ_iff c.min_connections (pos 0)).0 n;
          range = (not_ltb_ℤ_iff c.max_connections c.min_connections).0 r;
          connect_timeout = (not_ltb_ℤ_iff c.connect_timeout (pos 0)).0 t;
        },
    λ v.
        let (host, port, database, user) = (where_to_iff c).1 v.where_to in
        (first_error-none (guards c)).1 (
          host,
          (
            port,
            (
              database,
              (
                user,
                (
                  (positive_iff c.max_connections).1 v.max_connections,
                  (
                    (not_ltb_ℤ_iff c.min_connections (pos 0)).1 v.min_connections,
                    (
                      (not_ltb_ℤ_iff c.max_connections c.min_connections).1 v.range,
                      ((not_ltb_ℤ_iff c.connect_timeout (pos 0)).1 v.connect_timeout, tt),
                    ),
                  ),
                ),
              ),
            ),
          ),
        ),
  )

-- Every configuration that the package offers is valid, also with other settings for SSL and
-- logging, and with a pool and a timeout for connecting that are within their bounds.
pub presets-IsValid :
    (l : Libraries) (most least life idle connect statement in_transaction slow : ℤ)
    (mode cert key ca level : Text) (queries : Bool)
    → pos 0 <ℤ most
    → pos 0 ≤ℤ least
    → least ≤ℤ most
    → pos 0 ≤ℤ connect
    → (let adjusted : Config l → Config l = λ c. with_logging level queries slow (
          with_timeouts connect statement in_transaction
            (with_pool most least life idle (with_ssl mode cert key ca c))) in
        (validate (default_config {l = l}) ≡ none)
        × (validate (development_config {l = l}) ≡ none)
        × (validate (production_config {l = l}) ≡ none)
        × (validate (test_config {l = l}) ≡ none)
        × (validate (adjusted default_config) ≡ none)
        × (validate (adjusted development_config) ≡ none)
        × (validate (adjusted production_config) ≡ none)
        × (validate (adjusted test_config) ≡ none))
unfolding validate first_error default_config development_config production_config test_config
    with_ssl with_pool with_timeouts with_logging
presets-IsValid l most least life idle connect statement in_transaction slow mode cert key ca level
      queries p q r t =
    let a = (positive_iff most).1 p in
    let b = (not_ltb_ℤ_iff least (pos 0)).1 q in
    let c = (not_ltb_ℤ_iff most least).1 r in
    let d = (not_ltb_ℤ_iff connect (pos 0)).1 t in
    (
      refl,
      refl,
      refl,
      refl,
      rw (a, b, c, d) refl,
      rw (a, b, c, d) refl,
      rw (a, b, c, d) refl,
      rw (a, b, c, d) refl,
    )
