-- ===== src/Manager/Tests.antt =====
-- The theorems on the registry at a concrete component.
use gochoreo.Common.{
  ◌≡◌, refl, ◌↔◌, true, false, none, some, List, [], ◌∷◌, Map, lookup, has, All, is_some,
}
use gochoreo.Common.Int.{pos}
use gochoreo.Text.{Text, codes}
use gochoreo.Text.Equality.{text_key}
use gochoreo.Version.{Version, new_version, default_version, new_version_range, zero_version}
use gochoreo.Value.{nil}
use gochoreo.Errors.{plain}
use gochoreo.Metrics.{new_default_metrics_collector}
use gochoreo.Metrics.Counting.{step_at}
use gochoreo.Manager.{
  Manager, VersionedComponent, VersionedRequest, VersionConstraint, new_manager, register,
  attach_constraints, register_with_constraints, unregister,
}
use gochoreo.Manager.Registry.{
  IsConsistent, registers, registers_with, here, next, Reach-IsConsistent,
}
use gochoreo.Manager.Registration.{unregister-register}
use gochoreo.Manager.Race.{attach_constraints-panics_iff, attach_constraints-after_unregister}
use gochoreo.Manager.Serving.{
  get, is_found, process_versioned, served, errored, process_versioned-counts,
}
use gochoreo.Manager.Constraints.{
  check_compatibility, Satisfies, constraints_of, check_compatibility_iff,
}

-- A component that serves version 1.0.0 and fails on every request.
abbrev auth : VersionedComponent
auth = record {
  name = codes "auth";
  kind = codes "middleware";
  supported_versions = default_version ∷ [];
  is_version_supported = λ v. true;
  get_default_version = default_version;
  process_versioned = λ req input. (none, some (plain (codes "refused")));
  deprecatable = none;
}

abbrev needs_cache : List VersionConstraint
needs_cache =
    record {
      component = codes "cache";
      requires = new_version_range default_version zero_version;
      conflicts = [];
    }
    ∷ []

abbrev start : Manager
start = new_manager (some new_default_metrics_collector)

abbrev with_auth : Manager
with_auth = (register (some auth) (codes "9:00") start).1

abbrev request : VersionedRequest
request = record {
  version = default_version;
  component = codes "auth";
  operation = codes "login";
  request_id = codes "r1";
  timestamp = codes "9:01";
  metadata = [];
}

with_auth-IsConsistent : IsConsistent with_auth
with_auth-IsConsistent =
    Reach-IsConsistent (some new_default_metrics_collector)
      (next here (registers (some auth) (codes "9:00")))

start-IsConsistent : IsConsistent start
start-IsConsistent = Reach-IsConsistent (some new_default_metrics_collector) here

registers_auth : (register (some auth) (codes "9:00") start).0 ≡ none
unfolding register new_manager lookup
registers_auth = refl

Reach-IsConsistent_example :
    IsConsistent (register_with_constraints auth needs_cache (codes "9:00") start).1
Reach-IsConsistent_example =
    Reach-IsConsistent (some new_default_metrics_collector)
      (next here (registers_with auth needs_cache (codes "9:00")))

unregister-register_example :
    let m' = (unregister auth.name with_auth).1 in
    (lookup auth.name m'.components ≡ lookup auth.name start.components)
    × (lookup auth.name m'.component_meta ≡ lookup auth.name start.component_meta)
    × (lookup auth.name m'.constraints ≡ lookup auth.name start.constraints)
unregister-register_example =
    unregister-register auth (codes "9:00") start auth.name start-IsConsistent registers_auth

attach_constraints-panics_iff_example :
    ((attach_constraints auth.name needs_cache start).0 ≡ none)
    ↔ (has auth.name start.components ≡ false)
attach_constraints-panics_iff_example =
    attach_constraints-panics_iff auth.name needs_cache start start-IsConsistent

attach_constraints-after_unregister_example :
    let (done, m') = attach_constraints auth.name needs_cache (unregister auth.name with_auth).1 in
    (done ≡ none)
    × (lookup auth.name m'.constraints ≡ some needs_cache)
    × (lookup auth.name m'.components ≡ none)
    × ¬ IsConsistent m'
attach_constraints-after_unregister_example =
    attach_constraints-after_unregister auth needs_cache (codes "9:00") start registers_auth

process_versioned-counts_example :
    let (result, m') = process_versioned request nil (codes "9:01") with_auth in
    (served (codes "auth") default_version m'
      ≡ step_at
          (is_found (get (codes "auth") default_version (codes "9:01") with_auth).0)
          (served (codes "auth") default_version with_auth))
    × (errored (codes "auth") default_version m'
        ≡ step_at (is_some result.1) (errored (codes "auth") default_version with_auth))
unfolding register new_manager lookup
process_versioned-counts_example =
    process_versioned-counts request nil (codes "9:01") with_auth new_default_metrics_collector refl

abbrev given : Map Text Version
given = (codes "auth", default_version) ∷ (codes "cache", new_version (pos 1) (pos 2) (pos 0)) ∷ []

abbrev constrained : Manager
constrained = (register_with_constraints auth needs_cache (codes "9:00") start).1

check_compatibility_iff_example :
    (check_compatibility given constrained ≡ none)
    ↔ All (λ e. All (Satisfies given) (constraints_of e.0 constrained.constraints)) given
check_compatibility_iff_example = check_compatibility_iff given constrained
