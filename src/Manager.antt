-- ===== src/Manager.antt =====
-- pkg/version/manager.go: the registry of versioned components. Each method that holds the mutex
-- throughout is one step on the state; `RegisterWithConstraints` takes it twice.
pub mod Registry
pub mod Registration
pub mod Queries
pub mod Serving
pub mod Constraints
pub mod Race
pub mod Requests
mod Tests
use gochoreo.Common.{
  ℕ, Bool, true, false, not, ◌&&◌, ◌||◌, Option, none, some, List, [], ◌∷◌, ◌++◌, map, filter, any,
  if◌then◌else◌, is_empty, Map, lookup, insert, delete, keys, has, length,
}
use gochoreo.Text.{Text, codes, text_eq, text_lt}
use gochoreo.Text.Equality.{text_key}
use gochoreo.Sort.{SortPackage}
use gochoreo.Version.{
  Version, VersionRange, zero_version, to_string, range_contains, range_to_string, is_compatible,
  same_numbers,
}
use gochoreo.Value.{Value}
use gochoreo.Errors.{GoError, plain, version_error, DeprecationInfo}
use gochoreo.Metrics.{Collector, record_request, record_error}
use gochoreo.Utils.{greater, first_or_zero}

-- VersionedRequest: what the manager and the components read of it.
pub record VersionedRequest : Type 0 where
  pub version : Version
  pub component : Text
  pub operation : Text
  pub request_id : Text
  pub timestamp : Text
  pub metadata : Map Text Value

pub record VersionedResponse : Type 0 where
  pub version : Version
  pub component : Text
  pub operation : Text
  pub request_id : Text
  pub timestamp : Text
  pub payload : Value
  pub error : Text
  pub metadata : Map Text Value

-- VersionedComponent (pkg/version/interfaces.go): the methods that the manager calls, of an
-- implementation that answers the same each time. `deprecatable` is the type assertion to
-- DeprecatableComponent.
pub record Deprecatable : Type 0 where
  pub is_version_deprecated : Version → Bool
  pub get_deprecation_info : Version → Option DeprecationInfo

pub record VersionedComponent : Type 0 where
  pub name : Text
  pub kind : Text
  pub supported_versions : List Version
  pub is_version_supported : Version → Bool
  pub get_default_version : Version
  pub process_versioned : VersionedRequest → Value → Option VersionedResponse × Option GoError
  pub deprecatable : Option Deprecatable

pub record VersionConstraint : Type 0 where
  pub component : Text
  pub requires : VersionRange
  pub conflicts : List Version

pub record VersionedComponentMeta : Type 0 where
  pub name : Text
  pub kind : Text
  pub supported_versions : List Version
  pub default_version : Version
  pub deprecated_versions : List DeprecationInfo
  pub constraints : List VersionConstraint
  pub created_at : Text
  pub updated_at : Text

-- The collector is the in-memory one, if there is any.
pub record Manager : Type 0 where
  pub components : Map Text VersionedComponent
  pub component_meta : Map Text VersionedComponentMeta
  pub constraints : Map Text (List VersionConstraint)
  pub metrics_collector : Option Collector

unfoldable pub new_manager : Option Collector → Manager
new_manager collector = record {
  components = [];
  component_meta = [];
  constraints = [];
  metrics_collector = collector;
}

abbrev pub not_found : Text → GoError
not_found name = plain (codes "component '" ++ (name ++ codes "' not found"))

-- The loop over the supported versions.
pub deprecations : Deprecatable → List Version → List DeprecationInfo
deprecations d [] = []
deprecations d (version ∷ versions) =
    (if d.is_version_deprecated version
      then elim (d.get_deprecation_info version) [ none ↦ [] | some info ↦ info ∷ [] ]
      else [])
    ++ deprecations d versions

unfoldable pub meta_of : VersionedComponent → Text → VersionedComponentMeta
unfolding deprecations
meta_of component now = record {
  name = component.name;
  kind = component.kind;
  supported_versions = component.supported_versions;
  default_version = component.get_default_version;
  deprecated_versions = elim component.deprecatable [
    | none ↦ []
    | some d ↦ deprecations d component.supported_versions
  ];
  constraints = [];
  created_at = now;
  updated_at = now;
}

-- Register; the error is `none` for nil. The second argument is the formatted time, the component
-- is `none` for nil.
unfoldable pub register : Option VersionedComponent → Text → Manager → Option GoError × Manager
register none now m = (some (plain (codes "component cannot be nil")), m)
register (some component) now m =
    if is_empty component.name
    then (some (plain (codes "component name cannot be empty")), m)
    else if has component.name m.components
    then (
      some (
          plain
            (codes "component with name '" ++ (component.name ++ codes "' already registered"))),
      m,
    )
    else (
      none,
      record m {
        components = insert component.name component m.components;
        component_meta = insert component.name (meta_of component now) m.component_meta;
      },
    )

-- The second half of RegisterWithConstraints, under its own lock. The constraints are written
-- before the metadata is read; `none` is the panic on a nil pointer, with the state that it leaves.
unfoldable pub attach_constraints :
    Text → List VersionConstraint → Manager → Option (Unit {0}) × Manager
attach_constraints name constraints m =
    let written = record m { constraints = insert name constraints m.constraints } in
    elim (lookup name m.component_meta) [
      | none ↦ (none, written)
      | some meta ↦ (
        some tt,
        record written {
          component_meta = insert name (record meta { constraints = constraints }) m.component_meta;
        },
      )
    ]

-- RegisterWithConstraints with no other call in between; `none` is the panic.
unfoldable pub register_with_constraints :
    VersionedComponent → List VersionConstraint → Text → Manager → Option (Option GoError) × Manager
register_with_constraints component constraints now m =
    let (err, m') = register (some component) now m in
    elim err [
      | some e ↦ (some (some e), m')
      | none ↦
          let (done, m'') = attach_constraints component.name constraints m' in
          elim done [ none ↦ (none, m'') | some _ ↦ (some none, m'') ]
    ]

unfoldable pub unregister : Text → Manager → Option GoError × Manager
unregister name m =
    if has name m.components
    then (
      none,
      record m {
        components = delete name m.components;
        component_meta = delete name m.component_meta;
        constraints = delete name m.constraints;
      },
    )
    else (some (not_found name), m)
