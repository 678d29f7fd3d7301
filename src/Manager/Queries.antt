-- ===== src/Manager/Queries.antt =====
-- The methods of the manager that read, and UpdateComponentMeta.
use gochoreo.Common.{
  Bool, Option, none, some, List, [], ◌∷◌, ◌++◌, filter, if◌then◌else◌, is_empty, Map, lookup,
  insert, keys,
}
use gochoreo.Text.{Text, codes, text_eq, text_lt}
use gochoreo.Text.Equality.{text_key}
use gochoreo.Sort.{SortPackage}
use gochoreo.Version.{Version, zero_version, is_compatible}
use gochoreo.Errors.{GoError, plain}
use gochoreo.Utils.{greater, first_or_zero}
use gochoreo.Manager.{Manager, VersionedComponent, VersionedComponentMeta, not_found}

unfoldable pub get_component : Text → Manager → Option VersionedComponent
get_component name m = lookup name m.components

-- `names = append(names, name)` for every entry that passes
unfoldable pub names_where : (VersionedComponent → Bool) → Map Text VersionedComponent → List Text
names_where test [] = []
names_where test ((name, component) ∷ entries) =
    if test component then name ∷ names_where test entries else names_where test entries

module _ (p : SortPackage) where
  unfoldable pub list : Manager → List Text
  list m = p.sort Text text_lt (keys m.components)

  unfoldable pub list_by_type : Text → Manager → List Text
  list_by_type component_type m =
      p.sort Text text_lt (names_where (λ c. text_eq c.kind component_type) m.components)

  -- GetLatestVersion: the versions sorted in descending order, and the first of them. The code sorts
  -- in place; a component here returns a fresh slice each time, so nothing else sees that.
  unfoldable pub get_latest_version : Text → Manager → Version × Option GoError
  get_latest_version name m = elim (get_component name m) [
    | none ↦ (zero_version, some (not_found name))
    | some component ↦
        if is_empty component.supported_versions
        then (
          zero_version,
          some (plain (codes "component '" ++ (name ++ codes "' has no supported versions"))),
        )
        else (first_or_zero (p.sort Version greater component.supported_versions), none)
  ]

unfoldable pub get_meta : Text → Manager → Option VersionedComponentMeta
get_meta name m = lookup name m.component_meta

-- A copy of every entry.
abbrev pub get_all_meta : Manager → Map Text VersionedComponentMeta
get_all_meta m = m.component_meta

unfoldable pub get_supported_versions : Text → Manager → List Version × Option GoError
get_supported_versions name m = elim (get_component name m) [
  | none ↦ ([], some (not_found name))
  | some component ↦ (component.supported_versions, none)
]

pub supported_of : Map Text VersionedComponent → Map Text (List Version)
supported_of [] = []
supported_of ((name, component) ∷ entries) =
    (name, component.supported_versions) ∷ supported_of entries

unfoldable pub get_all_supported_versions : Manager → Map Text (List Version)
unfolding supported_of
get_all_supported_versions m = supported_of m.components

unfoldable pub get_compatible_versions : Text → Version → Manager → List Version × Option GoError
get_compatible_versions name target m = elim (get_component name m) [
  | none ↦ ([], some (not_found name))
  | some component ↦ (filter (λ v. is_compatible v target) component.supported_versions, none)
]

-- `updateFn(meta)` and the new time
abbrev pub touched :
    (VersionedComponentMeta → VersionedComponentMeta)
    → Text
    → VersionedComponentMeta
    → VersionedComponentMeta
touched update_fn now meta = record (update_fn meta) { updated_at = now }

-- UpdateComponentMeta: the function may change the entry in any way; the third argument is the
-- formatted time.
unfoldable pub update_component_meta :
    Text
    → (VersionedComponentMeta → VersionedComponentMeta)
    → Text
    → Manager
    → Option GoError × Manager
update_component_meta name update_fn now m = elim (lookup name m.component_meta) [
  | none ↦ (some (not_found name), m)
  | some meta ↦ (
    none,
    record m { component_meta = insert name (touched update_fn now meta) m.component_meta },
  )
]
