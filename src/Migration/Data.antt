-- ===== src/Migration/Data.antt =====
-- Field mappings and the migration of data by them (pkg/version/migration.go).
use gochoreo.Common.{
  ℕ, Bool, true, false, not, Option, none, some, List, [], ◌∷◌, ◌++◌, any, if◌then◌else◌, is_empty,
  Map, lookup, insert, ◌&&◌,
}
use gochoreo.Text.{Text, codes, text_eq}
use gochoreo.Text.Equality.{text_key}
use gochoreo.Version.{Version}
use gochoreo.Value.{
  Value, Members, nil, str, map_of, other_map, struct_of, pointer_to, last, member, entries,
  fields_of,
}
use gochoreo.Errors.{GoError, plain, wrapping, migration_error, caused_by}

-- A value, or the error.
pub data Outcome (A : Type 0) : Type 0 where
  ok : A → Outcome A
  fail : GoError → Outcome A

pub data MigrationStrategy : Type 0 where
  -- MigrationStrategyNone
  never : MigrationStrategy
  automatic custom fallback : MigrationStrategy
  -- any other int
  unknown_strategy : ℕ → MigrationStrategy

unfoldable pub strategy_text : MigrationStrategy → Text
strategy_text never = codes "none"
strategy_text automatic = codes "automatic"
strategy_text custom = codes "custom"
strategy_text fallback = codes "fallback"
strategy_text (unknown_strategy n) = codes "unknown"

pub record FieldMapping : Type 0 where
  pub from_field : Text
  pub to_field : Text
  pub transform : Text
  pub default_value : Value
  pub required : Bool

pub record VersionMigration : Type 0 where
  pub from_version : Version
  pub to_version : Version
  pub strategy : MigrationStrategy
  pub field_mappings : List FieldMapping
  pub custom_func : Option (Version → Version → Value → Outcome Value)
  pub reversible : Bool
  pub description : Text

-- `v != nil`
abbrev pub is_nil : Value → Bool
is_nil nil = true
is_nil _ = false

-- `mapping.FromField == key` for some mapping
abbrev pub mapping_exists : Text → List FieldMapping → Bool
mapping_exists key mappings = any (λ mapping. text_eq mapping.from_field key) mappings

-- The loop that copies the fields without a mapping.
unfoldable pub copy_unmapped : List FieldMapping → Map Text Value → Map Text Value → Map Text Value
copy_unmapped mappings [] result = result
copy_unmapped mappings ((key, value) ∷ input) result =
    copy_unmapped mappings input
      (if mapping_exists key mappings then result else insert key value result)

-- The name of a member: its json tag as it stands, if it has one that is not "-".
abbrev pub member_name : Text → Text → Text
member_name name tag = if not (is_empty tag) && not (text_eq tag (codes "-")) then tag else name

unfoldable pub struct_entries : Members → Map Text Value → Map Text Value
struct_entries last result = result
struct_entries (member name tag exported value members) result =
    struct_entries members (if exported then insert (member_name name tag) value result else result)

-- `val.Elem()` of a pointer
abbrev pub deref : Value → Value
deref (pointer_to v) = v
deref v = v

unfoldable pub struct_to_map : Value → Outcome (Map Text Value)
struct_to_map input = elim (deref input) [
  | struct_of members ↦ ok (struct_entries members [])
  | _ ↦ fail (plain (codes "input is not a struct"))
]

-- `NewMigrationError(m.component, …, "automatic migration failed", err)`
abbrev pub failed_automatic : Text → VersionMigration → Outcome Value → Outcome Value
failed_automatic component migration (ok v) = ok v
failed_automatic component migration (fail e) = fail (
    migration_error component migration.from_version migration.to_version
      (codes "automatic migration failed") (caused_by e))

-- The kinds that are migrated.
pub data Kind : Type 0 where
  map_kind struct_kind other_kind : Kind

abbrev pub kind_of : Value → Kind
kind_of (map_of fields) = map_kind
kind_of (other_map n) = map_kind
kind_of (struct_of members) = struct_kind
kind_of _ = other_kind

-- `%v` of fmt
module _ (sprint : Value → Text) where
  unfoldable pub transform_value : Value → Text → Outcome Value
  transform_value value transform =
      if is_empty transform
      then ok value
      else if text_eq transform (codes "string")
      then ok (str (sprint value))
      else ok value

  -- One round of the loop over the mappings.
  unfoldable pub apply_mapping :
      Map Text Value → FieldMapping → Map Text Value → Outcome (Map Text Value)
  apply_mapping input mapping result = elim (lookup mapping.from_field input) [
    | some value ↦ elim (transform_value value mapping.transform) [
      | ok transformed ↦ ok (insert mapping.to_field transformed result)
      | fail e ↦
          fail
            (wrapping (codes "failed to transform field " ++ (mapping.from_field ++ codes ": ")) e)
    ]
    | none ↦
        if not (is_nil mapping.default_value)
        then ok (insert mapping.to_field mapping.default_value result)
        else if mapping.required
        then fail (plain (codes "required field " ++ (mapping.from_field ++ codes " is missing")))
        else ok result
  ]

  unfoldable pub apply_mappings :
      Map Text Value → List FieldMapping → Map Text Value → Outcome (Map Text Value)
  apply_mappings input [] result = ok result
  apply_mappings input (mapping ∷ mappings) result = elim (apply_mapping input mapping result) [
    | ok result' ↦ apply_mappings input mappings result'
    | fail e ↦ fail e
  ]

  -- migrateMapData on a map[string]interface{}
  unfoldable pub migrate_map : List FieldMapping → Map Text Value → Outcome (Map Text Value)
  migrate_map mappings input = elim (apply_mappings input mappings []) [
    | ok result ↦ ok (copy_unmapped mappings input result)
    | fail e ↦ fail e
  ]

  -- migrateMapData: the type assertion is on the input as it was given.
  unfoldable pub migrate_map_data : VersionMigration → Value → Outcome Value
  migrate_map_data migration (map_of fields) =
      elim (migrate_map migration.field_mappings (entries fields)) [
        | ok result ↦ ok (map_of (fields_of result))
        | fail e ↦ fail e
      ]
  migrate_map_data migration _ = fail (plain (codes "input is not a map[string]interface{}"))

  unfoldable pub migrate_struct_data : VersionMigration → Value → Outcome Value
  migrate_struct_data migration input = elim (struct_to_map input) [
    | fail e ↦ fail (wrapping (codes "failed to convert struct to map: ") e)
    | ok fields ↦ elim (migrate_map migration.field_mappings fields) [
      | ok result ↦ ok (map_of (fields_of result))
      | fail e ↦ fail e
    ]
  ]

  unfoldable pub perform_automatic_migration : Text → VersionMigration → Value → Outcome Value
  perform_automatic_migration component migration input =
      if is_nil input then ok nil else elim (kind_of (deref input)) [
        | other_kind ↦ ok input
        | map_kind ↦ failed_automatic component migration (migrate_map_data migration input)
        | struct_kind ↦ failed_automatic component migration (migrate_struct_data migration input)
      ]

  -- performFallbackMigration does the same.
  unfoldable pub perform_fallback_migration : Text → VersionMigration → Value → Outcome Value
  perform_fallback_migration component migration input =
      perform_automatic_migration component migration input
