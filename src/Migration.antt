-- ===== src/Migration.antt =====
-- pkg/version/migration.go: the migrator of a component. `%v` of an arbitrary value is a parameter.
pub mod Data
pub mod Fields
pub mod Renaming
pub mod Paths
mod Tests
use gochoreo.Common.{
  ℕ, Bool, true, false, not, Option, none, some, List, [], ◌∷◌, ◌++◌, map, if◌then◌else◌, is_empty,
  Map, lookup, insert, has, is_some,
}
use gochoreo.Common.Int.{ℤ, pos, eqb_ℤ}
use gochoreo.Text.{Text, codes}
use gochoreo.Text.Equality.{text_key}
use gochoreo.Version.{Version, to_string, compare}
use gochoreo.Value.{Value, nil}
use gochoreo.Errors.{GoError, migration_error, plain, no_cause, caused_by}
use gochoreo.Migration.Data.{
  Outcome, ok, fail, FieldMapping, VersionMigration, MigrationStrategy, never, automatic, custom,
  fallback, unknown_strategy, strategy_text, perform_automatic_migration,
  perform_fallback_migration,
}

-- component, and the migrations by key "from-to"
pub record Migrator : Type 0 where
  pub component : Text
  pub migrations : Map Text VersionMigration

unfoldable pub new_migrator : Text → Migrator
new_migrator component = record { component = component; migrations = [] }

-- `fmt.Sprintf("%s-%s", from.String(), to.String())`
unfoldable pub migration_key : Version → Version → Text
migration_key from to = to_string from ++ b'-' ∷ to_string to

unfoldable pub reverse_transform : Text → Text
reverse_transform transform = []

unfoldable pub reverse_mapping : FieldMapping → FieldMapping
reverse_mapping mapping = record {
  from_field = mapping.to_field;
  to_field = mapping.from_field;
  transform = reverse_transform mapping.transform;
  default_value = nil;
  required = mapping.required;
}

unfoldable pub reverse_field_mappings : List FieldMapping → List FieldMapping
reverse_field_mappings mappings = map reverse_mapping mappings

-- The literal of the reverse migration: CustomFunc is left nil.
unfoldable pub reverse_migration : VersionMigration → VersionMigration
reverse_migration migration = record {
  from_version = migration.to_version;
  to_version = migration.from_version;
  strategy = migration.strategy;
  field_mappings = reverse_field_mappings migration.field_mappings;
  custom_func = none;
  reversible = false;
  description = codes "Reverse migration: " ++ migration.description;
}

unfoldable pub add_migration : Option VersionMigration → Migrator → Option GoError × Migrator
add_migration none m = (some (plain (codes "migration cannot be nil")), m)
add_migration (some migration) m =
    let key = migration_key migration.from_version migration.to_version in
    let added = insert key migration m.migrations in
    (
      none,
      if migration.reversible
          then record m {
            migrations =
                insert (migration_key migration.to_version migration.from_version)
                  (reverse_migration migration) added;
          }
          else record m { migrations = added },
    )

unfoldable pub add_custom_migration :
    Version
    → Version
    → Option (Version → Version → Value → Outcome Value)
    → Bool
    → Text
    → Migrator
    → Option GoError × Migrator
add_custom_migration from to migration_func reversible description m =
    add_migration
      (some (record {
        from_version = from;
        to_version = to;
        strategy = custom;
        field_mappings = [];
        custom_func = migration_func;
        reversible = reversible;
        description = description;
      }))
      m

unfoldable pub add_automatic_migration :
    Version → Version → List FieldMapping → Bool → Migrator → Option GoError × Migrator
add_automatic_migration from to field_mappings reversible m =
    add_migration
      (some (record {
        from_version = from;
        to_version = to;
        strategy = automatic;
        field_mappings = field_mappings;
        custom_func = none;
        reversible = reversible;
        description =
            codes "Automatic migration from " ++ (to_string from ++ (codes " to " ++ to_string to));
      }))
      m

abbrev pub refusal : Text → Version → Version → Text → GoError
refusal component from to message = migration_error component from to message no_cause

-- The test `from.Compare(to) == 0`.
abbrev pub is_same : Version → Version → Bool
is_same from to = eqb_ℤ (compare from to) (pos 0)

-- The switch on the strategy.
unfoldable pub run_migration :
    (Value → Text)
    → Text
    → Version
    → Version
    → VersionMigration
    → MigrationStrategy
    → Value
    → Outcome Value
run_migration sprint component from to migration never input =
    fail (refusal component from to (codes "migration not supported"))
run_migration sprint component from to migration custom input = elim migration.custom_func [
  | none ↦ fail (refusal component from to (codes "custom migration function not provided"))
  | some f ↦ f from to input
]
run_migration sprint component from to migration automatic input =
    perform_automatic_migration sprint component migration input
run_migration sprint component from to migration fallback input =
    perform_fallback_migration sprint component migration input
run_migration sprint component from to migration (unknown_strategy n) input = fail (
    refusal component from to
      (codes "unsupported migration strategy: " ++ strategy_text (unknown_strategy n)))

unfoldable pub migrate : (Value → Text) → Version → Version → Value → Migrator → Outcome Value
migrate sprint from to input m =
    if is_same from to then ok input else elim (lookup (migration_key from to) m.migrations) [
      | none ↦ fail (refusal m.component from to (codes "no migration path available"))
      | some migration ↦ run_migration sprint m.component from to migration migration.strategy input
    ]

unfoldable pub can_migrate : Version → Version → Migrator → Bool
can_migrate from to m = if is_same from to then true else has (migration_key from to) m.migrations

unfoldable pub get_migration_path : Version → Version → Migrator → Outcome (List VersionMigration)
get_migration_path from to m =
    if is_same from to then ok [] else elim (lookup (migration_key from to) m.migrations) [
      | some migration ↦ ok (migration ∷ [])
      | none ↦ fail (refusal m.component from to (codes "no migration path found"))
    ]

-- The values, in the order of the map.
unfoldable pub get_supported_migrations : Map Text VersionMigration → List VersionMigration
get_supported_migrations [] = []
get_supported_migrations ((key, migration) ∷ migrations) =
    migration ∷ get_supported_migrations migrations

-- GlobalMigrators
abbrev pub GlobalMigrators : Type 0
GlobalMigrators = Map Text Migrator

unfoldable pub get_global_migrator : Text → GlobalMigrators → Migrator × GlobalMigrators
get_global_migrator component globals = elim (lookup component globals) [
  | some migrator ↦ (migrator, globals)
  | none ↦ (new_migrator component, insert component (new_migrator component) globals)
]

-- RegisterGlobalMigration; the migrator is shared, so the map shows what was added.
unfoldable pub register_global_migration :
    Text → Option VersionMigration → GlobalMigrators → Option GoError × GlobalMigrators
register_global_migration component migration globals =
    let (migrator, globals') = get_global_migrator component globals in
    let (err, migrator') = add_migration migration migrator in
    (err, insert component migrator' globals')
