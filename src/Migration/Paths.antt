-- ===== src/Migration/Paths.antt =====
-- Which migrations are found, and which of them run.
use gochoreo.Common.{
  ◌≡◌, refl, ◌⊎◌, ◌↔◌, inl, inr, true, false, Option, some, List, [], ◌∷◌, arith, if◌then◌else◌,
  lookup, insert, lookup-insert, lookup-insert_self, ◌&&◌, Option-cases, Bool-cases, ◌∙◌,
}
use gochoreo.Text.{Text, codes, text_eq}
use gochoreo.Text.Equality.{text_key, text_eq_refl}
use gochoreo.Version.{Version}
use gochoreo.Value.{Value}
use gochoreo.Migration.Data.{Outcome, ok, fail, VersionMigration, custom}
use gochoreo.Migration.{
  Migrator, new_migrator, migration_key, add_migration, add_custom_migration, reverse_migration,
  is_same, migrate, can_migrate, get_migration_path, refusal, run_migration, GlobalMigrators,
  get_global_migrator, register_global_migration,
}

-- CanMigrate says exactly whether GetMigrationPath finds a path; without one Migrate fails, whatever
-- the input.
pub can_migrate_iff :
    (sprint : Value → Text) (from to : Version) (input : Value) (m : Migrator)
    → ((can_migrate from to m ≡ true)
        ↔ ((path : List VersionMigration) × (get_migration_path from to m ≡ ok path)))
      × ((can_migrate from to m ≡ true)
          ⊎ (migrate sprint from to input m
              ≡ fail (refusal m.component from to (codes "no migration path available"))))
unfolding can_migrate get_migration_path migrate
can_migrate_iff sprint from to input m = elim (Bool-cases (is_same from to)) [
  | inl same ↦ rw same (((λ e. ([], refl)), λ h. refl), inl refl)
  | inr other ↦ elim (Option-cases (lookup (migration_key from to) m.migrations)) [
    | inl missing ↦ rw (other, missing) (((λ e. cc), λ h. cc (h.1)), inr refl)
    | inr (migration, there) ↦
        rw (other, there) (((λ e. (migration ∷ [], refl)), λ h. refl), inl refl)
  ]
]

-- AddMigration sets the key of the way there to the migration and, if it is reversible, the key of
-- the way back to its reverse, which wins where the two keys agree; every other key keeps its entry.
pub lookup-add_migration :
    (migration : VersionMigration) (m : Migrator) (key : Text)
    → lookup key (add_migration (some migration) m).1.migrations ≡ (
        if migration.reversible
          && text_eq (migration_key migration.to_version migration.from_version) key
        then some (reverse_migration migration)
        else if text_eq (migration_key migration.from_version migration.to_version) key
        then some migration
        else lookup key m.migrations)
unfolding add_migration
lookup-add_migration migration m key =
    let there = migration_key migration.from_version migration.to_version in
    let back = migration_key migration.to_version migration.from_version in
    ground (
      arith,
      lookup-insert back key (reverse_migration migration) (insert there migration m.migrations),
      lookup-insert there key migration m.migrations,
    )

back_there :
    (sprint : Value → Text) (from to : Version) (f : Version → Version → Value → Outcome Value)
    (description : Text) (m : Migrator)
    → lookup
        (migration_key to from)
        (add_custom_migration from to (some f) true description m).1.migrations
      ≡ some (
          reverse_migration (record {
            from_version = from;
            to_version = to;
            strategy = custom;
            field_mappings = [];
            custom_func = some f;
            reversible = true;
            description = description;
          }))
unfolding add_custom_migration
back_there sprint from to f description m =
    lookup-add_migration _ m (migration_key to from) ∙ rw (text_eq_refl (migration_key to from))

-- A custom migration that is added as reversible cannot be run backwards: CanMigrate accepts the
-- way back, and Migrate fails on it, whatever the input.
pub migrate-add_custom_migration_back :
    (sprint : Value → Text) (from to : Version) (f : Version → Version → Value → Outcome Value)
    (description : Text) (input : Value) (m : Migrator)
    → is_same to from ≡ false
    → let m' = (add_custom_migration from to (some f) true description m).1 in
      (can_migrate to from m' ≡ true)
      × (migrate sprint to from input m'
          ≡ fail (refusal m.component to from (codes "custom migration function not provided")))
unfolding can_migrate migrate run_migration reverse_migration add_custom_migration add_migration
migrate-add_custom_migration_back sprint from to f description input m differ =
    rw (differ, back_there sprint from to f description m) (refl, refl)

global_there :
    (component : Text) (migrator : Migrator) (globals : GlobalMigrators)
    → lookup component globals ≡ some migrator
    → (get_global_migrator component globals).0 ≡ migrator
unfolding get_global_migrator
global_there component migrator globals h = ground arith

global_others :
    (component other : Text) (globals : GlobalMigrators)
    → text_eq component other ≡ false
    → lookup other (get_global_migrator component globals).1 ≡ lookup other globals
unfolding get_global_migrator
global_others component other globals h =
    ground (arith, lookup-insert component other (new_migrator component) globals)

-- A migration that is registered globally is found in the component's global migrator as if it had
-- been added there, and no other component's migrator changes.
pub get_global_migrator-register_global_migration :
    (component other : Text) (migration : Option VersionMigration) (globals : GlobalMigrators)
    → let after = (register_global_migration component migration globals).1 in
      ((get_global_migrator component after).0
        ≡ (add_migration migration (get_global_migrator component globals).0).1)
      × (lookup other after ≡ (
          if text_eq component other
          then some (add_migration migration (get_global_migrator component globals).0).1
          else lookup other globals))
unfolding register_global_migration
get_global_migrator-register_global_migration component other migration globals =
    let (migrator, globals') = get_global_migrator component globals in
    let migrator' = (add_migration migration migrator).1 in
    (
      global_there component migrator' (insert component migrator' globals')
          (lookup-insert_self component migrator' globals'),
      lookup-insert component other migrator' globals'
          ∙ ground (arith, global_others component other globals),
    )
