-- ===== src/Migration/Tests.antt =====
-- The theorems on migrations at a concrete migrator.
use gochoreo.Common.{
  ◌≡◌, refl, ◌⊎◌, true, false, not, ◌&&◌, none, some, [], ◌∷◌, Map, lookup, has, any, if◌then◌else◌,
  Unique,
}
use gochoreo.Common.Int.{pos}
use gochoreo.Text.{Text, codes, text_eq}
use gochoreo.Text.Equality.{text_key}
use gochoreo.Version.{Version, new_version}
use gochoreo.Value.{Value, nil, str, opaque}
use gochoreo.Errors.{GoError}
use gochoreo.Migration.Data.{
  ok, fail, VersionMigration, FieldMapping, automatic, migrate_map, mapping_exists,
}
use gochoreo.Migration.{Migrator, new_migrator, GlobalMigrators, add_migration}
use gochoreo.Migration.{reverse_field_mappings}
use gochoreo.Migration.Renaming.{rename as field_rename, migrate_map-reverse}
use gochoreo.Migration.Fields.{migrate_map_lem, is_missing, last_written}

abbrev v1 : Version
v1 = new_version (pos 1) (pos 0) (pos 0)

abbrev v2 : Version
v2 = new_version (pos 2) (pos 0) (pos 0)

abbrev show : Value → Text
show v = codes "value"

abbrev rename : FieldMapping
rename = record {
  from_field = codes "user";
  to_field = codes "username";
  transform = codes "string";
  default_value = nil;
  required = true;
}

abbrev v1_to_v2 : VersionMigration
v1_to_v2 = record {
  from_version = v1;
  to_version = v2;
  strategy = automatic;
  field_mappings = rename ∷ [];
  custom_func = none;
  reversible = true;
  description = codes "rename";
}

abbrev empty : Migrator
empty = new_migrator (codes "auth")

abbrev filled : Migrator
filled = (add_migration (some v1_to_v2) empty).1

abbrev no_globals : GlobalMigrators
no_globals = []

abbrev input : Map Text Value
input = (codes "user", opaque 7) ∷ (codes "role", str (codes "admin")) ∷ []

input-Unique : Unique input
unfolding lookup text_eq
input-Unique = (refl, (refl, tt))

migrate_map_lem_example :
    ((any (is_missing show input) (rename ∷ []) ≡ true)
      × ((e : GoError) × (migrate_map show (rename ∷ []) input ≡ fail e)))
    ⊎ ((any (is_missing show input) (rename ∷ []) ≡ false)
        × ((r : Map Text Value) × (migrate_map show (rename ∷ []) input ≡ ok r)
            × ((k : Text)
                → lookup k r ≡ (
                    if not (mapping_exists k (rename ∷ [])) && has k input
                    then lookup k input
                    else last_written show k input (rename ∷ []) none))))
migrate_map_lem_example = migrate_map_lem show input (rename ∷ []) input-Unique

migrate_map-reverse_example :
    let forward = field_rename (codes "user") (codes "username") true ∷ [] in
    (there : Map Text Value) × (back : Map Text Value) × (migrate_map show forward input ≡ ok there)
    × (migrate_map show (reverse_field_mappings forward) there ≡ ok back)
    × ((k : Text) → lookup k back ≡ lookup k input)
unfolding lookup text_eq
migrate_map-reverse_example =
    migrate_map-reverse show (codes "user") (codes "username") true (opaque 7) input input-Unique
      refl refl
