-- ===== src/Migration/Renaming.antt =====
-- A field that a migration renames, and the reverse migration that AddMigration derives.
use gochoreo.Common.{
  ◌≡◌, refl, Bool, false, none, some, List, [], ◌∷◌, arith, Map, lookup, insert, insert-Unique,
  lookup-insert, lookup-nil, Unique, if◌then◌else◌, ◌∙◌, Bool-cases, inl, inr, sym, ap,
}
use gochoreo.Text.{Text, text_eq}
use gochoreo.Text.Equality.{text_key, text_eq_iff, text_eq_refl, text_eq_of_ne}
use gochoreo.Value.{Value, nil}
use gochoreo.Migration.Data.{
  ok, FieldMapping, copy_unmapped, mapping_exists, apply_mapping, apply_mappings, migrate_map,
  transform_value,
}
use gochoreo.Migration.{reverse_field_mappings, reverse_mapping, reverse_transform}
use gochoreo.Migration.Fields.{lookup-copy_unmapped}

-- The mapping that renames a field, without a transformation or a default.
abbrev pub rename : Text → Text → Bool → FieldMapping
rename from to required = record {
  from_field = from;
  to_field = to;
  transform = [];
  default_value = nil;
  required = required;
}

reverse-rename :
    (from to : Text) (required : Bool)
    → reverse_field_mappings (rename from to required ∷ []) ≡ rename to from required ∷ []
unfolding reverse_field_mappings reverse_mapping reverse_transform
reverse-rename from to required = refl

copy_unmapped-Unique :
    (mappings : List FieldMapping) (input result : Map Text Value)
    → Unique result
    → Unique (copy_unmapped mappings input result)
unfolding copy_unmapped
copy_unmapped-Unique mappings [] result u = u
copy_unmapped-Unique mappings ((key, value) ∷ input) result u =
    elim (Bool-cases (mapping_exists key mappings)) [
      | inl mapped ↦ rw (mapped, copy_unmapped) (copy_unmapped-Unique mappings input result u)
      | inr plain ↦
          rw (plain, copy_unmapped)
            (copy_unmapped-Unique mappings input (insert key value result)
              (insert-Unique key value result u))
    ]

module _ (sprint : Value → Text) where
  -- What the migration of a map with the old field leaves.
  renamed : Text → Text → Bool → Value → Map Text Value → Map Text Value
  renamed from to required v input =
      copy_unmapped (rename from to required ∷ []) input (insert to v [])

  renamed-Unique :
      (from to : Text) (required : Bool) (v : Value) (input : Map Text Value)
      → Unique (renamed from to required v input)
  unfolding renamed
  renamed-Unique from to required v input =
      copy_unmapped-Unique (rename from to required ∷ []) input (insert to v [])
        (insert-Unique to v [] tt)

  migrate_map-rename :
      (from to : Text) (required : Bool) (v : Value) (input : Map Text Value)
      → lookup from input ≡ some v
      → migrate_map sprint (rename from to required ∷ []) input
        ≡ ok (renamed from to required v input)
  unfolding migrate_map apply_mappings apply_mapping transform_value renamed
  migrate_map-rename from to required v input there =
      rw (there, migrate_map, apply_mappings, apply_mapping) refl

  lookup-renamed :
      (from to : Text) (required : Bool) (v : Value) (input : Map Text Value) (k : Text)
      → Unique input
      → lookup to input ≡ none
      → lookup k (renamed from to required v input)
        ≡ (if text_eq to k then some v else if text_eq from k then none else lookup k input)
  unfolding renamed
  lookup-renamed from to required v input k u free =
      lookup-copy_unmapped k (rename from to required ∷ []) input (insert to v []) u
      ∙ ground (
        arith,
        lookup-insert to k v [],
        lookup-nil {V = Value} k,
        text_eq_iff to k,
        λ (e : to ≡ k). ap (λ t. lookup t input) (sym e) ∙ free,
      )

  -- A map with the old field and without the new one comes back, key by key, from the renaming and
  -- its reverse.
  pub migrate_map-reverse :
      (from to : Text) (required : Bool) (v : Value) (input : Map Text Value)
      → Unique input
      → lookup from input ≡ some v
      → lookup to input ≡ none
      → (there : Map Text Value) × (back : Map Text Value) × (migrate_map sprint
            (rename from to required ∷ [])
            input
          ≡ ok there)
        × (migrate_map sprint (reverse_field_mappings (rename from to required ∷ [])) there
            ≡ ok back)
        × ((k : Text) → lookup k back ≡ lookup k input)
  migrate_map-reverse from to required v input u here free =
      let there = renamed from to required v input in
      let back = renamed to from required v there in
      let spec : (k : Text)
          → lookup k there
            ≡ (if text_eq to k then some v else if text_eq from k then none else lookup k input) =
        λ k. lookup-renamed from to required v input k u free in
      let apart : text_eq to from ≡ false =
        text_eq_of_ne to from (λ e. ground (arith, ap (λ t. lookup t input) e)) in
      let at_to : lookup to there ≡ some v = spec to ∙ rw (text_eq_refl to) refl in
      let at_from : lookup from there ≡ none = spec from ∙ rw (apart, text_eq_refl from) refl in
      (
        there,
        back,
        migrate_map-rename from to required v input here,
        rw (reverse-rename from to required) (migrate_map-rename to from required v there at_to),
        λ k.
            lookup-renamed to from required v there k (renamed-Unique from to required v input)
              at_from
            ∙ ground (
              arith,
              spec k,
              text_eq_iff from k,
              text_eq_iff to k,
              λ (e : from ≡ k). ap (λ t. lookup t input) e,
              λ (e : to ≡ k). ap (λ t. lookup t input) e,
            ),
      )
