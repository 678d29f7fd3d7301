-- ===== src/Migration/Fields.antt =====
-- The migration of a map's fields.
use gochoreo.Common.{
  ◌≡◌, refl, ◌⊎◌, inl, inr, Bool, true, false, Option, none, some, List, [], ◌∷◌, ◌++◌, arith,
  if◌then◌else◌, Map, lookup, insert, has, lookup-insert, Option-cases, Bool-cases, ◌∙◌, ap, any,
  Unique, lookup-nil, not, ◌&&◌, is_some,
}
use gochoreo.Text.{Text, codes, text_eq}
use gochoreo.Text.Equality.{text_key, text_eq_iff}
use gochoreo.Value.{Value, str}
use gochoreo.Errors.{GoError, plain}
use gochoreo.Migration.Data.{
  ok, fail, FieldMapping, is_nil, transform_value, apply_mapping, apply_mappings, mapping_exists,
  copy_unmapped, migrate_map,
}

-- The copy goes over the input in the map's order, and every key stands there once.
pub lookup-copy_unmapped :
    (k : Text) (mappings : List FieldMapping) (input result : Map Text Value)
    → Unique input
    → lookup k (copy_unmapped mappings input result)
      ≡ (if not (mapping_exists k mappings) && has k input then lookup k input else lookup k result)
unfolding copy_unmapped lookup
lookup-copy_unmapped k mappings [] result u = ground arith
lookup-copy_unmapped k mappings ((key, value) ∷ input) result u =
    let mapped = mapping_exists key mappings in
    let next = if mapped then result else insert key value result in
    lookup-copy_unmapped k mappings input next u.1
    ∙ ground (
      arith,
      lookup-insert key k value result,
      text_eq_iff key k,
      λ (e : key ≡ k). ap (λ t. mapping_exists t mappings) e,
    )

-- What a mapping writes, if it writes: the transformed value, or the default.
module _ (sprint : Value → Text) where
  abbrev transformed : Value → Text → Value
  transformed value transform =
      if text_eq transform (codes "string") then str (sprint value) else value

  abbrev pub written : Map Text Value → FieldMapping → Option Value
  written input mapping = elim (lookup mapping.from_field input) [
    | some value ↦ some (transformed value mapping.transform)
    | none ↦ if is_nil mapping.default_value then none else some mapping.default_value
  ]

  -- The last mapping to a field that writes decides; else the field keeps what it had.
  abbrev pub last_written : Text → Map Text Value → List FieldMapping → Option Value → Option Value
  last_written k input [] old = old
  last_written k input (mapping ∷ mappings) old = last_written k input mappings (
      if text_eq mapping.to_field k && is_some (written input mapping)
      then written input mapping
      else old)

  -- A required field that is neither there nor has a default.
  abbrev pub is_missing : Map Text Value → FieldMapping → Bool
  is_missing input mapping = mapping.required && not (is_some (written input mapping))

  transform_value_lem :
      (value : Value) (transform : Text)
      → transform_value sprint value transform ≡ ok (transformed value transform)
  unfolding transform_value text_eq
  transform_value_lem value [] = refl
  transform_value_lem value (c ∷ transform) = ground arith

  -- What one round leaves when it does not fail.
  abbrev write : Map Text Value → FieldMapping → Map Text Value → Map Text Value
  write input mapping result = elim (written input mapping) [
    | none ↦ result
    | some v ↦ insert mapping.to_field v result
  ]

  apply_mapping_lem :
      (input result : Map Text Value) (mapping : FieldMapping)
      → is_missing input mapping ≡ false
      → apply_mapping sprint input mapping result ≡ ok (write input mapping result)
  unfolding apply_mapping
  apply_mapping_lem input result mapping h = elim (Option-cases (lookup mapping.from_field input)) [
    | inl missing ↦ ground arith
    | inr (v, there) ↦ ground (arith, transform_value_lem v mapping.transform)
  ]

  apply_mapping_fails :
      (input result : Map Text Value) (mapping : FieldMapping)
      → is_missing input mapping ≡ true
      → (e : GoError) × (apply_mapping sprint input mapping result ≡ fail e)
  unfolding apply_mapping
  apply_mapping_fails input result mapping h =
      (plain (codes "required field " ++ (mapping.from_field ++ codes " is missing")), ground arith)

  lookup-write :
      (k : Text) (input result : Map Text Value) (mapping : FieldMapping)
      → lookup k (write input mapping result) ≡ (
          if text_eq mapping.to_field k && is_some (written input mapping)
          then written input mapping
          else lookup k result)
  lookup-write k input result mapping = elim (Option-cases (written input mapping)) [
    | inl nothing ↦ rw (nothing, write) (ground arith)
    | inr (v, something) ↦
        rw (something, write) (lookup-insert mapping.to_field k v result ∙ ground arith)
  ]

  -- The loop over the mappings fails if some field is missing, and else decides every key.
  Mapped : Map Text Value → List FieldMapping → Map Text Value → Type 0
  Mapped input mappings result =
      ((any (is_missing input) mappings ≡ true)
        × ((e : GoError) × (apply_mappings sprint input mappings result ≡ fail e)))
      ⊎ ((any (is_missing input) mappings ≡ false)
          × ((r : Map Text Value) × (apply_mappings sprint input mappings result ≡ ok r)
              × ((k : Text) → lookup k r ≡ last_written k input mappings (lookup k result))))

  apply_mappings_lem :
      (input : Map Text Value) (mappings : List FieldMapping) (result : Map Text Value)
      → Mapped input mappings result
  unfolding Mapped apply_mappings
  apply_mappings_lem input [] result = inr (refl, (result, refl, λ k. refl))
  apply_mappings_lem input (m ∷ ms) result = elim (Bool-cases (is_missing input m)) [
    | inl bad ↦
        let (e, failing) = apply_mapping_fails input result m bad in
        inl (ground arith, (e, rw (failing, apply_mappings)))
    | inr good ↦
        let step = apply_mapping_lem input result m good in
        elim (apply_mappings_lem input ms (write input m result)) [
          | inl (some_bad, (e, failing)) ↦
              inl (ground arith, (e, rw (step, apply_mappings) failing))
          | inr (all_good, (r, done, spec)) ↦ inr (
            ground arith,
            (
              r,
              rw (step, apply_mappings) done,
              λ k. spec k ∙ ap (last_written k input ms) (lookup-write k input result m),
            ),
          )
        ]
  ]

  -- The migration of a map fails exactly when a required field is missing and has no default. Else
  -- a field of the input that no mapping names keeps its value, whatever a mapping wrote there, and
  -- every other key has what the last mapping to it wrote, and nothing if none did.
  pub migrate_map_lem :
      (input : Map Text Value) (mappings : List FieldMapping)
      → Unique input
      → ((any (is_missing input) mappings ≡ true)
          × ((e : GoError) × (migrate_map sprint mappings input ≡ fail e)))
        ⊎ ((any (is_missing input) mappings ≡ false)
            × ((r : Map Text Value) × (migrate_map sprint mappings input ≡ ok r)
                × ((k : Text)
                    → lookup k r ≡ (
                        if not (mapping_exists k mappings) && has k input
                        then lookup k input
                        else last_written k input mappings none))))
  unfolding migrate_map Mapped
  migrate_map_lem input mappings u = elim (apply_mappings_lem input mappings []) [
    | inl (bad, (e, failing)) ↦ inl (bad, (e, rw (failing, migrate_map)))
    | inr (good, (r, done, spec)) ↦ inr (
      good,
      (
        copy_unmapped mappings input r,
        rw (done, migrate_map),
        λ k.
            lookup-copy_unmapped k mappings input r u
            ∙ ground (arith, spec k, lookup-nil {V = Value} k),
      ),
    )
  ]
