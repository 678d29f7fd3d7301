-- ===== src/Manager/Registration.antt =====
-- What Register and Unregister do on each branch, and undoing the one by the other.
use gochoreo.Common.{
  ◌≡◌, refl, ◌≢◌, ◌⊎◌, inl, inr, true, false, none, some, List, [], arith, Bool-cases, lookup,
  insert, delete, has, lookup-insert_self, lookup-insert, lookup-delete, if◌then◌else◌, is_empty,
}
use gochoreo.Text.{Text, text_eq}
use gochoreo.Text.Equality.{text_key, text_eq_iff}
use gochoreo.Manager.{
  Manager, VersionedComponent, VersionConstraint, register, meta_of, attach_constraints, unregister,
}
use gochoreo.Manager.Registry.{IsConsistent}

-- The state that a successful Register leaves.
abbrev registered : VersionedComponent → Text → Manager → Manager
registered c now m = record m {
  components = insert c.name c m.components;
  component_meta = insert c.name (meta_of c now) m.component_meta;
}

register_cases :
    (c : VersionedComponent) (now : Text) (m : Manager)
    → (((register (some c) now m).0 ≢ none)
        × ((register (some c) now m).1 ≡ m)
        × ((c.name ≡ []) ⊎ (has c.name m.components ≡ true)))
      ⊎ (((register (some c) now m).0 ≡ none)
          × (c.name ≢ [])
          × (has c.name m.components ≡ false)
          × ((register (some c) now m).1 ≡ registered c now m))
unfolding register
register_cases c now m = elim (Bool-cases (is_empty c.name)) [
  | inl nameless ↦ rw (nameless, register) (inl (λ x. cc, refl, inl (ground arith)))
  | inr full ↦ elim (Bool-cases (has c.name m.components)) [
    | inl taken ↦ rw (full, register, taken) (inl (λ x. cc, refl, inr refl))
    | inr free ↦ rw (full, register, free) (inr (refl, (λ x. ground arith), refl, refl))
  ]
]

-- Register answers by an error and changes nothing when the name is empty or taken; else the
-- component and its metadata stand under the name, all other names keep theirs, and the constraints
-- stay as they are.
pub register_lem :
    (c : VersionedComponent) (now : Text) (m : Manager)
    → let (err, m') = register (some c) now m in
      (((err ≢ none) × (m' ≡ m) × ((c.name ≡ []) ⊎ (has c.name m.components ≡ true)))
        ⊎ ((err ≡ none)
            × (c.name ≢ [])
            × (m'.constraints ≡ m.constraints)
            × ((name : Text)
                → (lookup name m'.components
                    ≡ (if text_eq c.name name then some c else lookup name m.components))
                  × (lookup name m'.component_meta ≡ (
                      if text_eq c.name name
                      then some (meta_of c now)
                      else lookup name m.component_meta)))))
register_lem c now m = elim (register_cases c now m) [
  | inl (refused, same, why) ↦ inl (refused, same, why)
  | inr (ok, full, free, now_in) ↦ inr (
    ok,
    full,
    rw now_in refl,
    λ name. rw now_in (
      lookup-insert c.name name c m.components,
      lookup-insert c.name name (meta_of c now) m.component_meta,
    ),
  )
]

abbrev pub removed : Text → Manager → Manager
removed name m = record m {
  components = delete name m.components;
  component_meta = delete name m.component_meta;
  constraints = delete name m.constraints;
}

pub unregister_there :
    (name : Text) (m : Manager)
    → has name m.components ≡ true
    → (unregister name m).1 ≡ removed name m
unfolding unregister
unregister_there name m h = rw (h, unregister)

-- In a consistent registry, where every component stands under its own name, exactly the components
-- have metadata, and only they have constraints (IsConsistent), unregistering what was just
-- registered gives back the registry as it was, name by name.
pub unregister-register :
    (c : VersionedComponent) (now : Text) (m : Manager) (k : Text)
    → IsConsistent m
    → (register (some c) now m).0 ≡ none
    → let m' = (unregister c.name (register (some c) now m).1).1 in
      (lookup k m'.components ≡ lookup k m.components)
      × (lookup k m'.component_meta ≡ lookup k m.component_meta)
      × (lookup k m'.constraints ≡ lookup k m.constraints)
unregister-register c now m k h e = elim (register_cases c now m) [
  | inl (refused, _, _) ↦ absurd (refused e)
  | inr (ok, full, free, now_in) ↦
      let there : has c.name (registered c now m).components ≡ true =
        ground (arith, lookup-insert_self c.name c m.components) in
      rw (now_in, unregister_there c.name (registered c now m) there)
        (
          ground (
            arith,
            lookup-delete c.name k (insert c.name c m.components),
            lookup-insert c.name k c m.components,
            text_eq_iff c.name k,
          ),
          ground (
            arith,
            lookup-delete c.name k (insert c.name (meta_of c now) m.component_meta),
            lookup-insert c.name k (meta_of c now) m.component_meta,
            text_eq_iff c.name k,
            h.described c.name,
          ),
          ground (
            arith,
            lookup-delete c.name k m.constraints,
            text_eq_iff c.name k,
            h.constrained c.name,
          ),
        )
]

-- Without metadata the second half of RegisterWithConstraints panics, after it has written.
pub attach_missing :
    (name : Text) (cs : List VersionConstraint) (m : Manager)
    → lookup name m.component_meta ≡ none
    → attach_constraints name cs m ≡ (none, record m { constraints = insert name cs m.constraints })
unfolding attach_constraints
attach_missing name cs m h = rw (h, attach_constraints)
