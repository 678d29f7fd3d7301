-- ===== src/Manager/Registry.antt =====
-- The registry stays consistent under every method that writes.
use gochoreo.Common.{
  ◌≡◌, refl, ◌≢◌, inl, inr, true, Option, none, some, List, arith, Option-cases, lookup, has,
  has-insert_existing, lookup-insert_self, ◌∙◌, sym, lookup-insert, lookup-delete,
}
use mathlib.Core.Bool.{false≢true}
use gochoreo.Text.{Text}
use gochoreo.Text.Equality.{text_key, text_eq_iff}
use gochoreo.Metrics.{Collector}
use gochoreo.Manager.{
  Manager, VersionedComponent, VersionedComponentMeta, VersionConstraint, new_manager, register,
  meta_of, attach_constraints, register_with_constraints, unregister,
}
use gochoreo.Manager.Queries.{touched, update_component_meta}

-- A component has metadata and stands under its own name; only components have constraints.
pub record IsConsistent (m : Manager) : Type 0 where
  pub described : (name : Text) → has name m.components ≡ has name m.component_meta
  pub named :
      (name : Text) (c : VersionedComponent) → lookup name m.components ≡ some c → c.name ≡ name
  pub constrained : (name : Text) → has name m.constraints ≡ true → has name m.components ≡ true

new_manager-IsConsistent : (collector : Option Collector) → IsConsistent (new_manager collector)
unfolding new_manager lookup
new_manager-IsConsistent collector = record {
  described = λ name. refl;
  named = λ name c e. cc;
  constrained = λ name e. cc;
}

register-IsConsistent :
    (component : Option VersionedComponent) (now : Text) (m : Manager)
    → IsConsistent m
    → IsConsistent (register component now m).1
unfolding register
register-IsConsistent none now m h = h
register-IsConsistent (some c) now m h = record {
  described = λ name. ground (
    arith,
    h.described name,
    lookup-insert c.name name c m.components,
    lookup-insert c.name name (meta_of c now) m.component_meta,
  );
  named = λ name d.
      ground
        (arith, h.named name d, lookup-insert c.name name c m.components, text_eq_iff c.name name);
  constrained =
      λ name. ground (arith, h.constrained name, lookup-insert c.name name c m.components);
}

unregister-IsConsistent :
    (name : Text) (m : Manager) → IsConsistent m → IsConsistent (unregister name m).1
unfolding unregister
unregister-IsConsistent name m h = record {
  described = λ k. ground (
    arith,
    h.described k,
    lookup-delete name k m.components,
    lookup-delete name k m.component_meta,
  );
  named = λ k d. ground (arith, h.named k d, lookup-delete name k m.components);
  constrained = λ k. ground (
    arith,
    h.constrained k,
    lookup-delete name k m.components,
    lookup-delete name k m.constraints,
  );
}

update_component_meta-IsConsistent :
    (name : Text) (f : VersionedComponentMeta → VersionedComponentMeta) (now : Text) (m : Manager)
    → IsConsistent m
    → IsConsistent (update_component_meta name f now m).1
unfolding update_component_meta
update_component_meta-IsConsistent name f now m h =
    elim (Option-cases (lookup name m.component_meta)) [
      | inl missing ↦ rw (missing, update_component_meta) h
      | inr (meta, found) ↦
          rw (found, update_component_meta)
            (record {
              described = λ k.
                  h.described k
                  ∙ sym
                      (has-insert_existing name k (touched f now meta) meta m.component_meta found);
              named = h.named;
              constrained = h.constrained;
            })
    ]

-- With the metadata there, the second half of RegisterWithConstraints does not panic.
pub attach_constraints-IsConsistent :
    (name : Text) (cs : List VersionConstraint) (m : Manager)
    → IsConsistent m
    → has name m.components ≡ true
    → ((attach_constraints name cs m).0 ≡ some tt) × IsConsistent (attach_constraints name cs m).1
unfolding attach_constraints
attach_constraints-IsConsistent name cs m h there =
    elim (Option-cases (lookup name m.component_meta)) [
      | inl missing ↦ absurd (false≢true (ground (arith, h.described name)))
      | inr (meta, found) ↦
          rw (found, attach_constraints)
            (
              refl,
              record {
                described = λ k.
                    h.described k
                    ∙ sym (
                        has-insert_existing name k (record meta { constraints = cs }) meta
                          m.component_meta found);
                named = h.named;
                constrained = λ k. ground (
                  arith,
                  h.constrained k,
                  lookup-insert name k cs m.constraints,
                  text_eq_iff name k,
                );
              },
            )
    ]

pub register-has :
    (c : VersionedComponent) (now : Text) (m : Manager)
    → (register (some c) now m).0 ≡ none
    → has c.name (register (some c) now m).1.components ≡ true
unfolding register
register-has c now m e = ground (arith, lookup-insert_self c.name c m.components)

-- Without a call in between, RegisterWithConstraints does not panic and keeps the registry
-- consistent.
pub register_with_constraints-IsConsistent :
    (c : VersionedComponent) (cs : List VersionConstraint) (now : Text) (m : Manager)
    → IsConsistent m
    → ((register_with_constraints c cs now m).0 ≢ none)
      × IsConsistent (register_with_constraints c cs now m).1
unfolding register_with_constraints
register_with_constraints-IsConsistent c cs now m h =
    elim (Option-cases (register (some c) now m).0) [
      | inr (e, refused) ↦
          rw (refused, register_with_constraints) (λ x. cc, register-IsConsistent (some c) now m h)
      | inl registered ↦
          let m' = (register (some c) now m).1 in
          let (done, kept) =
            attach_constraints-IsConsistent c.name cs m' (register-IsConsistent (some c) now m h)
              (register-has c now m registered) in
          rw (registered, register_with_constraints, done) (λ x. cc, kept)
    ]

-- A call of a method that writes, whole and with its result left out.
pub data Step (m : Manager) : Manager → Type 0 where
  registers : (c : Option VersionedComponent) (now : Text) → Step m (register c now m).1
  registers_with :
      (c : VersionedComponent) (cs : List VersionConstraint) (now : Text)
      → Step m (register_with_constraints c cs now m).1
  unregisters : (name : Text) → Step m (unregister name m).1
  updates :
      (name : Text) (f : VersionedComponentMeta → VersionedComponentMeta) (now : Text)
      → Step m (update_component_meta name f now m).1

pub data Reach (m : Manager) : Manager → Type 0 where
  here : Reach m m
  next : {k n : Manager} → Reach m k → Step k n → Reach m n

Step-IsConsistent : {m n : Manager} → IsConsistent m → Step m n → IsConsistent n
Step-IsConsistent {m} h (registers c now) = register-IsConsistent c now m h
Step-IsConsistent {m} h (registers_with c cs now) =
    (register_with_constraints-IsConsistent c cs now m h).1
Step-IsConsistent {m} h (unregisters name) = unregister-IsConsistent name m h
Step-IsConsistent {m} h (updates name f now) = update_component_meta-IsConsistent name f now m h

-- Whatever methods have run on a new manager, one after the other, every component has metadata
-- and stands under its own name, nothing else has metadata, and only components have constraints.
pub Reach-IsConsistent :
    (collector : Option Collector) {m : Manager} → Reach (new_manager collector) m → IsConsistent m
Reach-IsConsistent collector here = new_manager-IsConsistent collector
Reach-IsConsistent collector (next r s) = Step-IsConsistent (Reach-IsConsistent collector r) s
