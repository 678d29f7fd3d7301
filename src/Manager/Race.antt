-- ===== src/Manager/Race.antt =====
-- RegisterWithConstraints lets the mutex go between its two halves; here other calls come between.
use gochoreo.Common.{
  ◌≡◌, refl, ◌↔◌, false, none, some, List, arith, lookup, has, Bool-cases, inl, inr,
  lookup-insert_self, lookup-delete_self, ap,
}
use gochoreo.Text.{Text}
use gochoreo.Text.Equality.{text_key}
use gochoreo.Manager.{
  Manager, VersionedComponent, VersionConstraint, attach_constraints, unregister, register,
}
use gochoreo.Manager.Registry.{IsConsistent, attach_constraints-IsConsistent, register-has}
use gochoreo.Manager.Registration.{removed, unregister_there, attach_missing}

-- The second half panics exactly when the component is no longer registered.
pub attach_constraints-panics_iff :
    (name : Text) (cs : List VersionConstraint) (m : Manager)
    → IsConsistent m
    → ((attach_constraints name cs m).0 ≡ none) ↔ (has name m.components ≡ false)
attach_constraints-panics_iff name cs m h = elim (Bool-cases (has name m.components)) [
  | inl there ↦
      let (done, _) = attach_constraints-IsConsistent name cs m h there in (λ e. cc, λ e. cc)
  | inr gone ↦
      let missing : lookup name m.component_meta ≡ none = ground (arith, h.described name) in
      (λ e. gone, λ e. ap (λ r. r.0) (attach_missing name cs m missing))
]

attach_after_removal :
    (name : Text) (cs : List VersionConstraint) (n : Manager)
    → let (done, m) = attach_constraints name cs (removed name n) in
      (done ≡ none)
      × (lookup name m.constraints ≡ some cs)
      × (lookup name m.components ≡ none)
      × ¬ IsConsistent m
attach_after_removal name cs n =
    rw (attach_missing name cs (removed name n) (lookup-delete_self name n.component_meta)) (
      refl,
      lookup-insert_self name cs (removed name n).constraints,
      lookup-delete_self name n.components,
      λ h. ground (
        arith,
        h.constrained name,
        lookup-insert_self name cs (removed name n).constraints,
        lookup-delete_self name n.components,
      ),
    )

-- If another goroutine unregisters the component between the two halves, RegisterWithConstraints
-- panics on the missing metadata, and constraints stay behind for a name that is not registered.
pub attach_constraints-after_unregister :
    (c : VersionedComponent) (cs : List VersionConstraint) (now : Text) (m : Manager)
    → (register (some c) now m).0 ≡ none
    → let (done, m') =
        attach_constraints c.name cs (unregister c.name (register (some c) now m).1).1 in
      (done ≡ none)
      × (lookup c.name m'.constraints ≡ some cs)
      × (lookup c.name m'.components ≡ none)
      × ¬ IsConsistent m'
attach_constraints-after_unregister c cs now m e =
    rw (unregister_there c.name (register (some c) now m).1 (register-has c now m e))
      (attach_after_removal c.name cs (register (some c) now m).1)
