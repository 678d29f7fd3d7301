-- ===== src/Manager/Constraints.antt =====
-- CheckCompatibility.
use gochoreo.Common.{
  ◌≡◌, refl, ◌≢◌, ◌↔◌, inl, inr, true, false, Option, none, some, List, [], ◌∷◌, ◌++◌, arith,
  if◌then◌else◌, Map, lookup, All, Option-cases, Bool-cases, not, ◌∙◌, sym, subst,
}
use gochoreo.Text.{Text, codes}
use gochoreo.Text.Equality.{text_key}
use gochoreo.Version.{Version, to_string, range_contains, range_to_string, same_numbers}
use gochoreo.Version.Order.{SameNumbers}
use gochoreo.Version.Range.{same_numbers_iff}
use gochoreo.Errors.{GoError, plain}
use gochoreo.Manager.{Manager, VersionConstraint}

-- "component 'c' version v"
abbrev pub subject : Text → Version → Text
subject name version = codes "component '" ++ (name ++ (codes "' version " ++ to_string version))

unfoldable pub range_error : Text → Version → VersionConstraint → Version → GoError
range_error name version constraint got = plain (
    subject name version
    ++ (codes " requires '"
        ++ (constraint.component
            ++ (codes "' version in range "
                ++ (range_to_string constraint.requires
                    ++ (codes ", but got " ++ to_string got))))))

unfoldable pub conflict_error : Text → Version → Text → Version → GoError
conflict_error name version required conflict = plain (
    subject name version
    ++ (codes " conflicts with '" ++ (required ++ (codes "' version " ++ to_string conflict))))

-- The loop over `constraint.Conflicts`.
unfoldable pub check_conflicts : Text → Version → Text → Version → List Version → Option GoError
check_conflicts name version required got [] = none
check_conflicts name version required got (conflict ∷ conflicts) =
    if same_numbers got conflict
    then some (conflict_error name version required conflict)
    else check_conflicts name version required got conflicts

-- The body of the loop over the constraints.
unfoldable pub check_constraint :
    Map Text Version → Text → Version → VersionConstraint → Option GoError
check_constraint versions name version constraint = elim (lookup constraint.component versions) [
  | none ↦ none
  | some got ↦
      if not (range_contains constraint.requires got)
      then some (range_error name version constraint got)
      else check_conflicts name version constraint.component got constraint.conflicts
]

-- `if err != nil { return err }`, then the rest
abbrev pub or_else : Option GoError → Option GoError → Option GoError
or_else none rest = rest
or_else (some e) rest = some e

unfoldable pub check_constraints :
    Map Text Version → Text → Version → List VersionConstraint → Option GoError
check_constraints versions name version [] = none
check_constraints versions name version (constraint ∷ constraints) =
    or_else (check_constraint versions name version constraint)
      (check_constraints versions name version constraints)

-- The body of that loop: a component without an entry has no constraints to check.
unfoldable pub check_entry :
    Map Text Version → Map Text (List VersionConstraint) → Text → Version → Option GoError
check_entry versions constraints name version = elim (lookup name constraints) [
  | none ↦ none
  | some cs ↦ check_constraints versions name version cs
]

-- The loop over the given components, in the order of the map.
unfoldable pub check_components :
    Map Text Version → Map Text (List VersionConstraint) → Map Text Version → Option GoError
check_components versions constraints [] = none
check_components versions constraints ((name, version) ∷ entries) =
    or_else (check_entry versions constraints name version)
      (check_components versions constraints entries)

unfoldable pub check_compatibility : Map Text Version → Manager → Option GoError
check_compatibility versions m = check_components versions m.constraints versions

-- What a constraint asks of the given versions.
abbrev pub Satisfies : Map Text Version → VersionConstraint → Type 0
Satisfies versions constraint =
    (got : Version)
    → lookup constraint.component versions ≡ some got
    → (range_contains constraint.requires got ≡ true)
      × All (λ conflict. ¬ SameNumbers got conflict) constraint.conflicts

-- The constraints of a component, none if it has no entry.
abbrev pub constraints_of : Text → Map Text (List VersionConstraint) → List VersionConstraint
constraints_of name constraints = elim (lookup name constraints) [ none ↦ [] | some cs ↦ cs ]

check_conflicts_iff :
    (name : Text) (version : Version) (required : Text) (got : Version) (conflicts : List Version)
    → (check_conflicts name version required got conflicts ≡ none)
      ↔ All (λ conflict. ¬ SameNumbers got conflict) conflicts
unfolding check_conflicts
check_conflicts_iff name version required got [] = (λ e. tt, λ h. refl)
check_conflicts_iff name version required got (c ∷ cs) = elim (Bool-cases (same_numbers got c)) [
  | inl same ↦ rw same (λ e. cc, λ h. absurd (h.0 ((same_numbers_iff got c).0 same)))
  | inr other ↦
      let (to, from) = check_conflicts_iff name version required got cs in
      rw other ((λ e. ((λ s. ground (arith, (same_numbers_iff got c).1 s)), to e)), λ h. from h.1)
]

abbrev IsAccepted : VersionConstraint → Version → Type 0
IsAccepted c got =
    (range_contains c.requires got ≡ true)
    × All (λ conflict. ¬ SameNumbers got conflict) c.conflicts

some_inj : (v w : Version) → some v ≡ some w → v ≡ w
some_inj v w h = cc

rejects :
    (versions : Map Text Version) (name : Text) (version : Version) (c : VersionConstraint)
    (got : Version)
    → lookup c.component versions ≡ some got
    → range_contains c.requires got ≡ false
    → check_constraint versions name version c ≢ none
unfolding check_constraint
rejects versions name version c got given outside = ground arith

check_constraint_iff :
    (versions : Map Text Version) (name : Text) (version : Version) (c : VersionConstraint)
    → (check_constraint versions name version c ≡ none) ↔ Satisfies versions c
unfolding check_constraint
check_constraint_iff versions name version c = elim (Option-cases (lookup c.component versions)) [
  | inl missing ↦ ((λ e got h. cc), λ s. ground arith)
  | inr (got, given) ↦
      let (to, from) = check_conflicts_iff name version c.component got c.conflicts in
      elim (Bool-cases (range_contains c.requires got)) [
        | inr outside ↦ (
          (λ e. absurd (rejects versions name version c got given outside e)),
          λ s. cc ((s got given).0),
        )
        | inl inside ↦ (
          (λ e g h.
              subst (λ x. IsAccepted c x) (some_inj got g (sym given ∙ h))
                (inside, to (ground arith))),
          λ s. ground (arith, from (s got given).1),
        )
      ]
]

check_constraints_iff :
    (versions : Map Text Version) (name : Text) (version : Version) (cs : List VersionConstraint)
    → (check_constraints versions name version cs ≡ none) ↔ All (Satisfies versions) cs
unfolding check_constraints
check_constraints_iff versions name version [] = (λ e. tt, λ h. refl)
check_constraints_iff versions name version (c ∷ cs) =
    let (to, from) = check_constraint_iff versions name version c in
    let (to', from') = check_constraints_iff versions name version cs in
    elim (Option-cases (check_constraint versions name version c)) [
      | inl fine ↦ ((λ e. (to fine, to' (ground arith))), λ h. ground (arith, from' h.1))
      | inr (err, bad) ↦
          let stops : check_constraints versions name version (c ∷ cs) ≢ none = ground arith in
          ((λ e. absurd (stops e)), λ h. cc (from h.0))
    ]

entry_iff :
    (versions : Map Text Version) (constraints : Map Text (List VersionConstraint)) (name : Text)
    (version : Version)
    → (check_entry versions constraints name version ≡ none)
      ↔ All (Satisfies versions) (constraints_of name constraints)
unfolding check_entry
entry_iff versions constraints name version = elim (Option-cases (lookup name constraints)) [
  | inl missing ↦ rw (missing, check_entry, constraints_of) ((λ e. tt), λ h. refl)
  | inr (cs, given) ↦
      rw (given, check_entry, constraints_of) (check_constraints_iff versions name version cs)
]

or_else_iff : (a b : Option GoError) → (or_else a b ≡ none) ↔ ((a ≡ none) × (b ≡ none))
or_else_iff none b = ((λ e. (refl, e)), λ h. h.1)
or_else_iff (some e) b = ((λ x. cc), λ h. cc)

check_components_iff :
    (versions : Map Text Version) (constraints : Map Text (List VersionConstraint))
    (entries : Map Text Version)
    → (check_components versions constraints entries ≡ none)
      ↔ All (λ e. All (Satisfies versions) (constraints_of e.0 constraints)) entries
unfolding check_components
check_components_iff versions constraints [] = ((λ e. tt), λ h. refl)
check_components_iff versions constraints ((name, version) ∷ entries) =
    let (to, from) = entry_iff versions constraints name version in
    let (to', from') = check_components_iff versions constraints entries in
    let (split, join) =
      or_else_iff (check_entry versions constraints name version)
        (check_components versions constraints entries) in
    ((λ e. (to (split e).0, to' (split e).1)), λ h. join (from h.0, from' h.1))

-- CheckCompatibility returns no error exactly when every constraint of every given component is
-- satisfied: if the component that it names is given too, the version given for that one lies in the
-- required range and has the three numbers of no conflicting version. The order of the map does not
-- matter.
pub check_compatibility_iff :
    (versions : Map Text Version) (m : Manager)
    → (check_compatibility versions m ≡ none)
      ↔ All (λ e. All (Satisfies versions) (constraints_of e.0 m.constraints)) versions
unfolding check_compatibility
check_compatibility_iff versions m = check_components_iff versions m.constraints versions
