-- ===== src/Utils/Matrix/Listing.antt =====
-- GetCompatibleVersions lists what IsCompatible accepts.
use gochoreo.Common.{
  ◌≡◌, ◌↔◌, ◌⊎◌, inl, inr, Bool, true, false, none, some, List, [], ◌∷◌, ◌++◌, arith, Mem,
  Option-cases, Map, lookup, lookup-insert, lookup-nil, ◌∙◌, if◌then◌else◌, ap, Unique, subst,
}
use gochoreo.Text.{Text, cut}
use gochoreo.Text.Equality.{text_key, text_eq_iff}
use gochoreo.Text.Parts.{Lacks, cut_middle, cut_sound}
use gochoreo.Utils.Matrix.{
  VersionCompatibilityMatrix, matrix_key, matrix_is_compatible, matrix_get_compatible_versions,
  RowsUnique, collect_compatible, append_to, listed, flag,
}

-- Some entry of the row is true and its key splits into the component and the version.
abbrev Offers : Text → Text → Map Text Bool → Type 0
Offers c v [] = ⊥
Offers c v ((key, b) ∷ versions) = ((b ≡ true) × (cut key b':' ≡ some (c, v))) ⊎ Offers c v versions

Mem-append_iff : (v w : Text) (vs : List Text) → Mem v (vs ++ w ∷ []) ↔ (Mem v vs ⊎ (v ≡ w))
Mem-append_iff v w [] = ground arith
Mem-append_iff v w (x ∷ vs) = ground (arith, Mem-append_iff v w vs)

listed-append_to :
    (c d v w : Text) (result : Map Text (List Text))
    → Mem v (listed c (append_to d w result)) ↔ (Mem v (listed c result) ⊎ ((d ≡ c) × (v ≡ w)))
listed-append_to c d v w result = ground (
  arith,
  lookup-insert d c (listed d result ++ w ∷ []) result,
  text_eq_iff d c,
  Mem-append_iff v w (listed d result),
)

-- One round of the loop.
abbrev round : Text → Bool → Map Text (List Text) → Map Text (List Text)
round key b result =
    if b
    then elim (cut key b':') [
      | some (component, version) ↦ append_to component version result
      | none ↦ result
    ]
    else result

listed-round :
    (c v key : Text) (b : Bool) (result : Map Text (List Text))
    → Mem v (listed c (round key b result))
      ↔ (Mem v (listed c result) ⊎ ((b ≡ true) × (cut key b':' ≡ some (c, v))))
listed-round c v key false result = ground arith
listed-round c v key true result = elim (Option-cases (cut key b':')) [
  | inl missing ↦ rw missing (ground arith)
  | inr ((d, w), found) ↦ rw found (ground (arith, listed-append_to c d v w result))
]

listed-collect :
    (c v : Text) (versions : Map Text Bool) (result : Map Text (List Text))
    → Mem v (listed c (collect_compatible versions result))
      ↔ (Mem v (listed c result) ⊎ Offers c v versions)
unfolding collect_compatible
listed-collect c v [] result = ground arith
listed-collect c v ((key, b) ∷ versions) result =
    ground (arith, listed-collect c v versions (round key b result), listed-round c v key b result)

cut_iff : (key c v : Text) → Lacks b':' c → (cut key b':' ≡ some (c, v)) ↔ (key ≡ matrix_key c v)
unfolding matrix_key
cut_iff key c v h =
    (λ e. (cut_sound key b':' c v e).0, λ e. ap (λ t. cut t b':') e ∙ cut_middle b':' c v h)

Offers-iff :
    (c v : Text) (versions : Map Text Bool)
    → Lacks b':' c
    → Unique versions
    → Offers c v versions ↔ (flag (lookup (matrix_key c v) versions) ≡ true)
unfolding lookup
Offers-iff c v [] h u = (λ x. absurd x, λ e. cc)
Offers-iff c v ((key, b) ∷ versions) h u =
    ground
      (arith, Offers-iff c v versions h u.1, cut_iff key c v h, text_eq_iff key (matrix_key c v))

-- For a component whose name holds no colon, GetCompatibleVersions lists a version under it exactly
-- when IsCompatible accepts the pair, whatever the order of iteration.
pub listed-get_compatible_versions :
    (vcm : VersionCompatibilityMatrix) (component version c v : Text)
    → RowsUnique vcm
    → Lacks b':' c
    → Mem v (listed c (matrix_get_compatible_versions vcm component version))
      ↔ (matrix_is_compatible vcm component version c v ≡ true)
unfolding matrix_get_compatible_versions matrix_is_compatible
listed-get_compatible_versions vcm component version c v u h =
    elim (Option-cases (lookup (matrix_key component version) vcm)) [
      | inl missing ↦ ground (arith, lookup-nil {V = List Text} c)
      | inr (versions, found) ↦
          let unique : Unique versions =
            subst (λ o. Unique (elim o [ none ↦ [] | some vs ↦ vs ])) found
              (u (matrix_key component version)) in
          ground (
            arith,
            lookup-nil {V = List Text} c,
            listed-collect c v versions [],
            Offers-iff c v versions h unique,
          )
    ]
