-- ===== src/Utils/Matrix.antt =====
-- VersionCompatibilityMatrix (pkg/version/utils.go).
pub mod Listing
use gochoreo.Common.{
  ◌≡◌, refl, ◌≢◌, ◌↔◌, ◌⊎◌, inl, inr, Bool, true, false, not, ◌&&◌, Option, none, some, List, [],
  ◌∷◌, ◌++◌, arith, Mem, Bool-cases, Option-cases, Map, lookup, insert, lookup-insert,
  insert-Unique, Unique, ◌∙◌, if◌then◌else◌, ap, sym, is_some,
}
use gochoreo.Text.{Text, codes, text_eq, cut}
use gochoreo.Text.Equality.{text_key, text_eq_iff}
use gochoreo.Text.Parts.{Lacks, cut_middle, cut_sound}

-- component:version → component:version → compatible
abbrev pub VersionCompatibilityMatrix : Type 0
VersionCompatibilityMatrix = Map Text (Map Text Bool)

abbrev pub new_version_compatibility_matrix : VersionCompatibilityMatrix
new_version_compatibility_matrix = []

-- `fmt.Sprintf("%s:%s", component, version)`
unfoldable pub matrix_key : Text → Text → Text
matrix_key component version = component ++ b':' ∷ version

-- `vcm[key]`, nil for a missing key
abbrev pub row : Text → VersionCompatibilityMatrix → Map Text Bool
row key vcm = elim (lookup key vcm) [ none ↦ [] | some versions ↦ versions ]

unfoldable pub set_compatible :
    VersionCompatibilityMatrix → Text → Text → Text → Text → Bool → VersionCompatibilityMatrix
set_compatible vcm component1 version1 component2 version2 compatible =
    let key = matrix_key component1 version1 in
    let target_key = matrix_key component2 version2 in
    insert key (insert target_key compatible (row key vcm)) vcm

-- `versions[targetKey]`, false for a missing key
abbrev pub flag : Option Bool → Bool
flag none = false
flag (some b) = b

unfoldable pub matrix_is_compatible : VersionCompatibilityMatrix → Text → Text → Text → Text → Bool
matrix_is_compatible vcm component1 version1 component2 version2 =
    elim (lookup (matrix_key component1 version1) vcm) [
      | some versions ↦ flag (lookup (matrix_key component2 version2) versions)
      | none ↦ false
    ]

-- `result[component]`, nil for a missing key
abbrev pub listed : Text → Map Text (List Text) → List Text
listed component result = elim (lookup component result) [ none ↦ [] | some vs ↦ vs ]

-- `result[targetComponent] = append(result[targetComponent], targetVersion)`
abbrev pub append_to : Text → Text → Map Text (List Text) → Map Text (List Text)
append_to component version result =
    insert component (listed component result ++ version ∷ []) result

pub collect_compatible : Map Text Bool → Map Text (List Text) → Map Text (List Text)
collect_compatible [] result = result
collect_compatible ((target_key, compatible) ∷ versions) result = collect_compatible versions (
    if compatible
    then elim (cut target_key b':') [
      | some (component, version) ↦ append_to component version result
      | none ↦ result
    ]
    else result)

unfoldable pub matrix_get_compatible_versions :
    VersionCompatibilityMatrix → Text → Text → Map Text (List Text)
matrix_get_compatible_versions vcm component version =
    elim (lookup (matrix_key component version) vcm) [
      | some versions ↦ collect_compatible versions []
      | none ↦ []
    ]

-- Keys of components without a colon are told apart by both of their parts.
matrix_key-injective :
    (c d v w : Text)
    → Lacks b':' c
    → Lacks b':' d
    → matrix_key c v ≡ matrix_key d w
    → (c ≡ d) × (v ≡ w)
unfolding matrix_key
matrix_key-injective c d v w hc hd e =
    let same : ◌≡◌ {A = Option (Text × Text)} (some (c, v)) (some (d, w)) =
      sym (cut_middle b':' c v hc) ∙ ap (λ t. cut t b':') e ∙ cut_middle b':' d w hd in
    ground arith

matrix_key-eq :
    (c d v w : Text)
    → Lacks b':' c
    → Lacks b':' d
    → text_eq (matrix_key c v) (matrix_key d w) ≡ (text_eq c d && text_eq v w)
matrix_key-eq c d v w hc hd = ground (
  arith,
  text_eq_iff (matrix_key c v) (matrix_key d w),
  text_eq_iff c d,
  text_eq_iff v w,
  matrix_key-injective c d v w hc hd,
)

-- The flag at two keys.
abbrev flag_at : Text → Text → VersionCompatibilityMatrix → Bool
flag_at key target vcm = elim (lookup key vcm) [
  | some versions ↦ flag (lookup target versions)
  | none ↦ false
]

flag-row :
    (key target : Text) (vcm : VersionCompatibilityMatrix)
    → flag (lookup target (row key vcm)) ≡ flag_at key target vcm
flag-row key target vcm = elim (Option-cases (lookup key vcm)) [
  | inl missing ↦ rw (missing, row, flag_at) (unfold lookup in refl)
  | inr (versions, found) ↦ rw (found, row, flag_at)
]

flag_at-insert :
    (k t j s : Text) (b : Bool) (vcm : VersionCompatibilityMatrix)
    → flag_at j s (insert k (insert t b (row k vcm)) vcm)
      ≡ (if text_eq k j && text_eq t s then b else flag_at j s vcm)
flag_at-insert k t j s b vcm = ground (
  arith,
  lookup-insert k j (insert t b (row k vcm)) vcm,
  lookup-insert t s b (row k vcm),
  text_eq_iff k j,
  flag-row k s vcm,
)

-- After SetCompatible, IsCompatible gives the new flag at the four texts that were set and what it
-- gave before everywhere else, for components whose names hold no colon.
pub matrix_is_compatible-set_compatible :
    (vcm : VersionCompatibilityMatrix) (c1 v1 c2 v2 d1 w1 d2 w2 : Text) (b : Bool)
    → Lacks b':' c1
    → Lacks b':' c2
    → Lacks b':' d1
    → Lacks b':' d2
    → matrix_is_compatible (set_compatible vcm c1 v1 c2 v2 b) d1 w1 d2 w2 ≡ (
        if text_eq c1 d1 && text_eq v1 w1 && text_eq c2 d2 && text_eq v2 w2
        then b
        else matrix_is_compatible vcm d1 w1 d2 w2)
unfolding matrix_is_compatible set_compatible
matrix_is_compatible-set_compatible vcm c1 v1 c2 v2 d1 w1 d2 w2 b h1 h2 k1 k2 =
    flag_at-insert (matrix_key c1 v1) (matrix_key c2 v2) (matrix_key d1 w1) (matrix_key d2 w2) b vcm
    ∙ rw (matrix_key-eq c1 d1 v1 w1 h1 k1) (rw (matrix_key-eq c2 d2 v2 w2 h2 k2) (ground arith))

-- Every row of the matrix is a map.
abbrev pub RowsUnique : VersionCompatibilityMatrix → Type 0
RowsUnique vcm = (key : Text) → Unique (row key vcm)

pub set_compatible-RowsUnique :
    (vcm : VersionCompatibilityMatrix) (c1 v1 c2 v2 : Text) (b : Bool)
    → RowsUnique vcm
    → RowsUnique (set_compatible vcm c1 v1 c2 v2 b)
unfolding set_compatible
set_compatible-RowsUnique vcm c1 v1 c2 v2 b u key = ground (
  arith,
  lookup-insert (matrix_key c1 v1) key (insert (matrix_key c2 v2) b (row (matrix_key c1 v1) vcm))
      vcm,
  insert-Unique (matrix_key c2 v2) b (row (matrix_key c1 v1) vcm) (u (matrix_key c1 v1)),
  u key,
)
