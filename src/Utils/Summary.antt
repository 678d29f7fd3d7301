-- ===== src/Utils/Summary.antt =====
-- GetVersionSummary (pkg/version/utils.go).
use mathlib.Core.List.{append-nil, append_assoc}
use gochoreo.Common.{
  ℕ, ◌≡◌, refl, Bool, ◌||◌, none, some, List, [], ◌∷◌, ◌++◌, map, filter, length, is_empty,
  if◌then◌else◌, Map, lookup, Bool-cases, inl, inr, arith, ◌∙◌, sym,
}
use gochoreo.Common.Int.{ℤ, int_key}
use gochoreo.Sort.{SortPackage}
use gochoreo.Text.{Text, codes, contains, to_lower}
use gochoreo.Version.{Version, to_string}
use gochoreo.Utils.{
  version_string_slice, get_latest_version, get_oldest_version, get_major_versions,
  group_versions_by_major, filter_versions_by_major, sort_versions,
}
use gochoreo.Utils.Groups.{lookup-group_versions_by_major}

-- A slice that is nil is empty.
pub record VersionSummary : Type 0 where
  pub total_versions : ℕ
  pub latest_version : Text
  pub oldest_version : Text
  pub major_versions : List ℤ
  pub versions_by_major : Map ℤ (List Text)
  pub deprecated_versions : List Text
  pub beta_versions : List Text

-- The loop over the groups; the keys of a map differ, so each round adds an entry.
unfoldable pub group_texts : Map ℤ (List Version) → Map ℤ (List Text)
group_texts [] = []
group_texts ((major, group) ∷ groups) = (major, version_string_slice group) ∷ group_texts groups

abbrev pub is_beta : Version → Bool
is_beta v =
    contains (to_lower v.label) (codes "beta") || contains (to_lower v.version) (codes "beta")

-- The loop that collects the beta versions.
unfoldable pub collect_beta : List Version → List Text → List Text
collect_beta [] beta = beta
collect_beta (v ∷ vs) beta = collect_beta vs (if is_beta v then beta ++ to_string v ∷ [] else beta)

unfoldable pub get_version_summary : SortPackage → List Version → List Version → VersionSummary
get_version_summary p versions deprecated =
    if is_empty versions
    then record {
      total_versions = 0;
      latest_version = [];
      oldest_version = [];
      major_versions = [];
      versions_by_major = [];
      deprecated_versions = [];
      beta_versions = [];
    }
    else record {
      total_versions = length versions;
      latest_version = to_string (get_latest_version p versions);
      oldest_version = to_string (get_oldest_version p versions);
      major_versions = get_major_versions p versions;
      versions_by_major = group_texts (group_versions_by_major p versions);
      deprecated_versions = version_string_slice deprecated;
      beta_versions = collect_beta versions [];
    }

lookup-group_texts :
    (major : ℤ) (groups : Map ℤ (List Version))
    → lookup major (group_texts groups)
      ≡ elim (lookup major groups) [ none ↦ none | some group ↦ some (version_string_slice group) ]
unfolding group_texts lookup
lookup-group_texts major [] = refl
lookup-group_texts major ((j, group) ∷ groups) = ground (arith, lookup-group_texts major groups)

collect_beta_lem :
    (versions : List Version) (beta : List Text)
    → collect_beta versions beta ≡ beta ++ map to_string (filter is_beta versions)
unfolding collect_beta
collect_beta_lem [] beta = sym (append-nil beta)
collect_beta_lem (v ∷ vs) beta = elim (Bool-cases (is_beta v)) [
  | inl beta_one ↦
      rw (beta_one, collect_beta, filter)
        (collect_beta_lem vs (beta ++ to_string v ∷ [])
          ∙ append_assoc beta (to_string v ∷ []) (map to_string (filter is_beta vs)))
  | inr plain ↦ rw (plain, collect_beta, filter) (collect_beta_lem vs beta)
]

-- A summary counts the versions, lists the texts of exactly those whose label or text holds "beta",
-- in order, and has under a major number the texts of the sorted versions with it, or no entry if
-- there is none.
pub get_version_summary_lem :
    (p : SortPackage) (versions deprecated : List Version) (major : ℤ)
    → let summary = get_version_summary p versions deprecated in
      let group = filter_versions_by_major versions major in
      (summary.total_versions ≡ length versions)
      × (summary.beta_versions ≡ map to_string (filter is_beta versions))
      × (lookup major summary.versions_by_major
          ≡ (if is_empty group then none else some (version_string_slice (sort_versions p group))))
unfolding get_version_summary
get_version_summary_lem p [] deprecated major =
    (refl, refl, unfold lookup filter_versions_by_major in refl)
get_version_summary_lem p (v ∷ vs) deprecated major = (
  refl,
  collect_beta_lem (v ∷ vs) [],
  lookup-group_texts major (group_versions_by_major p (v ∷ vs))
      ∙ rw (lookup-group_versions_by_major p major (v ∷ vs))
          (elim (Bool-cases (is_empty (filter_versions_by_major (v ∷ vs) major))) [
            | inl none_there ↦ rw none_there refl
            | inr some_there ↦ rw some_there refl
          ]),
)
