-- ===== src/Utils.antt =====
-- pkg/version/utils.go: sorting, filtering and choosing versions, and the summary of a list.
pub mod Choice
pub mod Groups
pub mod Matrix
pub mod Summary
mod Tests
use gochoreo.Common.{
  ℕ, suc, zero, Bool, true, false, not, ◌&&◌, ◌||◌, Option, none, some, List, [], ◌∷◌, ◌++◌, map,
  if◌then◌else◌, is_empty, filter, find, length, Map, lookup, insert, keys,
}
use gochoreo.Common.Int.{ℤ, pos, ltb_ℤ, eqb_ℤ, int_key}
use gochoreo.Text.{Text, codes, contains, to_lower}
use gochoreo.Sort.{SortPackage}
use gochoreo.Version.{
  Version, VersionRange, zero_version, compare, is_compatible, range_contains, to_string,
}
use gochoreo.Version.Order.{precedes}

-- VersionSorter.Less, and sort.Reverse of it
abbrev pub less : Version → Version → Bool
less v w = precedes v w

abbrev pub greater : Version → Version → Bool
greater v w = precedes w v

unfoldable pub filter_versions_by_major : List Version → ℤ → List Version
filter_versions_by_major versions major = filter (λ v. eqb_ℤ v.major major) versions

unfoldable pub filter_versions_by_range : List Version → VersionRange → List Version
filter_versions_by_range versions vrange = filter (range_contains vrange) versions

unfoldable pub version_string_slice : List Version → List Text
version_string_slice versions = map to_string versions

unfoldable pub is_newer_version : Version → Version → Bool
is_newer_version v1 v2 = ltb_ℤ (pos 0) (compare v1 v2)

unfoldable pub is_older_version : Version → Version → Bool
is_older_version v1 v2 = ltb_ℤ (compare v1 v2) (pos 0)

unfoldable pub is_same_version : Version → Version → Bool
is_same_version v1 v2 = eqb_ℤ (compare v1 v2) (pos 0)

-- `sorted[0]`; the callers have checked that there is one.
abbrev pub first_or_zero : List Version → Version
first_or_zero [] = zero_version
first_or_zero (v ∷ vs) = v

-- `majorMap[v.Major] = true` for every version; the keys are then sorted.
pub major_map : List Version → Map ℤ Bool → Map ℤ Bool
major_map [] seen = seen
major_map (v ∷ vs) seen = major_map vs (insert v.major true seen)

-- `groups[v.Major]`, nil for a missing key
abbrev pub group_of : ℤ → Map ℤ (List Version) → List Version
group_of major groups = elim (lookup major groups) [ none ↦ [] | some group ↦ group ]

pub collect_groups : List Version → Map ℤ (List Version) → Map ℤ (List Version)
collect_groups [] groups = groups
collect_groups (v ∷ vs) groups =
    collect_groups vs (insert v.major (group_of v.major groups ++ v ∷ []) groups)

module _ (p : SortPackage) where
  unfoldable pub sort_versions : List Version → List Version
  sort_versions versions = p.sort Version less versions

  unfoldable pub sort_versions_descending : List Version → List Version
  sort_versions_descending versions = p.sort Version greater versions

  unfoldable pub get_latest_version : List Version → Version
  get_latest_version versions =
      if is_empty versions then zero_version else first_or_zero (sort_versions_descending versions)

  unfoldable pub get_oldest_version : List Version → Version
  get_oldest_version versions =
      if is_empty versions then zero_version else first_or_zero (sort_versions versions)

  unfoldable pub find_closest_version : Version → List Version → Version
  find_closest_version target available =
      if is_empty available
      then zero_version
      else elim (find (λ v. eqb_ℤ (compare v target) (pos 0)) available) [
        | some v ↦ v
        | none ↦
            let compatible = filter (λ v. is_compatible v target) available in
            if not (is_empty compatible)
            then get_latest_version compatible
            else get_latest_version available
      ]

  unfoldable pub get_major_versions : List Version → List ℤ
  get_major_versions versions = p.sort ℤ ltb_ℤ (keys (major_map versions []))

  -- `for major, versionGroup := range groups { groups[major] = SortVersions(versionGroup) }`
  pub sort_groups : Map ℤ (List Version) → Map ℤ (List Version)
  sort_groups [] = []
  sort_groups ((major, group) ∷ groups) = (major, sort_versions group) ∷ sort_groups groups

  unfoldable pub group_versions_by_major : List Version → Map ℤ (List Version)
  group_versions_by_major versions = sort_groups (collect_groups versions [])
