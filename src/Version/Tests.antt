-- ===== src/Version/Tests.antt =====
-- The theorems on versions at concrete versions and texts.
use gochoreo.Common.{◌≡◌, [], ◌∷◌, ◌↔◌, arith}
use gochoreo.Common.Int.{pos, negsuc}
use gochoreo.Text.{codes}
use gochoreo.Version.{
  Version, new_version, new_version_with_label, to_string, compare, VersionRange, new_version_range,
  new_exact_versions,
}
use gochoreo.Version.Parse.{parse_version}
use gochoreo.Version.Parse.RoundTrip.{parse_version-to_string}
use gochoreo.Version.Parse.Total.{parse_version-HasNumbers, HasNumbers}
use gochoreo.Version.Order.{compare_lem, Precedes, SameNumbers}

abbrev v1_2_3 : Version
v1_2_3 = new_version (pos 1) (pos 2) (pos 3)

abbrev v1_9_0 : Version
v1_9_0 = new_version (pos 1) (pos 9) (pos 0)

abbrev v2_0_0 : Version
v2_0_0 = new_version (pos 2) (pos 0) (pos 0)

abbrev one_to_two : VersionRange
one_to_two = new_version_range v1_2_3 v2_0_0

abbrev two_exact : VersionRange
two_exact = new_exact_versions (v1_2_3 ∷ v2_0_0 ∷ [])

parse_version-to_string_example :
    let v = new_version_with_label (pos 1) (pos 20) (pos 3) (codes "beta-2") in
    parse_version (to_string v) ≡ v
parse_version-to_string_example =
    parse_version-to_string 1 20 3 (codes "beta-2") (omega arith) (omega arith) (omega arith)

parse_version-HasNumbers_example : HasNumbers (parse_version (codes "v1.-2.3"))
parse_version-HasNumbers_example = parse_version-HasNumbers (codes "v1.-2.3")

compare_lem_example :
    ((compare v1_2_3 v1_9_0 ≡ negsuc 0) ↔ Precedes v1_2_3 v1_9_0)
    × ((compare v1_2_3 v1_9_0 ≡ pos 1) ↔ Precedes v1_9_0 v1_2_3)
    × ((compare v1_2_3 v1_9_0 ≡ pos 0) ↔ SameNumbers v1_2_3 v1_9_0)
compare_lem_example = compare_lem v1_2_3 v1_9_0
