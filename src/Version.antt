-- ===== src/Version.antt =====
-- pkg/version/version.go: the type Version and its methods, VersionRange, and the constructors.
pub mod Parse
pub mod Order
pub mod Range
mod Tests
use gochoreo.Common.{
  ℕ, zero, suc, Bool, true, false, not, ◌&&◌, ◌||◌, Option, none, some, List, [], ◌∷◌, ◌++◌, map,
  if◌then◌else◌, is_empty, any,
}
use gochoreo.Common.Int.{ℤ, pos, negsuc, ltb_ℤ, eqb_ℤ}
use gochoreo.Text.{Text, codes, join}
use gochoreo.Text.Decimal.{format_int}

pub record Version : Type 0 where
  pub version : Text
  pub major : ℤ
  pub minor : ℤ
  pub patch : ℤ
  pub label : Text

-- The literal `Version{}`.
abbrev pub zero_version : Version
zero_version = record { version = []; major = pos 0; minor = pos 0; patch = pos 0; label = [] }

-- `fmt.Sprintf("v%d.%d.%d", major, minor, patch)`
unfoldable pub format_triple : ℤ → ℤ → ℤ → Text
format_triple major minor patch =
    b'v' ∷ (format_int major ++ b'.' ∷ (format_int minor ++ b'.' ∷ format_int patch))

-- `fmt.Sprintf("%s-%s", base, label)`
unfoldable pub with_label : Text → Text → Text
with_label base label = base ++ b'-' ∷ label

-- Version.String
unfoldable pub to_string : Version → Text
to_string v =
    if not (is_empty v.version)
    then v.version
    else let base = format_triple v.major v.minor v.patch in
      if not (is_empty v.label) then with_label base v.label else base

unfoldable pub is_zero : Version → Bool
is_zero v =
    is_empty v.version && eqb_ℤ v.major (pos 0) && eqb_ℤ v.minor (pos 0) && eqb_ℤ v.patch (pos 0)

-- Version.Compare: -1, 0 or 1
unfoldable pub compare : Version → Version → ℤ
compare v other =
    if not (eqb_ℤ v.major other.major)
    then (if ltb_ℤ v.major other.major then negsuc 0 else pos 1)
    else if not (eqb_ℤ v.minor other.minor)
    then (if ltb_ℤ v.minor other.minor then negsuc 0 else pos 1)
    else if not (eqb_ℤ v.patch other.patch)
    then (if ltb_ℤ v.patch other.patch then negsuc 0 else pos 1)
    else pos 0

unfoldable pub is_compatible : Version → Version → Bool
is_compatible v other =
    if not (eqb_ℤ v.major other.major) then false else not (ltb_ℤ (compare v other) (pos 0))

unfoldable pub is_major_breaking : Version → Version → Bool
is_major_breaking v other = ltb_ℤ other.major v.major

unfoldable pub is_minor_upgrade : Version → Version → Bool
is_minor_upgrade v other = eqb_ℤ v.major other.major && ltb_ℤ other.minor v.minor

unfoldable pub is_patch_upgrade : Version → Version → Bool
is_patch_upgrade v other =
    eqb_ℤ v.major other.major && eqb_ℤ v.minor other.minor && ltb_ℤ other.patch v.patch

unfoldable pub new_version : ℤ → ℤ → ℤ → Version
new_version major minor patch = record {
  version = format_triple major minor patch;
  major = major;
  minor = minor;
  patch = patch;
  label = [];
}

unfoldable pub new_version_with_label : ℤ → ℤ → ℤ → Text → Version
new_version_with_label major minor patch label =
    let base = format_triple major minor patch in
    record {
      version = if not (is_empty label) then with_label base label else base;
      major = major;
      minor = minor;
      patch = patch;
      label = label;
    }

unfoldable pub default_version : Version
default_version = record {
  version = codes "v1.0.0";
  major = pos 1;
  minor = pos 0;
  patch = pos 0;
  label = [];
}

pub record VersionRange : Type 0 where
  pub min : Version
  pub max : Version
  pub exact : List Version

unfoldable pub new_version_range : Version → Version → VersionRange
new_version_range min max = record { min = min; max = max; exact = [] }

unfoldable pub new_exact_versions : List Version → VersionRange
new_exact_versions versions = record { min = zero_version; max = zero_version; exact = versions }

-- The test on the three numbers that the code writes out in place of Compare.
abbrev pub same_numbers : Version → Version → Bool
same_numbers v w = eqb_ℤ v.major w.major && eqb_ℤ v.minor w.minor && eqb_ℤ v.patch w.patch

-- VersionRange.Contains
unfoldable pub range_contains : VersionRange → Version → Bool
range_contains vr version =
    if not (is_empty vr.exact)
    then any (λ v. same_numbers v version) vr.exact
    else if not (is_zero vr.min) && ltb_ℤ (compare version vr.min) (pos 0)
    then false
    else if not (is_zero vr.max) && ltb_ℤ (pos 0) (compare version vr.max)
    then false
    else true

-- VersionRange.Versions
unfoldable pub range_versions : VersionRange → List Version
range_versions vr =
    if not (is_empty vr.exact)
    then vr.exact
    else if not (is_zero vr.min) && not (is_zero vr.max)
    then vr.min ∷ vr.max ∷ []
    else []

-- VersionRange.String
unfoldable pub range_to_string : VersionRange → Text
range_to_string vr =
    if not (is_empty vr.exact)
    then join (codes ", ") (map to_string vr.exact)
    else if not (is_zero vr.min) && not (is_zero vr.max)
    then to_string vr.min ++ (codes " - " ++ to_string vr.max)
    else if not (is_zero vr.min)
    then codes ">= " ++ to_string vr.min
    else if not (is_zero vr.max)
    then codes "<= " ++ to_string vr.max
    else codes "any"
