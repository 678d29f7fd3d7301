-- ===== src/Version/Parse.antt =====
-- ParseVersion, MustParseVersion (pkg/version/version.go), ValidateVersionString and
-- ParseVersionSlice (pkg/version/utils.go).
pub mod RoundTrip
pub mod Total
use gochoreo.Common.{
  Bool, true, false, not, ◌&&◌, ◌||◌, Option, none, some, List, [], ◌∷◌, ◌++◌, if◌then◌else◌,
  is_empty, get_elem?,
}
use gochoreo.Common.Int.{ℤ, pos}
use gochoreo.Text.{Text, codes, text_eq, trim_prefix, to_lower, contains, split, cut}
use gochoreo.Text.Decimal.{atoi}
use gochoreo.Version.{Version, zero_version, is_zero}

-- `Version{Version: version}`
abbrev pub raw_version : Text → Version
raw_version version = record zero_version { version = version }

-- The `switch` on the lower-cased text.
unfoldable pub is_alias : Text → Bool
is_alias version =
    text_eq (to_lower version) (codes "latest") || text_eq (to_lower version) (codes "current")

-- What is left of the first "-", and what is right of it; no label without a "-".
unfoldable pub split_label : Text → Text × Text
split_label clean =
    if contains clean (codes "-")
    then elim (cut clean b'-') [ some (before, after) ↦ (before, after) | none ↦ (clean, []) ]
    else (clean, [])

-- `minor` and `patch`: 0 where the part is missing or no number.
abbrev pub number_or_zero : Option Text → ℤ
number_or_zero none = pos 0
number_or_zero (some part) = elim (atoi part) [ some n ↦ n | none ↦ pos 0 ]

-- `major`, whose failure ends the parse; the first of the parts is always there.
abbrev pub first_number : Option Text → Option ℤ
first_number none = some (pos 0)
first_number (some part) = atoi part

-- The three parts as numbers.
unfoldable pub parse_parts : Text → Text → List Text → Version
parse_parts version label parts = elim (first_number (get_elem? parts 0)) [
  | none ↦ raw_version version
  | some major ↦ record {
    version = version;
    major = major;
    minor = number_or_zero (get_elem? parts 1);
    patch = number_or_zero (get_elem? parts 2);
    label = label;
  }
]

unfoldable pub parse_version : Text → Version
parse_version version =
    if is_empty version
    then zero_version
    else if is_alias version
    then raw_version version
    else let (clean, label) = split_label (trim_prefix version (codes "v")) in
      parse_parts version label (split clean (codes "."))

-- `none` is the panic.
unfoldable pub must_parse_version : Text → Option Version
must_parse_version version =
    let v = parse_version version in if is_zero v && not (is_empty version) then none else some v

-- `none` is the nil error, `some` the error's text.
unfoldable pub validate_version_string : Text → Option Text
validate_version_string version =
    if is_zero (parse_version version) && not (is_empty version)
    then some (codes "invalid version format: " ++ version)
    else none

unfoldable pub parse_version_slice : List Text → List Version
parse_version_slice [] = []
parse_version_slice (str ∷ strs) =
    if not (is_zero (parse_version str))
    then parse_version str ∷ parse_version_slice strs
    else parse_version_slice strs
