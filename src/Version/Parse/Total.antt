-- ===== src/Version/Parse/Total.antt =====
-- What ParseVersion returns on every text.
use gochoreo.Common.{
  ℕ, zero, suc, ◌≤◌, ◌≡◌, refl, not, Option, none, some, List, [], ◌∷◌, arith, All, Bool-cases,
  Option-cases, inl, inr, is_empty, get_elem?, filter, map, ◌==◌,
}
use gochoreo.Common.Int.{ℤ, pos, negsuc}
use gochoreo.Text.{Text, codes, contains, trim_prefix}
use gochoreo.Text.Decimal.{atoi, max_int, scan_all, in_range}
use gochoreo.Text.Parts.{Lacks, cut_sound, cut_of_contains, split-Lacks, Lacks-of_not-contains}
use gochoreo.Version.{Version, is_zero}
use gochoreo.Version.Parse.{
  parse_version, parse_parts, split_label, is_alias, number_or_zero, must_parse_version,
  validate_version_string, parse_version_slice, first_number,
}

parse_parts-version : (t label : Text) (parts : List Text) → (parse_parts t label parts).version ≡ t
unfolding parse_parts
parse_parts-version t label parts = ground arith

-- The text is kept.
pub parse_version-version : (s : Text) → (parse_version s).version ≡ s
unfolding parse_version
parse_version-version s = grind (arith, parse_parts-version)

-- Only the empty text parses to the zero version.
pub is_zero-parse_version : (s : Text) → is_zero (parse_version s) ≡ is_empty s
unfolding is_zero
is_zero-parse_version [] = unfold parse_version in refl
is_zero-parse_version (c ∷ s) = rw (parse_version-version (c ∷ s))

-- MustParseVersion never panics: it returns what ParseVersion returns, on every text.
pub must_parse_version-eq-some : (s : Text) → must_parse_version s ≡ some (parse_version s)
unfolding must_parse_version
must_parse_version-eq-some s = rw (is_zero-parse_version s) (ground arith)

-- ValidateVersionString accepts every text.
pub validate_version_string-eq-none : (s : Text) → validate_version_string s ≡ none
unfolding validate_version_string
validate_version_string-eq-none s = rw (is_zero-parse_version s) (ground arith)

-- ParseVersionSlice parses the texts in order and leaves out the empty ones, and nothing else.
pub parse_version_slice_lem :
    (strs : List Text)
    → parse_version_slice strs ≡ map parse_version (filter (λ s. not (is_empty s)) strs)
unfolding parse_version_slice
parse_version_slice_lem [] = refl
parse_version_slice_lem (s ∷ strs) =
    ground (arith, is_zero-parse_version s, parse_version_slice_lem strs)

-- A number that a parsed version holds.
abbrev pub IsNumber : ℤ → Type 0
IsNumber (pos n) = n ≤ max_int
IsNumber (negsuc n) = ⊥

abbrev pub HasNumbers : Version → Type 0
HasNumbers v = IsNumber v.major × IsNumber v.minor × IsNumber v.patch

in_range-IsNumber : (o : Option ℕ) (z : ℤ) → in_range o ≡ some z → IsNumber z
in_range-IsNumber o (pos n) e = ground arith
in_range-IsNumber o (negsuc n) e = ground arith

-- Without a "-" sign there is no negative result.
atoi-IsNumber : (s : Text) (z : ℤ) → Lacks b'-' s → atoi s ≡ some z → IsNumber z
unfolding atoi
atoi-IsNumber [] z h e = cc
atoi-IsNumber (c ∷ s) z h e = elim (Bool-cases (c == b'+')) [
  | inl plus ↦ in_range-IsNumber (scan_all s) z (ground arith)
  | inr plain ↦ in_range-IsNumber (scan_all (c ∷ s)) z (ground arith)
]

number_or_zero-IsNumber :
    (i : ℕ) (parts : List Text)
    → All (Lacks b'-') parts
    → IsNumber (number_or_zero (get_elem? parts i))
number_or_zero-IsNumber i [] h = omega arith
number_or_zero-IsNumber zero (p ∷ parts) h = elim (Option-cases (atoi p)) [
  | inl bad ↦ rw (bad, number_or_zero) (omega arith)
  | inr (z, good) ↦ rw (good, number_or_zero) (atoi-IsNumber p z h.0 good)
]
number_or_zero-IsNumber (suc i) (p ∷ parts) h = number_or_zero-IsNumber i parts h.1

first_number-IsNumber :
    (parts : List Text) (z : ℤ)
    → All (Lacks b'-') parts
    → first_number (get_elem? parts 0) ≡ some z
    → IsNumber z
first_number-IsNumber [] (pos n) h e = ground arith
first_number-IsNumber [] (negsuc n) h e = cc
first_number-IsNumber (p ∷ parts) z h e = atoi-IsNumber p z h.0 e

parse_parts-HasNumbers :
    (t label : Text) (parts : List Text)
    → All (Lacks b'-') parts
    → HasNumbers (parse_parts t label parts)
unfolding parse_parts
parse_parts-HasNumbers t label parts h = elim (Option-cases (first_number (get_elem? parts 0))) [
  | inl bad ↦ rw (bad, parse_parts) (omega arith)
  | inr (z, good) ↦
      rw (good, parse_parts)
        (
          first_number-IsNumber parts z h good,
          number_or_zero-IsNumber 1 parts h,
          number_or_zero-IsNumber 2 parts h,
        )
]

split_label-Lacks : (clean : Text) → Lacks b'-' (split_label clean).0
unfolding split_label
split_label-Lacks clean = elim (Bool-cases (contains clean (codes "-"))) [
  | inl dash ↦
      let ((a, b), found) = cut_of_contains clean b'-' dash in
      rw (dash, found) (cut_sound clean b'-' a b found).1
  | inr none_there ↦ rw none_there (Lacks-of_not-contains b'-' clean none_there)
]

-- The numbers of a parsed version are never negative and fit an int, whatever the text.
pub parse_version-HasNumbers : (s : Text) → HasNumbers (parse_version s)
unfolding parse_version
parse_version-HasNumbers s = elim (Bool-cases (is_empty s)) [
  | inl empty ↦ rw empty (omega arith)
  | inr full ↦ elim (Bool-cases (is_alias s)) [
    | inl alias ↦ rw (full, alias) (omega arith)
    | inr plain ↦
        rw (full, plain)
          (parse_parts-HasNumbers s _ _
            (split-Lacks b'-' b'.' _ (split_label-Lacks (trim_prefix s (codes "v")))))
  ]
]
