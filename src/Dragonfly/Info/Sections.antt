-- ===== src/Dragonfly/Info/Sections.antt =====
-- ParseDragonflyInfo never writes to a nil map, and reads back the lines of a section.
use gochoreo.Common.{
  ℕ, ◌≡◌, refl, inl, inr, true, false, Option, none, some, List, [], ◌∷◌, ◌++◌, is_empty, Map,
  lookup, insert, has, map, arith, lookup-insert_self, Option-cases, Bool-cases, ap, ◌∙◌, All,
  is_some,
}
use gochoreo.Text.{Text, codes, has_prefix, trim_prefix, split, cut}
use gochoreo.Text.Equality.{text_key, text_eq_refl, has_prefix-append, trim_prefix-append}
use gochoreo.Text.Parts.{Lacks, cut_middle}
use gochoreo.Text.Space.{trim_space}
use gochoreo.Dragonfly.Info.{
  Sections, store, parse_pair, parse_round, parse_rounds, parse_dragonfly_info,
}

-- The current section, if there is one, is a key of the result.
abbrev Known : Text → Sections → Type 0
Known [] result = Unit
Known (c ∷ s) result = has (c ∷ s) result ≡ true

abbrev Stays : Text → Option Sections → Type 0
Stays section o = (result : Sections) × (o ≡ some result) × Known section result

store-Stays :
    (c : ℕ) (s key value : Text) (result : Sections)
    → has (c ∷ s) result ≡ true
    → Stays (c ∷ s) (store (c ∷ s) key value result)
unfolding store
store-Stays c s key value result k = elim (Option-cases (lookup (c ∷ s) result)) [
  | inl missing ↦ absurd (no_key missing)
  | inr (m, there) ↦ (
    insert (c ∷ s) (insert key value m) result,
    rw (store, there) refl,
    ap is_some (lookup-insert_self (c ∷ s) (insert key value m) result),
  )
]
  where
    no_key : lookup (c ∷ s) result ≡ none → ⊥
    no_key e = ground (arith, k)

parse_pair-Stays :
    (section line : Text) (result : Sections)
    → Known section result
    → Stays section (parse_pair section line result)
unfolding parse_pair
parse_pair-Stays [] line result k = elim (Option-cases (cut line b':')) [
  | inl no_colon ↦ rw (parse_pair, no_colon) (result, refl, tt)
  | inr ((key, value), parts) ↦ rw (parse_pair, parts) (result, refl, tt)
]
parse_pair-Stays (c ∷ s) line result k = elim (Option-cases (cut line b':')) [
  | inl no_colon ↦ rw (parse_pair, no_colon) (result, refl, k)
  | inr ((key, value), parts) ↦
      rw (parse_pair, parts) (store-Stays c s (trim_space key) (trim_space value) result k)
]

header-Known : (section : Text) (result : Sections) → Known section (insert section [] result)
header-Known [] result = tt
header-Known (c ∷ s) result = ap is_some (lookup-insert_self (c ∷ s) [] result)

parse_round-Known :
    (line section : Text) (result : Sections)
    → Known section result
    → (next : Text × Sections) × (parse_round line section result ≡ some next) × Known next.0 next.1
unfolding parse_round
parse_round-Known line section result k = elim (Bool-cases (is_empty line)) [
  | inl empty ↦ rw (parse_round, empty) ((section, result), refl, k)
  | inr full ↦ elim (Bool-cases (has_prefix line (codes "# "))) [
    | inl header ↦
        rw (parse_round, full, header)
          (
            (
              trim_space (trim_prefix line (codes "# ")),
              insert (trim_space (trim_prefix line (codes "# "))) [] result,
            ),
            refl,
            header-Known (trim_space (trim_prefix line (codes "# "))) result,
          )
    | inr pair ↦
        let (result', e, k') = parse_pair-Stays section line result k in
        rw (parse_round, full, pair, e) ((section, result'), refl, k')
  ]
]

parse_rounds-total :
    (lines : List Text) (section : Text) (result : Sections)
    → Known section result
    → (result' : Sections) × (parse_rounds lines section result ≡ some result')
unfolding parse_rounds
parse_rounds-total [] section result k = (result, refl)
parse_rounds-total (line ∷ lines) section result k =
    let (next, e, k') = parse_round-Known (trim_space line) section result k in
    rw (parse_rounds, e) (parse_rounds-total lines next.0 next.1 k')

-- ParseDragonflyInfo returns a result for every text: it never writes to a nil map.
pub parse_dragonfly_info-total :
    (info : Text) → (result : Sections) × (parse_dragonfly_info info ≡ some result)
unfolding parse_dragonfly_info
parse_dragonfly_info-total info = parse_rounds-total (split info (13 ∷ 10 ∷ [])) [] [] tt

-- A text without white space at its ends.
abbrev pub IsTrimmed : Text → Type 0
IsTrimmed s = trim_space s ≡ s

abbrev pub pair_line : Text × Text → Text
pair_line kv = kv.0 ++ b':' ∷ kv.1

-- The line of the key and the value is trimmed and does not begin with "# ", and the key has no
-- colon; white space beside the colon is allowed.
pub record IsPair (kv : Text × Text) : Type 0 where
  pub line_trimmed : IsTrimmed (pair_line kv)
  pub no_colon : Lacks b':' kv.0
  pub no_header : has_prefix (pair_line kv) (codes "# ") ≡ false

-- The pairs stored in order, trimmed; a later pair with the same key replaces an earlier one.
abbrev pub insert_all : List (Text × Text) → Map Text Text → Map Text Text
insert_all [] m = m
insert_all ((key, value) ∷ kvs) m = insert_all kvs (insert (trim_space key) (trim_space value) m)

pair_not_empty : (key value : Text) → is_empty (key ++ b':' ∷ value) ≡ false
pair_not_empty [] value = refl
pair_not_empty (c ∷ key) value = refl

store_one :
    (section key value : Text) (m : Map Text Text)
    → store section key value ((section, m) ∷ []) ≡ some ((section, insert key value m) ∷ [])
unfolding store lookup insert
store_one section key value m =
    let same = text_eq_refl section in rw (store, same, store, same) refl

-- A line that is a pair, in the one section that there is.
pair_round :
    (c : ℕ) (s key value : Text) (m : Map Text Text)
    → IsPair (key, value)
    → parse_round (pair_line (key, value)) (c ∷ s) ((c ∷ s, m) ∷ [])
      ≡ some (c ∷ s, (c ∷ s, insert (trim_space key) (trim_space value) m) ∷ [])
unfolding parse_round parse_pair
pair_round c s key value m p = rw (parse_round, pair_not_empty key value, p.no_header, stored) refl
  where
    split_pair :
        parse_pair (c ∷ s) (pair_line (key, value)) ((c ∷ s, m) ∷ [])
        ≡ store (c ∷ s) (trim_space key) (trim_space value) ((c ∷ s, m) ∷ [])
    split_pair = rw (parse_pair, cut_middle b':' key value p.no_colon, parse_pair) refl

    stored :
        parse_pair (c ∷ s) (pair_line (key, value)) ((c ∷ s, m) ∷ [])
        ≡ some ((c ∷ s, insert (trim_space key) (trim_space value) m) ∷ [])
    stored = split_pair ∙ store_one (c ∷ s) (trim_space key) (trim_space value) m

pair_rounds :
    (c : ℕ) (s : Text) (kvs : List (Text × Text)) (m : Map Text Text)
    → All IsPair kvs
    → parse_rounds (map pair_line kvs) (c ∷ s) ((c ∷ s, m) ∷ [])
      ≡ some ((c ∷ s, insert_all kvs m) ∷ [])
unfolding parse_rounds
pair_rounds c s [] m ps = refl
pair_rounds c s ((key, value) ∷ kvs) m ps =
    rw (parse_rounds, ps.0.line_trimmed, pair_round c s key value m ps.0, parse_rounds)
      (pair_rounds c s kvs (insert (trim_space key) (trim_space value) m) ps.1)

header_round :
    (line name : Text)
    → is_empty line ≡ false
    → has_prefix line (codes "# ") ≡ true
    → trim_space (trim_prefix line (codes "# ")) ≡ name
    → parse_round line [] [] ≡ some (name, (name, []) ∷ [])
unfolding parse_round insert
header_round line name full header h = rw (parse_round, full, header, h) refl

-- The lines of one section, its header first, give that section with its pairs stored in order, both
-- trimmed. The name is not empty, the header and the name are trimmed; the line of a pair is trimmed
-- and does not begin with "# ", and the key has no colon.
pub parse_rounds-one_section :
    (c : ℕ) (s : Text) (kvs : List (Text × Text))
    → IsTrimmed (codes "# " ++ c ∷ s)
    → IsTrimmed (c ∷ s)
    → All IsPair kvs
    → parse_rounds ((codes "# " ++ c ∷ s) ∷ map pair_line kvs) [] []
      ≡ some ((c ∷ s, insert_all kvs []) ∷ [])
unfolding parse_rounds
parse_rounds-one_section c s kvs h h' ps =
    rw (parse_rounds, h, header, parse_rounds) (pair_rounds c s kvs [] ps)
  where
    header : parse_round (codes "# " ++ c ∷ s) [] [] ≡ some (c ∷ s, (c ∷ s, []) ∷ [])
    header =
        header_round (codes "# " ++ c ∷ s) (c ∷ s) refl (has_prefix-append (codes "# ") (c ∷ s))
          (ap trim_space (trim_prefix-append (codes "# ") (c ∷ s)) ∙ h')
