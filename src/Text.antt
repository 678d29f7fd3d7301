-- ===== src/Text.antt =====
-- Go strings as lists of bytes, with what the code uses of the packages strings, strconv and fmt.
pub mod Decimal
pub mod Equality
pub mod Parts
pub mod Order
pub mod Space
pub mod Suffix
use Prim.Native.Char.{code}
use Prim.Native.String.{String}
use gochoreo.Common.{
  ℕ, zero, suc, ◌+◌, ◌-◌, Bool, true, false, ◌&&◌, ◌||◌, Option, none, some, List, [], ◌∷◌, ◌++◌,
  map, ltb, leb, ◌==◌, if◌then◌else◌, length, drop, take,
}

abbrev pub Text : Type 0
Text = List ℕ

-- The bytes of an ASCII literal. `String` has its own `[]` and `∷`.
abbrev pub codes : String → Text
codes String.[] = []
codes (String.◌∷◌ c s) = code c ∷ codes s

-- `s == t`
unfoldable pub text_eq : Text → Text → Bool
text_eq [] [] = true
text_eq [] (b ∷ t) = false
text_eq (a ∷ s) [] = false
text_eq (a ∷ s) (b ∷ t) = a == b && text_eq s t

-- `s < t`, byte by byte
unfoldable pub text_lt : Text → Text → Bool
text_lt s [] = false
text_lt [] (b ∷ t) = true
text_lt (a ∷ s) (b ∷ t) = ltb a b || (a == b && text_lt s t)

-- strings.HasPrefix
unfoldable pub has_prefix : Text → Text → Bool
has_prefix s [] = true
has_prefix [] (p ∷ ps) = false
has_prefix (c ∷ s) (p ∷ ps) = c == p && has_prefix s ps

-- strings.TrimPrefix
unfoldable pub trim_prefix : Text → Text → Text
unfolding has_prefix
trim_prefix s p = if has_prefix s p then drop (length p) s else s

-- strings.Contains
unfoldable pub contains : Text → Text → Bool
unfolding has_prefix
contains [] p = has_prefix [] p
contains (c ∷ s) p = has_prefix (c ∷ s) p || contains s p

-- strings.ToLower on ASCII letters. Other bytes stay: the code compares the result only with words
-- of letters that no character outside ASCII has for its lower case.
abbrev pub lower : ℕ → ℕ
lower c = if leb b'A' c && leb c b'Z' then c + 32 else c

unfoldable pub to_lower : Text → Text
to_lower [] = []
to_lower (c ∷ s) = lower c ∷ to_lower s

-- Puts a byte before the first of the parts.
abbrev pub push_head : ℕ → List Text → List Text
push_head c [] = (c ∷ []) ∷ []
push_head c (p ∷ ps) = (c ∷ p) ∷ ps

-- strings.Split by the separator `k ∷ sep`; the first argument counts what is left of a separator
-- that was met.
unfoldable pub split_from : ℕ → ℕ → Text → Text → List Text
unfolding has_prefix
split_from skip k sep [] = [] ∷ []
split_from (suc skip) k sep (c ∷ s) = split_from skip k sep s
split_from zero k sep (c ∷ s) = elim (has_prefix (c ∷ s) (k ∷ sep)) [
  | true ↦ [] ∷ split_from (length sep) k sep s
  | false ↦ push_head c (split_from zero k sep s)
]

-- The bytes that utf8.DecodeRune takes for one character.
abbrev continuation : ℕ → Bool
continuation c = leb 0x80 c && leb c 0xBF

abbrev second_of : ℕ → ℕ → Bool
second_of lead c =
    leb (if lead == 0xE0 then 0xA0 else if lead == 0xF0 then 0x90 else 0x80) c
    && leb c (if lead == 0xED then 0x9F else if lead == 0xF4 then 0x8F else 0xBF)

abbrev rune_len : Text → ℕ
rune_len (a ∷ b ∷ c ∷ d ∷ s) =
    if leb 0xC2 a && leb a 0xDF && second_of a b
    then 2
    else if leb 0xE0 a && leb a 0xEF && second_of a b && continuation c
    then 3
    else if leb 0xF0 a && leb a 0xF4 && second_of a b && continuation c && continuation d
    then 4
    else 1
rune_len (a ∷ b ∷ c ∷ []) =
    if leb 0xC2 a && leb a 0xDF && second_of a b
    then 2
    else if leb 0xE0 a && leb a 0xEF && second_of a b && continuation c
    then 3
    else 1
rune_len (a ∷ b ∷ []) = if leb 0xC2 a && leb a 0xDF && second_of a b then 2 else 1
rune_len s = 1

-- strings.Split by the empty separator; each round takes at least one byte, so the length is fuel
-- enough.
explode : ℕ → Text → List Text
explode zero s = []
explode (suc fuel) [] = []
explode (suc fuel) (c ∷ s) =
    take (rune_len (c ∷ s)) (c ∷ s) ∷ explode fuel (drop (rune_len (c ∷ s)) (c ∷ s))

unfoldable pub split : Text → Text → List Text
unfolding split_from explode
split s [] = explode (length s) s
split s (k ∷ sep) = split_from 0 k sep s

-- strings.SplitN(s, sep, 2) by a separator of one byte: the parts on both sides of the first.
unfoldable pub cut : Text → ℕ → Option (Text × Text)
cut [] k = none
cut (c ∷ s) k =
    let rest = cut s k in
    if c == k then some ([], s) else elim rest [ none ↦ none | some (a, b) ↦ some (c ∷ a, b) ]

-- strings.Join
unfoldable pub join : Text → List Text → Text
join sep [] = []
join sep (p ∷ []) = p
join sep (p ∷ q ∷ ps) = p ++ (sep ++ join sep (q ∷ ps))
