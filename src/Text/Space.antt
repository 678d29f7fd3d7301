-- ===== src/Text/Space.antt =====
-- strings.TrimSpace on UTF-8 text: the white space of Unicode, by its encodings.
use mathlib.Core.List.{reverse}
use gochoreo.Common.{ℕ, zero, suc, none, some, List, [], ◌∷◌, map, length, drop, find}
use gochoreo.Text.{Text, has_prefix}

abbrev spaces : List Text
spaces =
    (9 ∷ [])
    ∷ (10 ∷ [])
    ∷ (11 ∷ [])
    ∷ (12 ∷ [])
    ∷ (13 ∷ [])
    ∷ (32 ∷ [])
    ∷ (0xC2 ∷ 0x85 ∷ [])
    ∷ (0xC2 ∷ 0xA0 ∷ [])
    ∷ (0xE1 ∷ 0x9A ∷ 0x80 ∷ [])
    ∷ (0xE2 ∷ 0x80 ∷ 0x80 ∷ [])
    ∷ (0xE2 ∷ 0x80 ∷ 0x81 ∷ [])
    ∷ (0xE2 ∷ 0x80 ∷ 0x82 ∷ [])
    ∷ (0xE2 ∷ 0x80 ∷ 0x83 ∷ [])
    ∷ (0xE2 ∷ 0x80 ∷ 0x84 ∷ [])
    ∷ (0xE2 ∷ 0x80 ∷ 0x85 ∷ [])
    ∷ (0xE2 ∷ 0x80 ∷ 0x86 ∷ [])
    ∷ (0xE2 ∷ 0x80 ∷ 0x87 ∷ [])
    ∷ (0xE2 ∷ 0x80 ∷ 0x88 ∷ [])
    ∷ (0xE2 ∷ 0x80 ∷ 0x89 ∷ [])
    ∷ (0xE2 ∷ 0x80 ∷ 0x8A ∷ [])
    ∷ (0xE2 ∷ 0x80 ∷ 0xA8 ∷ [])
    ∷ (0xE2 ∷ 0x80 ∷ 0xA9 ∷ [])
    ∷ (0xE2 ∷ 0x80 ∷ 0xAF ∷ [])
    ∷ (0xE2 ∷ 0x81 ∷ 0x9F ∷ [])
    ∷ (0xE3 ∷ 0x80 ∷ 0x80 ∷ [])
    ∷ []

-- Takes away what is in the list from the front. A round takes at least one byte, so the length is
-- fuel enough.
unfoldable pub trim_front : List Text → ℕ → Text → Text
trim_front cut zero s = s
trim_front cut (suc fuel) s = elim (find (has_prefix s) cut) [
  | none ↦ s
  | some space ↦ trim_front cut fuel (drop (length space) s)
]

unfoldable pub trim_space : Text → Text
trim_space s =
    let front = trim_front spaces (length s) s in
    reverse (trim_front (map reverse spaces) (length front) (reverse front))
