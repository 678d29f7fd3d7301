-- ===== src/Text/Decimal.antt =====
-- `%d` of fmt and strconv.Atoi: numbers as decimal text, and back.
use gochoreo.Common.{
  ℕ, zero, suc, ◌+◌, ◌-◌, ◌*◌, ◌/◌, ◌%◌, ◌≤◌, ◌<◌, ◌≡◌, refl, inl, inr, Bool, ◌&&◌, Option, none,
  some, [], ◌∷◌, ◌++◌, arith, leb, ltb, ◌==◌, if◌then◌else◌, All, All-append, Bool-cases, ap, subst,
  ◌∙◌, sym,
}
use gochoreo.Common.Int.{ℤ, pos, negsuc}
use gochoreo.Text.{Text}
use mathlib.Core.List.{append_assoc, append-nil}

abbrev pub is_digit : ℕ → Bool
is_digit c = leb b'0' c && leb c b'9'

abbrev pub digit : ℕ → Text
digit d = (b'0' + d) ∷ []

-- The digits of a number below 10 ^ fuel, most significant first.
pub digits_from : ℕ → ℕ → Text
digits_from zero n = digit (n % 10)
digits_from (suc fuel) n =
    let more = digits_from fuel (n / 10) ++ digit (n % 10) in if ltb n 10 then digit n else more

-- `fmt.Sprintf("%d", n)`; a number has fewer digits than its value and one more.
unfoldable pub format_ℕ : ℕ → Text
unfolding digits_from
format_ℕ n = digits_from n n

unfoldable pub format_int : ℤ → Text
unfolding format_ℕ
format_int (pos n) = format_ℕ n
format_int (negsuc n) = b'-' ∷ format_ℕ (suc n)

-- The loop of Atoi over the digits.
pub scan : Text → ℕ → Option ℕ
scan [] n = some n
scan (c ∷ s) n = let rest = scan s (n * 10 + (c - b'0')) in if is_digit c then rest else none

-- An empty run of digits is an error.
abbrev pub scan_all : Text → Option ℕ
scan_all [] = none
scan_all (c ∷ s) = scan (c ∷ s) 0

abbrev pub max_int : ℕ
max_int = 9223372036854775807

-- The range of a 64-bit int.
abbrev pub IsInt : ℤ → Type 0
IsInt (pos n) = n ≤ max_int
IsInt (negsuc n) = n ≤ max_int

-- strconv.Atoi: an optional sign, digits, and the range of a 64-bit int; `none` for an error.
abbrev pub in_range : Option ℕ → Option ℤ
in_range none = none
in_range (some n) = if leb n max_int then some (pos n) else none

abbrev pub in_range_neg : Option ℕ → Option ℤ
in_range_neg none = none
in_range_neg (some zero) = some (pos 0)
in_range_neg (some (suc n)) = if leb n max_int then some (negsuc n) else none

unfoldable pub atoi : Text → Option ℤ
unfolding scan
atoi [] = none
atoi (c ∷ s) =
    if c == b'-'
    then in_range_neg (scan_all s)
    else if c == b'+'
    then in_range (scan_all s)
    else in_range (scan_all (c ∷ s))

abbrev pub IsDigit : ℕ → Type 0
IsDigit c = (b'0' ≤ c) × (c ≤ b'9')

digits_from-IsDigit : (fuel n : ℕ) → All IsDigit (digits_from fuel n)
unfolding digits_from
digits_from-IsDigit zero n = ((omega arith, omega arith), tt)
digits_from-IsDigit (suc fuel) n = elim (Bool-cases (ltb n 10)) [
  | inl small ↦ rw small ((omega arith, ground arith), tt)
  | inr large ↦ rw large (
      All-append IsDigit (digits_from fuel (n / 10)) (digit (n % 10))
        (digits_from-IsDigit fuel (n / 10)) ((omega arith, omega arith), tt))
]

-- A number prints as digits only.
pub format_ℕ-IsDigit : (n : ℕ) → All IsDigit (format_ℕ n)
unfolding format_ℕ
format_ℕ-IsDigit n = digits_from-IsDigit n n

scan-digits_from :
    (fuel n : ℕ) (rest : Text) → n ≤ fuel → scan (digits_from fuel n ++ rest) 0 ≡ scan rest n
unfolding digits_from scan
scan-digits_from zero n rest h = ground arith
scan-digits_from (suc fuel) n rest h = elim (Bool-cases (ltb n 10)) [
  | inl small ↦ rw small (ground arith)
  | inr large ↦ rw large (
      rw append_assoc
        ((scan-digits_from fuel (n / 10) (digit (n % 10) ++ rest) (ground arith)) ∙ ground arith))
]

-- A text that begins with a byte.
abbrev pub IsCons : Text → Type 0
IsCons [] = ⊥
IsCons (c ∷ s) = Unit

append-IsCons : (s : Text) (d : ℕ) → IsCons (s ++ digit d)
append-IsCons [] d = tt
append-IsCons (c ∷ s) d = tt

pub format_ℕ-IsCons : (n : ℕ) → IsCons (format_ℕ n)
unfolding format_ℕ
format_ℕ-IsCons zero = tt
format_ℕ-IsCons (suc n) = elim (Bool-cases (ltb (suc n) 10)) [
  | inl small ↦ rw small tt
  | inr large ↦ rw large (append-IsCons (digits_from n (suc n / 10)) (suc n % 10))
]

scan-format_ℕ : (n : ℕ) → scan (format_ℕ n) 0 ≡ some n
unfolding format_ℕ scan
scan-format_ℕ n =
    sym (ap (λ s. scan s 0) (append-nil (digits_from n n))) ∙ scan-digits_from n n [] (omega arith)

scan_all_of_IsCons : (s : Text) → IsCons s → scan_all s ≡ scan s 0
scan_all_of_IsCons [] h = absurd h
scan_all_of_IsCons (c ∷ s) h = refl

pub scan_all-format_ℕ : (n : ℕ) → scan_all (format_ℕ n) ≡ some n
scan_all-format_ℕ n = scan_all_of_IsCons (format_ℕ n) (format_ℕ-IsCons n) ∙ scan-format_ℕ n

atoi_of_digit : (s : Text) → IsCons s → All IsDigit s → atoi s ≡ in_range (scan_all s)
unfolding atoi
atoi_of_digit [] h d = absurd h
atoi_of_digit (c ∷ s) h d = ground arith

-- Atoi reads back every number that an int can hold.
pub atoi-format_ℕ : (n : ℕ) → n ≤ max_int → atoi (format_ℕ n) ≡ some (pos n)
atoi-format_ℕ n h =
    rw (atoi_of_digit (format_ℕ n) (format_ℕ-IsCons n) (format_ℕ-IsDigit n))
      (rw (scan_all-format_ℕ n) (ground arith))

pub atoi-format_ℕ_large : (n : ℕ) → max_int < n → atoi (format_ℕ n) ≡ none
atoi-format_ℕ_large n h =
    rw (atoi_of_digit (format_ℕ n) (format_ℕ-IsCons n) (format_ℕ-IsDigit n))
      (rw (scan_all-format_ℕ n) (ground arith))

-- Atoi also reads back the negative ones.
pub atoi-format_int : (z : ℤ) → IsInt z → atoi (format_int z) ≡ some z
unfolding format_int atoi
atoi-format_int (pos n) h = atoi-format_ℕ n h
atoi-format_int (negsuc n) h = rw (scan_all-format_ℕ (suc n)) (ground arith)

pub format_int_pos : (n : ℕ) → format_int (pos n) ≡ format_ℕ n
unfolding format_int
format_int_pos n = refl

-- A number of one digit is written as that digit.
pub format_ℕ_single : (c n : ℕ) → c ∷ [] ≡ format_ℕ n → c ≡ b'0' + n
unfolding scan
format_ℕ_single c n e =
    let digit_c : IsDigit c = (subst (All IsDigit) (sym e) (format_ℕ-IsDigit n)).0 in
    let read : scan_all (c ∷ []) ≡ some n = ap scan_all e ∙ scan_all-format_ℕ n in ground arith
