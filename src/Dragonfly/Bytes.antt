-- ===== src/Dragonfly/Bytes.antt =====
-- FormatBytes (pkg/dragonfly/utils.go). The division of floats and `%.1f` of fmt are a parameter.
use native.Mathlib.Nat.{mul_comm, mul_assoc, mul-le-mul_right}
use gochoreo.Common.{
  ℕ, zero, suc, ◌+◌, ◌*◌, ◌/◌, ◌%◌, ◌≤◌, ◌<◌, ◌≡◌, refl, Option, none, some, ◌∷◌, ◌++◌, arith,
  if◌then◌else◌, ltb, leb, get_elem?, Bool-cases, ◌⊎◌, inl, inr, ap, ◌∙◌, true, false,
}
use gochoreo.Common.Int.{ℤ, pos, negsuc, ltb_ℤ}
use gochoreo.Common.Word.{mod64, half64}
use gochoreo.Text.{Text, codes}
use gochoreo.Text.Decimal.{format_int, IsInt}

-- `div *= unit` on an int64
abbrev pub scale64 : ℕ → ℕ
scale64 d = (d * 1024) % mod64

-- The loop `for n := bytes / unit; n >= unit; n /= unit`: the divisor and the exponent. `none`
-- means that the fuel ran out.
unfoldable pub unit_loop : ℕ → ℕ → ℕ → ℕ → Option (ℕ × ℕ)
unit_loop zero n div exp = none
unit_loop (suc fuel) n div exp =
    let rest = unit_loop fuel (n / 1024) (scale64 div) (suc exp) in
    if leb 1024 n then rest else some (div, exp)

-- A panic is `none`: an index that is out of range of the letters.
unfoldable pub format_bytes : (ℕ → ℕ → Text) → ℤ → Option Text
format_bytes quotient (negsuc n) = some (format_int (negsuc n) ++ codes " B")
format_bytes quotient (pos bytes) =
    if ltb bytes 1024
    then some (format_int (pos bytes) ++ codes " B")
    else elim (unit_loop bytes (bytes / 1024) 1024 0) [
      | none ↦ none
      | some (div, exp) ↦ elim (get_elem? (codes "KMGTPE") exp) [
        | none ↦ none
        | some letter ↦ some (quotient bytes div ++ b' ' ∷ letter ∷ codes "B")
      ]
    ]

-- 1024 ^ n
abbrev pub power_1024 : ℕ → ℕ
power_1024 zero = 1
power_1024 (suc n) = power_1024 n * 1024

-- The unit of a number of bytes: the largest power of 1024 that is not above it.
pub record IsUnit (bytes div exp : ℕ) : Type 0 where
  pub power : div ≡ power_1024 (suc exp)
  pub below : div ≤ bytes
  pub above : bytes < div * 1024

-- What holds before each test of the loop.
record Scaled (bytes n div exp : ℕ) : Type 0 where
  power : div ≡ power_1024 (suc exp)
  some_left : 1 ≤ n
  low : n * div ≤ bytes
  high : bytes < (n + 1) * div

last_test : (bytes n div exp : ℕ) → Scaled bytes n div exp → n < 1024 → IsUnit bytes div exp
last_test bytes n div exp s small = record {
  power = s.power;
  below = grind (arith, s.low, s.some_left);
  above = grind (arith, s.high);
}

-- The arithmetic of a round: `n` is `1024 * q + r`.
round_low : (q r n div bytes : ℕ) → n ≡ 1024 * q + r → n * div ≤ bytes → q * (div * 1024) ≤ bytes
round_low q r n div bytes e h =
    let less : (1024 * q) * div ≤ n * div = mul-le-mul_right div (omega (arith, e)) in
    let regrouped : (1024 * q) * div ≡ q * (div * 1024) =
      ap (λ x. x * div) (mul_comm 1024 q)
      ∙ mul_assoc q 1024 div
      ∙ ap (λ x. q * x) (mul_comm 1024 div) in
    omega (arith, h, less, regrouped)

round_high :
    (q r n div bytes : ℕ)
    → n ≡ 1024 * q + r
    → r < 1024
    → bytes < (n + 1) * div
    → bytes < (q + 1) * (div * 1024)
round_high q r n div bytes e small h =
    let larger : (n + 1) * div ≤ ((q + 1) * 1024) * div = mul-le-mul_right div (omega arith) in
    let same : ((q + 1) * 1024) * div ≡ (q + 1) * (div * 1024) =
      mul_assoc (q + 1) 1024 div ∙ ap (λ x. (q + 1) * x) (mul_comm 1024 div) in
    omega (arith, h, larger, same)

div_small : (n div bytes : ℕ) → n * div ≤ bytes → 1024 ≤ n → div * 1024 ≤ bytes
div_small n div bytes h large = grind (arith, h, large)

next_round :
    (bytes n div exp : ℕ)
    → bytes < half64
    → Scaled bytes n div exp
    → 1024 ≤ n
    → (scale64 div ≡ div * 1024) × Scaled bytes (n / 1024) (div * 1024) (suc exp)
next_round bytes n div exp limit s large =
    let parts : n ≡ 1024 * (n / 1024) + n % 1024 = omega arith in
    let fits : div * 1024 ≤ bytes = div_small n div bytes s.low large in
    (
      omega (arith, fits, limit),
      record {
        power = ap (λ d. d * 1024) s.power;
        some_left = omega (arith, large);
        low = round_low (n / 1024) (n % 1024) n div bytes parts s.low;
        high = round_high (n / 1024) (n % 1024) n div bytes parts (omega arith) s.high;
      },
    )

unit_loop_lem :
    (bytes fuel n div exp : ℕ)
    → bytes < half64
    → n < fuel
    → Scaled bytes n div exp
    → (d : ℕ) × (e : ℕ) × (unit_loop fuel n div exp ≡ some (d, e)) × IsUnit bytes d e
unfolding unit_loop
unit_loop_lem bytes zero n div exp limit short s = absurd (omega arith)
unit_loop_lem bytes (suc fuel) n div exp limit short s = elim (Bool-cases (leb 1024 n)) [
  | inl large ↦
      let (exact, s') = next_round bytes n div exp limit s (ground arith) in
      rw (large, exact)
        (unit_loop_lem bytes fuel (n / 1024) (div * 1024) (suc exp) limit (ground arith) s')
  | inr small ↦ rw small (div, exp, refl, last_test bytes n div exp s (ground arith))
]

power_pos : (n : ℕ) → 1 ≤ power_1024 n
power_pos zero = omega arith
power_pos (suc n) = omega (arith, power_pos n)

-- An int64 has at most six units.
exponent_small : (bytes div exp : ℕ) → bytes < half64 → IsUnit bytes div exp → exp < 6
exponent_small bytes div zero limit u = omega arith
exponent_small bytes div (suc zero) limit u = omega arith
exponent_small bytes div (suc (suc zero)) limit u = omega arith
exponent_small bytes div (suc (suc (suc zero))) limit u = omega arith
exponent_small bytes div (suc (suc (suc (suc zero)))) limit u = omega arith
exponent_small bytes div (suc (suc (suc (suc (suc zero))))) limit u = omega arith
exponent_small bytes div (suc (suc (suc (suc (suc (suc e)))))) limit u =
    absurd (omega (arith, u.power, u.below, limit, power_pos e))

letter_of : (exp : ℕ) → exp < 6 → (letter : ℕ) × (get_elem? (codes "KMGTPE") exp ≡ some letter)
letter_of zero h = (b'K', refl)
letter_of (suc zero) h = (b'M', refl)
letter_of (suc (suc zero)) h = (b'G', refl)
letter_of (suc (suc (suc zero))) h = (b'T', refl)
letter_of (suc (suc (suc (suc zero)))) h = (b'P', refl)
letter_of (suc (suc (suc (suc (suc zero))))) h = (b'E', refl)
letter_of (suc (suc (suc (suc (suc (suc e)))))) h = absurd (omega (arith, h))

started : (bytes : ℕ) → 1024 ≤ bytes → Scaled bytes (bytes / 1024) 1024 0
started bytes large = record {
  power = refl;
  some_left = omega (arith, large);
  low = omega arith;
  high = omega arith;
}

-- What FormatBytes answers for a number of bytes from 1024 on.
abbrev pub InUnits : (ℕ → ℕ → Text) → ℕ → Type 0
InUnits quotient bytes =
    (div : ℕ) × (exp : ℕ) × (letter : ℕ) × IsUnit bytes div exp
    × (get_elem? (codes "KMGTPE") exp ≡ some letter)
    × (format_bytes quotient (pos bytes) ≡ some (quotient bytes div ++ b' ' ∷ letter ∷ codes "B"))

large-InUnits :
    (quotient : ℕ → ℕ → Text) (bytes : ℕ)
    → bytes < half64
    → ltb bytes 1024 ≡ false
    → InUnits quotient bytes
unfolding format_bytes
large-InUnits quotient bytes limit large =
    let (div, exp, loop, u) =
      unit_loop_lem bytes bytes (bytes / 1024) 1024 0 limit (ground arith)
        (started bytes (ground arith)) in
    let (letter, l) = letter_of exp (exponent_small bytes div exp limit u) in
    (div, exp, letter, u, l, rw (large, loop, format_bytes, l, format_bytes) refl)

-- FormatBytes does not panic on any int64. A number below 1024, a negative one included, it prints
-- as it is; from 1024 bytes on it divides, without overflow, by the largest power of 1024 that is
-- not above the number of bytes, and prints the letter of that power.
pub format_bytes_lem :
    (quotient : ℕ → ℕ → Text) (bytes : ℤ)
    → IsInt bytes
    → ((ltb_ℤ bytes (pos 1024) ≡ true)
        × (format_bytes quotient bytes ≡ some (format_int bytes ++ codes " B")))
      ⊎ ((n : ℕ) × (bytes ≡ pos n) × (1024 ≤ n) × InUnits quotient n)
unfolding format_bytes
format_bytes_lem quotient (negsuc n) int = inl (refl, refl)
format_bytes_lem quotient (pos n) int = elim (Bool-cases (ltb n 1024)) [
  | inl small ↦ inl (small, rw small refl)
  | inr large ↦ inr (n, refl, ground arith, large-InUnits quotient n (omega (arith, int)) large)
]
