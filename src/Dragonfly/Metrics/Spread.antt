-- ===== src/Dragonfly/Metrics/Spread.antt =====
-- The smallest and the largest of a list of durations, and their sum, as updateLatency keeps them.
use native.Mathlib.Nat.{le-div_iff_mul-le, div-lt_iff_lt-mul}
use gochoreo.Common.{
  ℕ, suc, ◌+◌, ◌*◌, ◌/◌, ◌≤◌, ◌<◌, ◌≡◌, refl, inl, inr, List, [], ◌∷◌, arith, if◌then◌else◌, length,
  All, Mem, leb,
}
use gochoreo.Common.Word.{add64, half64, lt64_small}
use gochoreo.Text.Equality.{text_key}
use gochoreo.Dragonfly.Metrics.{next_min, next_max, div64}

abbrev pub total : List ℕ → ℕ
total [] = 0
total (d ∷ ds) = d + total ds

-- The latencies as folds of the code's steps over the durations.
abbrev pub min_of : List ℕ → ℕ
min_of [] = 0
min_of (d ∷ ds) = next_min (min_of ds) d

abbrev pub max_of : List ℕ → ℕ
max_of [] = 0
max_of (d ∷ ds) = next_max (max_of ds) d

abbrev pub total_of : List ℕ → ℕ
total_of [] = 0
total_of (d ∷ ds) = add64 (total_of ds) d

abbrev pub count_of_durations : List ℕ → ℕ
count_of_durations [] = 0
count_of_durations (d ∷ ds) = add64 (count_of_durations ds) 1

-- Durations of at least a nanosecond, whose sum fits.
abbrev pub Positive : ℕ → Type 0
Positive d = 1 ≤ d

pub total_of_lem : (ds : List ℕ) → total ds < half64 → total_of ds ≡ total ds
unfolding add64
total_of_lem [] h = refl
total_of_lem (d ∷ ds) h = rw (total_of_lem ds (omega (arith, h))) (omega (arith, h))

pub length_below : (ds : List ℕ) → All Positive ds → length ds ≤ total ds
length_below [] p = omega arith
length_below (d ∷ ds) p = omega (arith, p.0, length_below ds p.1)

pub count_lem : (ds : List ℕ) → length ds < half64 → count_of_durations ds ≡ length ds
unfolding add64
count_lem [] h = refl
count_lem (d ∷ ds) h = rw (count_lem ds (omega (arith, h))) (omega (arith, h))

-- The smallest and the largest of some durations.
pub record IsSpread (low high : ℕ) (ds : List ℕ) : Type 0 where
  pub low_in : Mem low ds
  pub high_in : Mem high ds
  pub low_below : (d : ℕ) → Mem d ds → low ≤ d
  pub high_above : (d : ℕ) → Mem d ds → d ≤ high

Mem-Positive : (d : ℕ) (ds : List ℕ) → All Positive ds → Mem d ds → 1 ≤ d
Mem-Positive d [] p h = absurd h
Mem-Positive d (e ∷ ds) p h = ground (arith, Mem-Positive d ds p.1)

pub Mem-below : (d : ℕ) (ds : List ℕ) → Mem d ds → d ≤ total ds
Mem-below d [] h = absurd h
Mem-below d (e ∷ ds) h = ground (arith, Mem-below d ds)

next_min_lem :
    (low d : ℕ)
    → 1 ≤ low
    → low < half64
    → d < half64
    → next_min low d ≡ (if leb low d then low else d)
next_min_lem low d p h k = ground (arith, lt64_small d low)

next_max_lem :
    (high d : ℕ) → high < half64 → d < half64 → next_max high d ≡ (if leb d high then high else d)
next_max_lem high d h k = ground (arith, lt64_small high d)

pub next-IsSpread :
    (low high d : ℕ) (ds : List ℕ)
    → IsSpread low high ds
    → IsSpread (if leb low d then low else d) (if leb d high then high else d) (d ∷ ds)
next-IsSpread low high d ds s = record {
  low_in = ground (arith, s.low_in);
  high_in = ground (arith, s.high_in);
  low_below = λ e h. ground (arith, s.low_below e);
  high_above = λ e h. ground (arith, s.high_above e);
}

IsSpread-cons :
    (d : ℕ) (ds : List ℕ)
    → All Positive (d ∷ ds)
    → total (d ∷ ds) < half64
    → IsSpread (min_of (d ∷ ds)) (max_of (d ∷ ds)) (d ∷ ds)
IsSpread-cons d [] p h = rw (next_max_lem 0 d (omega arith) (omega (arith, h))) (record {
  low_in = inl refl;
  high_in = inl (ground (arith, p.0));
  low_below = λ e k. ground (arith, k);
  high_above = λ e k. ground (arith, k, p.0);
})
IsSpread-cons d (e ∷ ds) p h =
    let s = IsSpread-cons e ds p.1 (omega (arith, h)) in
    rw
      (
        next_min_lem (min_of (e ∷ ds)) d (Mem-Positive (min_of (e ∷ ds)) (e ∷ ds) p.1 s.low_in)
            (omega (arith, h, Mem-below (min_of (e ∷ ds)) (e ∷ ds) s.low_in)) (omega (arith, h)),
        next_max_lem (max_of (e ∷ ds)) d
            (omega (arith, h, Mem-below (max_of (e ∷ ds)) (e ∷ ds) s.high_in)) (omega (arith, h)),
      )
      (next-IsSpread (min_of (e ∷ ds)) (max_of (e ∷ ds)) d (e ∷ ds) s)

low_sum : (low : ℕ) (ds : List ℕ) → ((d : ℕ) → Mem d ds → low ≤ d) → low * length ds ≤ total ds
low_sum low [] h = omega arith
low_sum low (d ∷ ds) h = omega (arith, h d (inl refl), low_sum low ds (λ e k. h e (inr k)))

high_sum : (high : ℕ) (ds : List ℕ) → ((d : ℕ) → Mem d ds → d ≤ high) → total ds ≤ high * length ds
high_sum high [] h = omega arith
high_sum high (d ∷ ds) h = omega (arith, h d (inl refl), high_sum high ds (λ e k. h e (inr k)))

pub spread :
    (ds : List ℕ)
    → All Positive ds
    → total ds < half64
    → 1 ≤ length ds
    → IsSpread (min_of ds) (max_of ds) ds
spread [] p h k = absurd (omega (arith, k))
spread (d ∷ ds) p h k = IsSpread-cons d ds p h

pub div64_small : (a b : ℕ) → a < half64 → b < half64 → div64 a b ≡ a / b
unfolding div64
div64_small a b h k = ground (arith, h, k)

div_at_most : (a b c : ℕ) → 1 ≤ b → a ≤ c * b → a / b ≤ c
div_at_most a b c h k =
    let less : a / b < suc c =
      (div-lt_iff_lt-mul {k = b} {x = a} {y = suc c} h).1 (omega (arith, h, k)) in
    omega (arith, less)

-- The truncated average lies between the smallest and the largest.
pub average_between :
    (low high : ℕ) (ds : List ℕ)
    → IsSpread low high ds
    → 1 ≤ length ds
    → (low ≤ total ds / length ds) × (total ds / length ds ≤ high)
average_between low high ds s k = (
  (le-div_iff_mul-le k).1 (low_sum low ds s.low_below),
  div_at_most (total ds) (length ds) high k (high_sum high ds s.high_above),
)
