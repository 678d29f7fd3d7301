-- ===== src/Dragonfly/Metrics/Contains.antt =====
-- The search for a substring that metrics.go writes out against strings.Contains.
use mathlib.Core.List.{append-nil}
use gochoreo.Common.{
  ℕ, zero, suc, ◌+◌, ◌-◌, ◌≤◌, ◌<◌, ◌≡◌, refl, inl, inr, Bool, true, false, ◌||◌, [], ◌∷◌, ◌++◌,
  arith, length, ltb, leb, take, drop, Bool-cases, ap, sym, ◌∙◌, subst, if◌then◌else◌,
}
use gochoreo.Text.{Text, text_eq, has_prefix, contains}
use gochoreo.Text.Equality.{text_eq_iff, contains-append}
use gochoreo.Dragonfly.Metrics.{find_from, find_substring, contains_text}

take-has_prefix : (s p : Text) → text_eq (take (length p) s) p ≡ has_prefix s p
unfolding text_eq has_prefix
take-has_prefix [] [] = refl
take-has_prefix (c ∷ s) [] = refl
take-has_prefix [] (d ∷ p) = refl
take-has_prefix (c ∷ s) (d ∷ p) = ground (arith, take-has_prefix s p)

short-has_prefix : (s p : Text) → length s < length p → has_prefix s p ≡ false
unfolding has_prefix
short-has_prefix s [] h = absurd (omega (arith, h))
short-has_prefix [] (d ∷ p) h = refl
short-has_prefix (c ∷ s) (d ∷ p) h = ground (arith, short-has_prefix s p)

short-contains : (s p : Text) → length s < length p → contains s p ≡ false
unfolding contains
short-contains [] p h = short-has_prefix [] p h
short-contains (c ∷ s) p h =
    rw (short-has_prefix (c ∷ s) p h) (short-contains s p (omega (arith, h)))

if_or : (a b : Bool) → (if a then true else b) ≡ a || b
if_or true b = refl
if_or false b = refl

-- With as many rounds as there are positions.
find_from_lem :
    (k : ℕ) (s p : Text) → length s ≡ k + length p → find_from (suc k) s p ≡ contains s p
unfolding find_from contains
find_from_lem zero [] p e = rw (take-has_prefix [] p) (tail (has_prefix [] p))
  where
    tail : (b : Bool) → (if b then true else false) ≡ b
    tail b = ground arith
find_from_lem zero (c ∷ s) p e =
    rw (take-has_prefix (c ∷ s) p, short-contains s p (omega (arith, e)))
      (if_or (has_prefix (c ∷ s) p) false)
find_from_lem (suc k) [] p e = absurd (omega (arith, e))
find_from_lem (suc k) (c ∷ s) p e =
    rw (take-has_prefix (c ∷ s) p, find_from_lem k s p (omega (arith, e)))
      (if_or (has_prefix (c ∷ s) p) (contains s p))

find_substring_lem : (s p : Text) → length p ≤ length s → find_substring s p ≡ contains s p
unfolding find_substring
find_substring_lem s p h = rw leb_true (find_from_lem (length s - length p) s p (omega (arith, h)))
  where
    leb_true : leb (length p) (length s) ≡ true
    leb_true = ground (arith, h)

take-drop : (n : ℕ) (s : Text) → take n s ++ drop n s ≡ s
take-drop zero s = refl
take-drop (suc n) [] = refl
take-drop (suc n) (c ∷ s) = ap (λ r. c ∷ r) (take-drop n s)

-- A part from some position to the end is a substring.
drop-contains : (n : ℕ) (s p : Text) → text_eq (drop n s) p ≡ true → contains s p ≡ true
drop-contains n s p h =
    let same : drop n s ≡ p = (text_eq_iff (drop n s) p).0 h in
    let whole : take n s ++ (p ++ []) ≡ s =
      ap (λ r. take n s ++ r) (append-nil p ∙ sym same) ∙ take-drop n s in
    subst (λ t. contains t p ≡ true) whole (contains-append (take n s) p [])

same_length : (s p : Text) → length s ≡ length p → contains s p ≡ text_eq s p
unfolding find_from
same_length s p e =
    sym (find_from_lem 0 s p (omega (arith, e)))
    ∙ if_self (text_eq (take (length p) s) p)
    ∙ ap (λ r. text_eq r p) (ap (λ n. take n s) (sym e) ∙ take_all s)
  where
    if_self : (b : Bool) → (if b then true else false) ≡ b
    if_self b = ground arith

    take_all : (s : Text) → take (length s) s ≡ s
    take_all [] = refl
    take_all (c ∷ s) = ap (λ r. c ∷ r) (take_all s)

prefix-contains : (s p : Text) → has_prefix s p ≡ true → contains s p ≡ true
unfolding contains
prefix-contains [] p h = h
prefix-contains (c ∷ s) p h = rw h refl

-- contains of metrics.go answers what strings.Contains answers.
pub contains_text_lem : (s p : Text) → contains_text s p ≡ contains s p
unfolding contains_text
contains_text_lem s p = elim (Bool-cases (ltb (length p) (length s))) [
  | inl shorter ↦ ground (
    arith,
    take-has_prefix s p,
    prefix-contains s p,
    drop-contains (length s - length p) s p,
    drop-contains 0 s p,
    find_substring_lem s p,
  )
  | inr not_shorter ↦ elim (Bool-cases (leb (length p) (length s))) [
    | inl same ↦ ground (arith, same_length s p)
    | inr longer ↦ ground (arith, short-contains s p)
  ]
]
