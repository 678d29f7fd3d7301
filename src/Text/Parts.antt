-- ===== src/Text/Parts.antt =====
-- Taking a text apart at a separator of one byte, and putting it together again.
use gochoreo.Common.{
  ℕ, ◌≡◌, refl, ◌≢◌, inl, inr, true, false, some, List, [], ◌∷◌, ◌++◌, arith, ◌==◌, All, Bool-cases,
  Option-cases, ◌∙◌, ap,
}
use gochoreo.Text.{Text, contains, split, push_head, cut, join}

abbrev pub Lacks : ℕ → Text → Type 0
Lacks k = All (λ c. c ≢ k)

pub contains_of_Lacks : (k : ℕ) (s : Text) → Lacks k s → contains s (k ∷ []) ≡ false
unfolding contains
contains_of_Lacks k [] h = refl
contains_of_Lacks k (c ∷ s) h = ground (arith, contains_of_Lacks k s h.1)

pub contains_middle : (k : ℕ) (a b : Text) → contains (a ++ k ∷ b) (k ∷ []) ≡ true
unfolding contains
contains_middle k [] b = ground arith
contains_middle k (c ∷ a) b = ground (arith, contains_middle k a b)

-- The part before the first separator lacks it, and the three parts make up the text.
pub cut_sound :
    (s : Text) (k : ℕ) (a b : Text) → cut s k ≡ some (a, b) → (s ≡ a ++ k ∷ b) × Lacks k a
unfolding cut
cut_sound [] k a b e = cc
cut_sound (c ∷ s) k a b e = elim (Bool-cases (c == k)) [
  | inl here ↦ ground arith
  | inr later ↦ elim (Option-cases (cut s k)) [
    | inl missing ↦ ground arith
    | inr ((a', b'), found) ↦ ground (arith, cut_sound s k a' b' found)
  ]
]

pub cut_middle : (k : ℕ) (a b : Text) → Lacks k a → cut (a ++ k ∷ b) k ≡ some (a, b)
unfolding cut
cut_middle k [] b h = ground arith
cut_middle k (c ∷ a) b h = ground (arith, cut_middle k a b h.1)

pub cut_of_contains :
    (s : Text) (k : ℕ) → contains s (k ∷ []) ≡ true → (ab : Text × Text) × (cut s k ≡ some ab)
unfolding contains cut
cut_of_contains [] k h = cc
cut_of_contains (c ∷ s) k h = elim (Bool-cases (c == k)) [
  | inl here ↦ (([], s), rw here)
  | inr later ↦
      let ((a, b), found) = cut_of_contains s k (ground arith) in ((c ∷ a, b), ground arith)
]

split_cons_sep :
    (c k : ℕ) (s : Text) → (c == k) ≡ true → split (c ∷ s) (k ∷ []) ≡ [] ∷ split s (k ∷ [])
unfolding split
split_cons_sep c k s h = ground arith

split_cons_other :
    (c k : ℕ) (s : Text)
    → (c == k) ≡ false
    → split (c ∷ s) (k ∷ []) ≡ push_head c (split s (k ∷ []))
unfolding split
split_cons_other c k s h = ground arith

pub split_of_Lacks : (k : ℕ) (s : Text) → Lacks k s → split s (k ∷ []) ≡ s ∷ []
unfolding split
split_of_Lacks k [] h = refl
split_of_Lacks k (c ∷ s) h = ground (arith, split_of_Lacks k s h.1)

pub split_middle :
    (k : ℕ) (a b : Text) → Lacks k a → split (a ++ k ∷ b) (k ∷ []) ≡ a ∷ split b (k ∷ [])
unfolding split
split_middle k [] b h = ground arith
split_middle k (c ∷ a) b h = ground (arith, split_middle k a b h.1)

-- There is always a first part.
abbrev pub HasPart : List Text → Type 0
HasPart [] = ⊥
HasPart (p ∷ ps) = Unit

push_head-HasPart : (c : ℕ) (ps : List Text) → HasPart (push_head c ps)
push_head-HasPart c [] = tt
push_head-HasPart c (p ∷ ps) = tt

pub split-HasPart : (s : Text) (k : ℕ) → HasPart (split s (k ∷ []))
split-HasPart [] k = unfold split in tt
split-HasPart (c ∷ s) k = elim (Bool-cases (c == k)) [
  | inl here ↦ rw (split_cons_sep c k s here) tt
  | inr other ↦ rw (split_cons_other c k s other) (push_head-HasPart c (split s (k ∷ [])))
]

join-push_head :
    (k c : ℕ) (ps : List Text) → HasPart ps → join (k ∷ []) (push_head c ps) ≡ c ∷ join (k ∷ []) ps
unfolding join
join-push_head k c [] h = absurd h
join-push_head k c (p ∷ []) h = refl
join-push_head k c (p ∷ q ∷ ps) h = refl

join_nil : (k : ℕ) (ps : List Text) → HasPart ps → join (k ∷ []) ([] ∷ ps) ≡ k ∷ join (k ∷ []) ps
unfolding join
join_nil k [] h = absurd h
join_nil k (p ∷ ps) h = refl

-- Joining the parts by the separator gives the text back.
pub join-split : (s : Text) (k : ℕ) → join (k ∷ []) (split s (k ∷ [])) ≡ s
join-split [] k = unfold split join in refl
join-split (c ∷ s) k = elim (Bool-cases (c == k)) [
  | inl here ↦
      rw (split_cons_sep c k s here)
        (join_nil k (split s (k ∷ [])) (split-HasPart s k) ∙ ground (arith, join-split s k))
  | inr other ↦
      rw (split_cons_other c k s other) (
        join-push_head k c (split s (k ∷ [])) (split-HasPart s k)
        ∙ ap (λ t. c ∷ t) (join-split s k))
]

pub Lacks-of_not-contains : (k : ℕ) (s : Text) → contains s (k ∷ []) ≡ false → Lacks k s
unfolding contains
Lacks-of_not-contains k [] h = tt
Lacks-of_not-contains k (c ∷ s) h = (ground arith, Lacks-of_not-contains k s (ground arith))

push_head-Lacks :
    (j c : ℕ) (ps : List Text) → c ≢ j → All (Lacks j) ps → All (Lacks j) (push_head c ps)
push_head-Lacks j c [] h a = ((h, tt), tt)
push_head-Lacks j c (p ∷ ps) h a = ((h, a.0), a.1)

-- What the text lacks, its parts lack.
pub split-Lacks : (j k : ℕ) (s : Text) → Lacks j s → All (Lacks j) (split s (k ∷ []))
split-Lacks j k [] h = unfold split in (tt, tt)
split-Lacks j k (c ∷ s) h = elim (Bool-cases (c == k)) [
  | inl here ↦ rw (split_cons_sep c k s here) (tt, split-Lacks j k s h.1)
  | inr other ↦
      rw (split_cons_other c k s other)
        (push_head-Lacks j c (split s (k ∷ [])) h.0 (split-Lacks j k s h.1))
]

-- No part holds the separator.
pub split_sep-Lacks : (k : ℕ) (s : Text) → All (Lacks k) (split s (k ∷ []))
split_sep-Lacks k [] = unfold split in (tt, tt)
split_sep-Lacks k (c ∷ s) = elim (Bool-cases (c == k)) [
  | inl here ↦ rw (split_cons_sep c k s here) (tt, split_sep-Lacks k s)
  | inr other ↦
      rw (split_cons_other c k s other)
        (push_head-Lacks k c (split s (k ∷ [])) (ground arith) (split_sep-Lacks k s))
]
