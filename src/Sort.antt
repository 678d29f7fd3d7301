-- ===== src/Sort.antt =====
-- Go's package sort, as the code relies on it: the sort is not stable and its algorithm is open, so
-- it is a parameter with the documented result. Sort/Insertion shows that it can be met.
pub mod Insertion
use mathlib.Core.List.{Permᴰ}
use mathlib.Core.List.Permᴰ
use gochoreo.Common.{
  ◌≡◌, Bool, true, false, List, [], ◌∷◌, Mem, All, ◌↔◌, inl, inr, ◌⊎◌, arith, ◌∙◌, sym, subst,
  length, ap, refl,
}

-- What `Less` must be: a strict weak order.
pub record IsStrictWeak {A : Type 0} (less : A → A → Bool) : Type 0 where
  pub asymm : (a b : A) → less a b ≡ true → less b a ≡ false
  pub weak : (a b c : A) → less a b ≡ false → less b c ≡ false → less a c ≡ false

-- No element is less than one before it.
abbrev pub IsSorted : {A : Type 0} → (A → A → Bool) → List A → Type 0
IsSorted less [] = Unit
IsSorted less (x ∷ xs) = All (λ y. less y x ≡ false) xs × IsSorted less xs

pub record SortPackage : Type 1 where
  pub sort : (A : Type 0) → (A → A → Bool) → List A → List A
  pub sort_perm : (A : Type 0) (less : A → A → Bool) (xs : List A) → Permᴰ (sort A less xs) xs
  pub sort_sorted :
      (A : Type 0) (less : A → A → Bool) (xs : List A)
      → IsStrictWeak less
      → IsSorted less (sort A less xs)

module _ {A : Type 0} where
  -- A rearrangement has the same elements.
  pub Permᴰ-Mem : {xs ys : List A} (a : A) → Permᴰ xs ys → Mem a xs → Mem a ys
  Permᴰ-Mem a Permᴰ.nil m = m
  Permᴰ-Mem a (Permᴰ.cons e p) (inl h) = inl (h ∙ e)
  Permᴰ-Mem a (Permᴰ.cons e p) (inr h) = inr (Permᴰ-Mem a p h)
  Permᴰ-Mem a (Permᴰ.swap e f) (inl h) = inr (inl (h ∙ e))
  Permᴰ-Mem a (Permᴰ.swap e f) (inr (inl h)) = inl (h ∙ f)
  Permᴰ-Mem a (Permᴰ.swap e f) (inr (inr h)) = inr (inr h)
  Permᴰ-Mem a (Permᴰ.trans p q) m = Permᴰ-Mem a q (Permᴰ-Mem a p m)

  pub Permᴰ-length : {xs ys : List A} → Permᴰ xs ys → length xs ≡ length ys
  Permᴰ-length Permᴰ.nil = refl
  Permᴰ-length (Permᴰ.cons e p) = omega (arith, Permᴰ-length p)
  Permᴰ-length (Permᴰ.swap e f) = refl
  Permᴰ-length (Permᴰ.trans p q) = Permᴰ-length p ∙ Permᴰ-length q

  All-Mem : (P : A → Type 0) (a : A) (xs : List A) → All P xs → Mem a xs → P a
  All-Mem P a [] h m = absurd m
  All-Mem P a (x ∷ xs) h (inl e) = subst P (sym e) h.0
  All-Mem P a (x ∷ xs) h (inr m) = All-Mem P a xs h.1 m

  -- Nothing is less than the first of a sorted list.
  pub sorted_head :
      (less : A → A → Bool) (x a : A) (xs : List A)
      → IsStrictWeak less
      → IsSorted less (x ∷ xs)
      → Mem a (x ∷ xs)
      → less a x ≡ false
  sorted_head less x a xs w s (inl e) = rw e (ground (arith, w.asymm x x))
  sorted_head less x a xs w s (inr m) = All-Mem (λ y. less y x ≡ false) a xs s.0 m
