-- ===== src/Sort/Insertion.antt =====
-- Insertion sort meets what the package sort promises.
use mathlib.Core.List.{Permᴰ}
use mathlib.Core.List.Permᴰ
use gochoreo.Common.{
  ◌≡◌, refl, Bool, false, List, [], ◌∷◌, All, if◌then◌else◌, Bool-cases, inl, inr, arith,
}
use gochoreo.Sort.{IsStrictWeak, IsSorted, SortPackage}

unfoldable pub insert_sorted : (A : Type 0) → (A → A → Bool) → A → List A → List A
insert_sorted A less x [] = x ∷ []
insert_sorted A less x (y ∷ ys) = if less y x then y ∷ insert_sorted A less x ys else x ∷ y ∷ ys

unfoldable pub insertion_sort : (A : Type 0) → (A → A → Bool) → List A → List A
unfolding insert_sorted
insertion_sort A less [] = []
insertion_sort A less (x ∷ xs) = insert_sorted A less x (insertion_sort A less xs)

insert_sorted-perm :
    (A : Type 0) (less : A → A → Bool) (x : A) (ys : List A)
    → Permᴰ (insert_sorted A less x ys) (x ∷ ys)
unfolding insert_sorted
insert_sorted-perm A less x [] = Permᴰ.refl (x ∷ [])
insert_sorted-perm A less x (y ∷ ys) = elim (Bool-cases (less y x)) [
  | inl h ↦
      rw h (Permᴰ.trans (Permᴰ.cons refl (insert_sorted-perm A less x ys)) (Permᴰ.swap refl refl))
  | inr h ↦ rw h (Permᴰ.refl (x ∷ y ∷ ys))
]

pub insertion_sort-perm :
    (A : Type 0) (less : A → A → Bool) (xs : List A) → Permᴰ (insertion_sort A less xs) xs
unfolding insertion_sort
insertion_sort-perm A less [] = Permᴰ.nil
insertion_sort-perm A less (x ∷ xs) =
    Permᴰ.trans (insert_sorted-perm A less x (insertion_sort A less xs))
      (Permᴰ.cons refl (insertion_sort-perm A less xs))

module _ (A : Type 0) (less : A → A → Bool) (w : IsStrictWeak less) where
  below-All :
      (x y : A) (ys : List A)
      → less y x ≡ false
      → All (λ z. less z y ≡ false) ys
      → All (λ z. less z x ≡ false) ys
  below-All x y [] h a = tt
  below-All x y (z ∷ ys) h a = (w.weak z y x a.0 h, below-All x y ys h a.1)

  insert_All :
      (x y : A) (ys : List A)
      → less x y ≡ false
      → All (λ z. less z y ≡ false) ys
      → All (λ z. less z y ≡ false) (insert_sorted A less x ys)
  unfolding insert_sorted
  insert_All x y [] h a = (h, tt)
  insert_All x y (z ∷ ys) h a = ground (arith, insert_All x y ys h a.1)

  insert_sorted-IsSorted :
      (x : A) (ys : List A) → IsSorted less ys → IsSorted less (insert_sorted A less x ys)
  unfolding insert_sorted
  insert_sorted-IsSorted x [] s = (tt, tt)
  insert_sorted-IsSorted x (y ∷ ys) s = elim (Bool-cases (less y x)) [
    | inl h ↦ rw h (insert_All x y ys (w.asymm y x h) s.0, insert_sorted-IsSorted x ys s.1)
    | inr h ↦ rw h ((h, below-All x y ys h s.0), s)
  ]

  pub insertion_sort-IsSorted : (xs : List A) → IsSorted less (insertion_sort A less xs)
  unfolding insertion_sort
  insertion_sort-IsSorted [] = tt
  insertion_sort-IsSorted (x ∷ xs) =
      insert_sorted-IsSorted x (insertion_sort A less xs) (insertion_sort-IsSorted xs)

abbrev pub insertion : SortPackage
insertion = record {
  sort = insertion_sort;
  sort_perm = insertion_sort-perm;
  sort_sorted = λ A less xs w. insertion_sort-IsSorted A less w xs;
}
