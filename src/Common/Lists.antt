-- ===== src/Common/Lists.antt =====
-- Slices as lists: `len`, an index, the loops that filter or search, membership, and what holds of
-- every element.
use Prim.Native.Nat.{ℕ, suc, zero}
use mathlib.Core.Path.{◌≡◌, refl, ap}
use mathlib.Core.Logic.{◌↔◌, ◌≢◌, ◌⊎◌, inl, inr}
use mathlib.Core.Bool.{Bool, true, false, ◌||◌}
use mathlib.Core.Option.{Option, none, some}
use mathlib.Core.List.{List, [], ◌∷◌, ◌++◌}
use native.Mathlib.Omega.{arith}
use gochoreo.Common.Tests.{if◌then◌else◌, Bool-cases}

module _ {ℓ} {A : Type ℓ} where
  abbrev pub length : List A → ℕ
  length [] = 0
  length (x ∷ xs) = suc (length xs)

  abbrev pub get_elem? : List A → ℕ → Option A
  get_elem? [] i = none
  get_elem? (x ∷ xs) zero = some x
  get_elem? (x ∷ xs) (suc i) = get_elem? xs i

  abbrev pub drop : ℕ → List A → List A
  drop zero xs = xs
  drop (suc n) [] = []
  drop (suc n) (x ∷ xs) = drop n xs

  abbrev pub take : ℕ → List A → List A
  take zero xs = []
  take (suc n) [] = []
  take (suc n) (x ∷ xs) = x ∷ take n xs

  abbrev pub is_empty : List A → Bool
  is_empty [] = true
  is_empty (x ∷ xs) = false

  -- `for … { if p(x) { out = append(out, x) } }`
  abbrev pub filter : (A → Bool) → List A → List A
  filter p [] = []
  filter p (x ∷ xs) = if p x then x ∷ filter p xs else filter p xs

  -- `for … { if p(x) { return true } }; return false`
  abbrev pub any : (A → Bool) → List A → Bool
  any p [] = false
  any p (x ∷ xs) = p x || any p xs

  -- `for … { if p(x) { return x } }`
  abbrev pub find : (A → Bool) → List A → Option A
  find p [] = none
  find p (x ∷ xs) = if p x then some x else find p xs

pub List-cases {ℓ} :
    {A : Type ℓ} (xs : List A) → (xs ≡ []) ⊎ ((x : A) × (r : List A) × (xs ≡ x ∷ r))
List-cases [] = inl refl
List-cases (x ∷ r) = inr (x, r, refl)

-- Elements of a slice stand at level 0, where `⊥` does.
module _ {A : Type 0} where
  abbrev pub Mem : A → List A → Type 0
  Mem a [] = ⊥
  Mem a (x ∷ xs) = (a ≡ x) ⊎ Mem a xs

  pub Mem-filter :
      (p : A → Bool) (a : A) (xs : List A) → Mem a (filter p xs) ↔ (Mem a xs × (p a ≡ true))
  Mem-filter p a [] = (λ h. absurd h, λ h. h.0)
  Mem-filter p a (x ∷ xs) = grind (arith, Mem-filter p a xs)

  pub Mem-append_right : (a : A) (xs ys : List A) → Mem a ys → Mem a (xs ++ ys)
  Mem-append_right a [] ys h = h
  Mem-append_right a (x ∷ xs) ys h = inr (Mem-append_right a xs ys h)

  pub any-eq-false :
      (p : A → Bool) (a : A) (xs : List A) → any p xs ≡ false → Mem a xs → p a ≡ false
  any-eq-false p a [] e h = absurd h
  any-eq-false p a (x ∷ xs) e h = ground (arith, any-eq-false p a xs)

  pub any_of_Mem : (p : A → Bool) (a : A) (xs : List A) → Mem a xs → p a ≡ true → any p xs ≡ true
  any_of_Mem p a [] h e = absurd h
  any_of_Mem p a (x ∷ xs) h e = ground (arith, any_of_Mem p a xs)

  pub exists_of_any :
      (p : A → Bool) (xs : List A) → any p xs ≡ true → (a : A) × Mem a xs × (p a ≡ true)
  exists_of_any p [] e = cc
  exists_of_any p (x ∷ xs) e = elim (Bool-cases (p x)) [
    | inl h ↦ (x, inl refl, h)
    | inr h ↦ let (a, m, q) = exists_of_any p xs (rw h at e) in (a, inr m, q)
  ]

module _ {ℓ κ} {A : Type ℓ} (P : A → Type κ) where
  abbrev pub All : List A → Type κ
  All [] = Unit
  All (x ∷ xs) = P x × All xs

  pub All-append : (xs ys : List A) → All xs → All ys → All (xs ++ ys)
  All-append [] ys _ hy = hy
  All-append (x ∷ xs) ys (p, h) hy = (p, All-append xs ys h hy)

pub is_empty-false {ℓ} : {A : Type ℓ} (xs : List A) → (is_empty xs ≡ false) ↔ (xs ≢ [])
is_empty-false [] = (λ e. cc, λ h. absurd (h refl))
is_empty-false (x ∷ xs) = (λ e q. cc, λ h. refl)

pub length-append_one {ℓ} :
    {A : Type ℓ} (xs : List A) (a : A) → length (xs ++ a ∷ []) ≡ suc (length xs)
length-append_one [] a = refl
length-append_one (x ∷ xs) a = ap suc (length-append_one xs a)
