-- ===== src/Common/Maps.antt =====
-- Go maps as association lists. A map's order of iteration, which Go leaves open, is the list's, so
-- a theorem for every map covers every order. A nil map reads as an empty one.
use mathlib.Core.Path.{◌≡◌, refl}
use mathlib.Core.Logic.{◌↔◌, ◌≢◌}
use mathlib.Core.Bool.{Bool, true}
use mathlib.Core.Option.{Option, none, some}
use mathlib.Core.List.{List, [], ◌∷◌}
use native.Mathlib.Omega.{arith}
use gochoreo.Common.Tests.{if◌then◌else◌, is_some}
use gochoreo.Common.Lists.{Mem}

-- Keys that can be compared.
pub record Eq (K : Type 0) : Type 0 where
  pub beq : K → K → Bool
  pub beq_iff : (a b : K) → (beq a b ≡ true) ↔ (a ≡ b)

abbrev pub Map : Type 0 → Type 0 → Type 0
Map K V = List (K × V)

module _ {K V : Type 0} ⦃e : Eq K⦄ where
  -- `v, ok := m[k]`
  unfoldable pub lookup : K → Map K V → Option V
  lookup k [] = none
  lookup k ((j, v) ∷ m) = if e.beq j k then some v else lookup k m

  -- `m[k] = v`
  unfoldable pub insert : K → V → Map K V → Map K V
  insert k v [] = (k, v) ∷ []
  insert k v ((j, w) ∷ m) = if e.beq j k then (j, v) ∷ m else (j, w) ∷ insert k v m

  -- `delete(m, k)`
  unfoldable pub delete : K → Map K V → Map K V
  delete k [] = []
  delete k ((j, w) ∷ m) = if e.beq j k then delete k m else (j, w) ∷ delete k m

  -- `_, ok := m[k]`
  abbrev pub has : K → Map K V → Bool
  has k m = is_some (lookup k m)

  abbrev pub keys : Map K V → List K
  keys [] = []
  keys ((j, v) ∷ m) = j ∷ keys m

  pub lookup-nil : (k : K) → lookup k [] ≡ none
  unfolding lookup
  lookup-nil k = refl

  pub lookup-insert :
      (k j : K) (v : V) (m : Map K V)
      → lookup j (insert k v m) ≡ (if e.beq k j then some v else lookup j m)
  unfolding lookup insert
  lookup-insert k j v [] = refl
  lookup-insert k j v ((i, w) ∷ m) =
      ground (arith, e.beq_iff k j, e.beq_iff i k, e.beq_iff i j, lookup-insert k j v m)

  pub lookup-delete :
      (k j : K) (m : Map K V) → lookup j (delete k m) ≡ (if e.beq k j then none else lookup j m)
  unfolding lookup delete
  lookup-delete k j [] = ground arith
  lookup-delete k j ((i, w) ∷ m) =
      ground (arith, e.beq_iff k j, e.beq_iff i k, e.beq_iff i j, lookup-delete k j m)

  pub lookup-insert_self : (k : K) (v : V) (m : Map K V) → lookup k (insert k v m) ≡ some v
  lookup-insert_self k v m = ground (arith, lookup-insert k k v m, e.beq_iff k k)

  pub lookup-insert_ne :
      (k j : K) (v : V) (m : Map K V) → k ≢ j → lookup j (insert k v m) ≡ lookup j m
  lookup-insert_ne k j v m h = ground (arith, lookup-insert k j v m, e.beq_iff k j)

  -- Writing at a key that is there adds no key.
  pub has-insert_existing :
      (k j : K) (v w : V) (m : Map K V) → lookup k m ≡ some w → has j (insert k v m) ≡ has j m
  has-insert_existing k j v w m h = ground (arith, lookup-insert k j v m, e.beq_iff k j)

  pub lookup-delete_self : (k : K) (m : Map K V) → lookup k (delete k m) ≡ none
  lookup-delete_self k m = ground (arith, lookup-delete k k m, e.beq_iff k k)

  -- No key stands twice.
  abbrev pub Unique : Map K V → Type 0
  Unique [] = Unit
  Unique ((k, v) ∷ m) = (lookup k m ≡ none) × Unique m

  pub insert-Unique : (k : K) (v : V) (m : Map K V) → Unique m → Unique (insert k v m)
  unfolding insert
  insert-Unique k v [] u = (unfold lookup in refl, tt)
  insert-Unique k v ((j, w) ∷ m) u =
      ground (arith, insert-Unique k v m u.1, lookup-insert k j v m, e.beq_iff k j, e.beq_iff j k)

  pub delete-Unique : (k : K) (m : Map K V) → Unique m → Unique (delete k m)
  unfolding delete
  delete-Unique k [] u = tt
  delete-Unique k ((j, w) ∷ m) u = ground (arith, delete-Unique k m u.1, lookup-delete k j m)

  pub lookup_of_Mem : (k : K) (v : V) (m : Map K V) → Unique m → Mem (k, v) m → lookup k m ≡ some v
  unfolding lookup
  lookup_of_Mem k v [] u h = absurd h
  lookup_of_Mem k v ((j, w) ∷ m) u h = ground (arith, lookup_of_Mem k v m u.1, e.beq_iff j k)

  pub Mem_of_lookup : (k : K) (v : V) (m : Map K V) → lookup k m ≡ some v → Mem (k, v) m
  unfolding lookup
  Mem_of_lookup k v [] h = cc
  Mem_of_lookup k v ((j, w) ∷ m) h = ground (arith, Mem_of_lookup k v m, e.beq_iff j k)

  pub Mem-keys_iff : (k : K) (m : Map K V) → Mem k (keys m) ↔ (has k m ≡ true)
  unfolding lookup
  Mem-keys_iff k [] = (λ h. absurd h, λ h. cc)
  Mem-keys_iff k ((j, w) ∷ m) = ground (arith, Mem-keys_iff k m, e.beq_iff j k)
