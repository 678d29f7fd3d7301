-- ===== src/Dragonfly/Metrics/Sums.antt =====
-- Sums of the counters of a map, and what Reset stores in them.
use gochoreo.Common.{
  ℕ, ◌<◌, ◌≡◌, refl, inl, inr, true, false, none, some, [], ◌∷◌, arith, if◌then◌else◌, Map, lookup,
  insert, has, Unique, insert-Unique, lookup-insert, has-insert_existing, Option-cases, Bool-cases,
  ap, ◌∙◌,
}
use gochoreo.Common.Word.{add64, mod64}
use gochoreo.Text.{Text, text_eq}
use gochoreo.Text.Equality.{text_key, text_eq_iff}
use gochoreo.Dragonfly.Metrics.{store_zeros, sum_from, add_at}

add64_swap : (t a b : ℕ) → add64 (add64 t a) b ≡ add64 (add64 t b) a
unfolding add64
add64_swap t a b = omega arith

add64_split : (t a b : ℕ) → add64 t (add64 a b) ≡ add64 (add64 t a) b
unfolding add64
add64_split t a b = omega arith

sum_from-add64 : (t n : ℕ) (m : Map Text ℕ) → sum_from (add64 t n) m ≡ add64 (sum_from t m) n
unfolding sum_from
sum_from-add64 t n [] = refl
sum_from-add64 t n ((c, v) ∷ m) =
    ap (λ s. sum_from s m) (add64_swap t n v) ∙ sum_from-add64 (add64 t v) n m

pub sum_from-insert :
    (t v n : ℕ) (c : Text) (m : Map Text ℕ)
    → lookup c m ≡ some v
    → sum_from t (insert c (add64 v n) m) ≡ add64 (sum_from t m) n
unfolding sum_from lookup insert
sum_from-insert t v n c [] h = cc
sum_from-insert t v n c ((d, w) ∷ m) h = elim (Bool-cases (text_eq d c)) [
  | inl same ↦ rw same (
      ap (λ s. sum_from s m) (ap (λ x. add64 t (add64 x n)) (found same h) ∙ add64_split t w n)
      ∙ sum_from-add64 (add64 t w) n m)
  | inr other ↦ rw other (sum_from-insert (add64 t w) v n c m (missed other h))
]
  where
    found : text_eq d c ≡ true → (if text_eq d c then some w else lookup c m) ≡ some v → v ≡ w
    found s k = ground arith

    missed :
        text_eq d c ≡ false
        → (if text_eq d c then some w else lookup c m) ≡ some v
        → lookup c m ≡ some v
    missed s k = rw s at k

pub sum_from-insert_new :
    (t : ℕ) (c : Text) (m : Map Text ℕ)
    → t < mod64
    → lookup c m ≡ none
    → sum_from t (insert c 0 m) ≡ sum_from t m
unfolding sum_from lookup insert add64
sum_from-insert_new t c [] h k = add64_zero t h
  where
    add64_zero : (t : ℕ) → t < mod64 → add64 t 0 ≡ t
    add64_zero t h = omega (arith, h)
sum_from-insert_new t c ((d, w) ∷ m) h k = elim (Bool-cases (text_eq d c)) [
  | inl same ↦ absurd (none_some (rw same at k))
  | inr other ↦ rw other (sum_from-insert_new (add64 t w) c m (add64_below t w) (rw other at k))
]
  where
    none_some : some w ≡ none → ⊥
    none_some q = cc

    add64_below : (a b : ℕ) → add64 a b < mod64
    add64_below a b = omega arith

-- The counters after the loop over the commands.
pub record IsZeroed (commands m m' : Map Text ℕ) : Type 0 where
  pub stored : store_zeros commands m ≡ some m'
  pub unique : Unique m'
  pub at : (c : Text) → lookup c m' ≡ (if has c commands then some 0 else lookup c m)

pub store_zeros_lem :
    (commands m : Map Text ℕ)
    → Unique m
    → ((c : Text) → has c commands ≡ true → has c m ≡ true)
    → (m' : Map Text ℕ) × IsZeroed commands m m'
unfolding store_zeros lookup
store_zeros_lem [] m u h = (m, record { stored = refl; unique = u; at = λ c. refl })
store_zeros_lem ((d, v) ∷ commands) m u h = elim (Option-cases (lookup d m)) [
  | inl missing ↦ absurd (no_key missing)
  | inr (w, there) ↦
      let (m', z) =
        store_zeros_lem commands (insert d 0 m) (insert-Unique d 0 m u) (tail w there) in
      (
        m',
        record {
          stored = rw (there, store_zeros) z.stored;
          unique = z.unique;
          at = λ c. at w there m' z c;
        },
      )
]
  where
    no_key : lookup d m ≡ none → ⊥
    no_key e = ground (arith, h d, text_eq_iff d d)

    tail :
        (w : ℕ)
        → lookup d m ≡ some w
        → (c : Text) → has c commands ≡ true
        → has c (insert d 0 m) ≡ true
    tail w e c k = ground (arith, h c, lookup-insert d c 0 m)

    at :
        (w : ℕ)
        → lookup d m ≡ some w
        → (m' : Map Text ℕ) → IsZeroed commands (insert d 0 m) m'
        → (c : Text) → lookup c m' ≡ (if has c ((d, v) ∷ commands) then some 0 else lookup c m)
    at w e m' z c = ground (arith, z.at c, lookup-insert d c 0 m)

pub zero_sum :
    (m : Map Text ℕ)
    → Unique m
    → ((c : Text) (v : ℕ) → lookup c m ≡ some v → v ≡ 0)
    → sum_from 0 m ≡ 0
unfolding sum_from lookup add64
zero_sum [] u h = refl
zero_sum ((d, w) ∷ m) u h = rw (h d w here) (zero_sum m u.1 tail)
  where
    here : (if text_eq d d then some w else lookup d m) ≡ some w
    here = ground (arith, text_eq_iff d d)

    tail : (c : Text) (v : ℕ) → lookup c m ≡ some v → v ≡ 0
    tail c v e = ground (arith, h c v, text_eq_iff d c, u.0)

-- A counter after `Add`.
pub record IsAdded (c : Text) (n : ℕ) (m m' : Map Text ℕ) : Type 0 where
  pub stored : add_at c n m ≡ some m'
  pub unique : Unique m'
  pub same_keys : (k : Text) → has k m' ≡ has k m
  pub sum : sum_from 0 m' ≡ add64 (sum_from 0 m) n

pub add_at_lem :
    (c : Text) (n : ℕ) (m : Map Text ℕ)
    → Unique m
    → has c m ≡ true
    → (m' : Map Text ℕ) × IsAdded c n m m'
unfolding add_at
add_at_lem c n m u known = elim (Option-cases (lookup c m)) [
  | inl missing ↦ absurd (no_key missing)
  | inr (v, there) ↦ (
    insert c (add64 v n) m,
    record {
      stored = rw (there, add_at) refl;
      unique = insert-Unique c (add64 v n) m u;
      same_keys = λ k. has-insert_existing c k (add64 v n) v m there;
      sum = sum_from-insert 0 v n c m there;
    },
  )
]
  where
    no_key : lookup c m ≡ none → ⊥
    no_key e = ground (arith, known)
