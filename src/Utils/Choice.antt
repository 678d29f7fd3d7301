-- ===== src/Utils/Choice.antt =====
-- GetLatestVersion, GetOldestVersion and FindClosestVersion, for every sort that keeps its promise.
use gochoreo.Common.{
  ◌≢◌, length, ◌≡◌, refl, ◌⊎◌, inl, inr, Bool, true, false, none, some, List, [], ◌∷◌, arith, Mem,
  Mem-filter, Bool-cases, Option-cases, List-cases, filter, find, is_empty,
}
use gochoreo.Common.Int.{pos, eqb_ℤ, eqb_ℤ_iff}
use gochoreo.Sort.{IsStrictWeak, IsSorted, SortPackage, Permᴰ-Mem, Permᴰ-length, sorted_head}
use gochoreo.Version.{Version, compare, is_compatible}
use gochoreo.Version.Order.{
  precedes, precedes_asymm, precedes_total, SameNumbers, compare-eq_zero_iff,
}
use gochoreo.Utils.{
  less, greater, sort_versions, sort_versions_descending, get_latest_version, get_oldest_version,
  find_closest_version, first_or_zero,
}
use mathlib.Core.List.{Permᴰ}
use mathlib.Core.List.Permᴰ

pub less-IsStrictWeak : IsStrictWeak less
less-IsStrictWeak = record { asymm = precedes_asymm; weak = precedes_total }

pub greater-IsStrictWeak : IsStrictWeak greater
greater-IsStrictWeak = record {
  asymm = λ a b h. precedes_asymm b a h;
  weak = λ a b c h k. precedes_total c b a k h;
}

-- An element that no other is less than.
abbrev pub IsLeast : (Version → Version → Bool) → Version → List Version → Type 0
IsLeast before r versions = Mem r versions × ((v : Version) → Mem v versions → before v r ≡ false)

empty_of_length :
    (versions : List Version) → length {A = Version} [] ≡ length versions → versions ≡ []
empty_of_length [] e = refl
empty_of_length (v ∷ vs) e = absurd (omega arith)

first-IsLeast :
    (before : Version → Version → Bool) (versions sorted : List Version)
    → IsStrictWeak before
    → versions ≢ []
    → Permᴰ sorted versions
    → IsSorted before sorted
    → IsLeast before (first_or_zero sorted) versions
first-IsLeast before versions [] w ne p s = absurd (ne (empty_of_length versions (Permᴰ-length p)))
first-IsLeast before versions (x ∷ xs) w ne p s =
    (Permᴰ-Mem x p (inl refl), λ v m. sorted_head before x v xs w s (Permᴰ-Mem v (Permᴰ.symm p) m))

module _ (p : SortPackage) where
  -- Of a list that is not empty, the latest version is one that no other is newer than.
  pub get_latest_version-IsLeast :
      (versions : List Version)
      → versions ≢ []
      → IsLeast greater (get_latest_version p versions) versions
  unfolding get_latest_version sort_versions_descending
  get_latest_version-IsLeast [] ne = absurd (ne refl)
  get_latest_version-IsLeast (v ∷ vs) ne =
      first-IsLeast greater (v ∷ vs) (p.sort Version greater (v ∷ vs)) greater-IsStrictWeak ne
        (p.sort_perm Version greater (v ∷ vs))
        (p.sort_sorted Version greater (v ∷ vs) greater-IsStrictWeak)

  -- Of a list that is not empty, the oldest version is one that no other is older than.
  pub get_oldest_version-IsLeast :
      (versions : List Version)
      → versions ≢ []
      → IsLeast less (get_oldest_version p versions) versions
  unfolding get_oldest_version sort_versions
  get_oldest_version-IsLeast [] ne = absurd (ne refl)
  get_oldest_version-IsLeast (v ∷ vs) ne =
      first-IsLeast less (v ∷ vs) (p.sort Version less (v ∷ vs)) less-IsStrictWeak ne
        (p.sort_perm Version less (v ∷ vs)) (p.sort_sorted Version less (v ∷ vs) less-IsStrictWeak)

-- What FindClosestVersion chooses.
abbrev pub NoneSame : Version → List Version → Type 0
NoneSame target available = (v : Version) → Mem v available → ¬ SameNumbers v target

abbrev pub IsNewestCompatible : Version → List Version → Version → Type 0
IsNewestCompatible target available r =
    (is_compatible r target ≡ true)
    × ((v : Version) → Mem v available → is_compatible v target ≡ true → precedes r v ≡ false)

abbrev pub IsNewest : Version → List Version → Version → Type 0
IsNewest target available r =
    ((v : Version) → Mem v available → is_compatible v target ≡ false)
    × ((v : Version) → Mem v available → precedes r v ≡ false)

abbrev pub IsClosest : Version → List Version → Version → Type 0
IsClosest target available r =
    Mem r available
    × (SameNumbers r target
        ⊎ (NoneSame target available
            × (IsNewestCompatible target available r ⊎ IsNewest target available r)))

find-Mem :
    (q : Version → Bool) (xs : List Version) {r : Version}
    → find q xs ≡ some r
    → Mem r xs × (q r ≡ true)
find-Mem q [] e = cc
find-Mem q (x ∷ xs) e = elim (Bool-cases (q x)) [
  | inl h ↦ ground arith
  | inr h ↦ let (m, t) = find-Mem q xs (rw h at e) in (inr m, t)
]

find-none :
    (q : Version → Bool) (xs : List Version) (v : Version)
    → find q xs ≡ none
    → Mem v xs
    → q v ≡ false
find-none q [] v e m = absurd m
find-none q (x ∷ xs) v e m = ground (arith, find-none q xs v)

filter-nil :
    (q : Version → Bool) (xs : List Version) (v : Version)
    → filter q xs ≡ []
    → Mem v xs
    → q v ≡ false
filter-nil q [] v e m = absurd m
filter-nil q (x ∷ xs) v e m = ground (arith, filter-nil q xs v)

module _ (p : SortPackage) (target : Version) (available : List Version) where
  newest-IsClosest :
      NoneSame target available
      → available ≢ []
      → filter (λ v. is_compatible v target) available ≡ []
      → IsClosest target available (get_latest_version p available)
  newest-IsClosest same ne e =
      let (m, least) = get_latest_version-IsLeast p available ne in
      (m, inr (same, inr ((λ v. filter-nil (λ x. is_compatible x target) available v e), least)))

  newest_compatible-IsClosest :
      NoneSame target available
      → filter (λ v. is_compatible v target) available ≢ []
      → IsClosest target available
          (get_latest_version p (filter (λ v. is_compatible v target) available))
  newest_compatible-IsClosest same ne =
      let q = λ (v : Version). is_compatible v target in
      let (m, least) = get_latest_version-IsLeast p (filter q available) ne in
      let (listed, compatible) = (Mem-filter q _ available).0 m in
      (
        listed,
        inr (same, inl (compatible, λ v mv cv. least v ((Mem-filter q v available).1 (mv, cv)))),
      )

  -- FindClosestVersion returns an available version: one with the target's three numbers if there
  -- is any; else a compatible one that no compatible one is newer than; else one that no available
  -- one is newer than. The list must not be empty.
  pub find_closest_version-IsClosest :
      available ≢ [] → IsClosest target available (find_closest_version p target available)
  unfolding find_closest_version
  find_closest_version-IsClosest ne =
      let listed : is_empty available ≡ false = ground arith in
      elim (Option-cases (find (λ v. eqb_ℤ (compare v target) (pos 0)) available)) [
        | inr (r, found) ↦
            let (m, same) = find-Mem (λ v. eqb_ℤ (compare v target) (pos 0)) available found in
            rw (listed, found)
              (
                m,
                inl (
                    (compare-eq_zero_iff r target).0
                      ((eqb_ℤ_iff (compare r target) (pos 0)).0 same)),
              )
        | inl missing ↦
            let same : NoneSame target available = λ v m h. ground (
              arith,
              find-none (λ v. eqb_ℤ (compare v target) (pos 0)) available v missing m,
              (compare-eq_zero_iff v target).1 h,
            ) in
            elim (List-cases (filter (λ v. is_compatible v target) available)) [
              | inl none_fits ↦ rw (listed, missing, none_fits) (newest-IsClosest same ne none_fits)
              | inr (x, xs, some_fit) ↦
                  let fits : filter (λ v. is_compatible v target) available ≢ [] = ground arith in
                  let full : is_empty (filter (λ v. is_compatible v target) available) ≡ false =
                    ground arith in
                  rw (listed, missing, full) (newest_compatible-IsClosest same fits)
            ]
      ]
