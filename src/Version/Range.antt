-- ===== src/Version/Range.antt =====
-- VersionRange.Contains against a description of the range.
use gochoreo.Common.{
  ◌≡◌, refl, ◌↔◌, true, false, List, [], ◌∷◌, Mem, arith, any, any_of_Mem, exists_of_any,
  List-cases, inl, inr,
}
use gochoreo.Common.Int.{eqb_ℤ_iff}
use gochoreo.Version.{Version, VersionRange, is_zero, range_contains, same_numbers, range_versions}
use gochoreo.Version.Order.{
  Precedes, SameNumbers, compare-eq_neg_iff, compare-eq_pos_iff, compare_values,
  compare-eq_zero_iff,
}

pub same_numbers_iff : (v w : Version) → (same_numbers v w ≡ true) ↔ SameNumbers v w
same_numbers_iff v w =
    ground (arith, eqb_ℤ_iff v.major w.major, eqb_ℤ_iff v.minor w.minor, eqb_ℤ_iff v.patch w.patch)

-- A bound that is the zero version is no bound.
abbrev pub IsAtLeast : Version → Version → Type 0
IsAtLeast bound v = is_zero bound ≡ false → ¬ Precedes v bound

abbrev pub IsAtMost : Version → Version → Type 0
IsAtMost bound v = is_zero bound ≡ false → ¬ Precedes bound v

-- Without exact versions a range contains a version exactly when it does not precede the minimum
-- and the maximum does not precede it, where a zero version is no bound.
pub range_contains_bounds_iff :
    (vr : VersionRange) (v : Version)
    → vr.exact ≡ []
    → (range_contains vr v ≡ true) ↔ (IsAtLeast vr.min v × IsAtMost vr.max v)
unfolding range_contains
range_contains_bounds_iff vr v h = ground (
  arith,
  compare-eq_neg_iff v vr.min,
  compare-eq_pos_iff v vr.max,
  compare_values v vr.min,
  compare_values v vr.max,
)

-- With exact versions the bounds do not count: a version is contained exactly when one of them has
-- its three numbers.
pub range_contains_exact_iff :
    (vr : VersionRange) (v w : Version) (ws : List Version)
    → vr.exact ≡ w ∷ ws
    → (range_contains vr v ≡ true) ↔ ((u : Version) × Mem u vr.exact × SameNumbers u v)
unfolding range_contains
range_contains_exact_iff vr v w ws h = (listed, found)
  where
    listed : range_contains vr v ≡ true → (u : Version) × Mem u vr.exact × SameNumbers u v
    listed e =
        let (u, m, q) = exists_of_any (λ x. same_numbers x v) vr.exact (ground arith) in
        (u, m, (same_numbers_iff u v).0 q)

    found : (u : Version) × Mem u vr.exact × SameNumbers u v → range_contains vr v ≡ true
    found (u, m, q) =
        let hit : any (λ x. same_numbers x v) vr.exact ≡ true =
          any_of_Mem (λ x. same_numbers x v) u vr.exact m ((same_numbers_iff u v).1 q) in
        ground arith

not_Precedes_self : (v : Version) → ¬ Precedes v v
not_Precedes_self v = ground (arith, compare-eq_neg_iff v v, compare-eq_zero_iff v v)

-- Every version that `Versions` lists is in the range, if the maximum is.
pub range_versions-contained :
    (vr : VersionRange) (v : Version)
    → range_contains vr vr.max ≡ true
    → Mem v (range_versions vr)
    → range_contains vr v ≡ true
unfolding range_versions
range_versions-contained vr v h m = elim (List-cases vr.exact) [
  | inl none_exact ↦
      let (to, from) = range_contains_bounds_iff vr v none_exact in
      let (to_max, from_max) = range_contains_bounds_iff vr vr.max none_exact in
      from (ground (arith, to_max, not_Precedes_self vr.min, not_Precedes_self vr.max))
  | inr (w, ws, e) ↦ (range_contains_exact_iff vr v w ws e).1 (v, ground arith, (refl, refl, refl))
]
