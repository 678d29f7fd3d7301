-- ===== src/Version/Order.antt =====
-- Version.Compare and the predicates on upgrades, against the lexicographic order on the three
-- numbers.
use gochoreo.Common.{◌≡◌, ◌↔◌, zero, suc, ◌⊎◌, Bool, true, false, arith, ◌||◌}
use gochoreo.Common.Int.{
  ℤ, pos, negsuc, ◌<ℤ◌, ltb_ℤ, eqb_ℤ_iff, ltb_ℤ_iff, ltb_ℤ_trans, ltb_ℤ_irrefl, eqb_ℤ_comm,
  ltb_ℤ_swap,
}
use gochoreo.Version.{
  Version, compare, is_compatible, is_major_breaking, is_minor_upgrade, is_patch_upgrade,
}

-- The order of semantic versions on major, minor and patch.
abbrev pub Precedes : Version → Version → Type 0
Precedes v w =
    (v.major <ℤ w.major)
    ⊎ ((v.major ≡ w.major) × ((v.minor <ℤ w.minor) ⊎ ((v.minor ≡ w.minor) × (v.patch <ℤ w.patch))))

abbrev pub SameNumbers : Version → Version → Type 0
SameNumbers v w = (v.major ≡ w.major) × (v.minor ≡ w.minor) × (v.patch ≡ w.patch)

-- The test of the order, as a Boolean.
abbrev pub precedes : Version → Version → Bool
precedes v w = ltb_ℤ (compare v w) (pos 0)

module _ (v w : Version) where
  pub compare-eq_zero_iff : (compare v w ≡ pos 0) ↔ SameNumbers v w
  unfolding compare
  compare-eq_zero_iff =
      ground
        (arith, eqb_ℤ_iff v.major w.major, eqb_ℤ_iff v.minor w.minor, eqb_ℤ_iff v.patch w.patch)

  pub compare-eq_neg_iff : (compare v w ≡ negsuc 0) ↔ Precedes v w
  unfolding compare
  compare-eq_neg_iff = ground (
    arith,
    eqb_ℤ_iff v.major w.major,
    eqb_ℤ_iff v.minor w.minor,
    eqb_ℤ_iff v.patch w.patch,
    ltb_ℤ_iff v.major w.major,
    ltb_ℤ_iff v.minor w.minor,
    ltb_ℤ_iff v.patch w.patch,
  )

-- Comparing the other way round gives the opposite sign.
abbrev pub opposite : ℤ → ℤ
opposite (pos zero) = pos 0
opposite (pos (suc n)) = negsuc n
opposite (negsuc n) = pos (suc n)

pub compare-swap : (v w : Version) → compare w v ≡ opposite (compare v w)
unfolding compare
compare-swap v w = ground (
  arith,
  eqb_ℤ_comm v.major w.major,
  eqb_ℤ_comm v.minor w.minor,
  eqb_ℤ_comm v.patch w.patch,
  ltb_ℤ_swap v.major w.major,
  ltb_ℤ_swap v.minor w.minor,
  ltb_ℤ_swap v.patch w.patch,
)

-- Exactly one of the three results.
pub compare_values :
    (v w : Version) → (compare v w ≡ negsuc 0) ⊎ ((compare v w ≡ pos 0) ⊎ (compare v w ≡ pos 1))
unfolding compare
compare_values v w = ground arith

pub compare-eq_pos_iff : (v w : Version) → (compare v w ≡ pos 1) ↔ Precedes w v
compare-eq_pos_iff v w =
    ground (arith, compare-eq_neg_iff w v, compare-swap v w, compare_values v w)

Precedes-trans : (u v w : Version) → Precedes u v → Precedes v w → Precedes u w
Precedes-trans u v w h k = ground (
  arith,
  ltb_ℤ_iff u.major v.major,
  ltb_ℤ_iff v.major w.major,
  ltb_ℤ_iff u.major w.major,
  ltb_ℤ_iff u.minor v.minor,
  ltb_ℤ_iff v.minor w.minor,
  ltb_ℤ_iff u.minor w.minor,
  ltb_ℤ_iff u.patch v.patch,
  ltb_ℤ_iff v.patch w.patch,
  ltb_ℤ_iff u.patch w.patch,
  ltb_ℤ_trans u.major v.major w.major,
  ltb_ℤ_trans u.minor v.minor w.minor,
  ltb_ℤ_trans u.patch v.patch w.patch,
)

-- Compare is the lexicographic order on the three numbers: -1 exactly when the first version
-- precedes the second, 1 exactly when it is preceded, 0 exactly when the three numbers agree.
pub compare_lem :
    (v w : Version)
    → ((compare v w ≡ negsuc 0) ↔ Precedes v w)
      × ((compare v w ≡ pos 1) ↔ Precedes w v)
      × ((compare v w ≡ pos 0) ↔ SameNumbers v w)
compare_lem v w = (compare-eq_neg_iff v w, compare-eq_pos_iff v w, compare-eq_zero_iff v w)

pub precedes_iff : (v w : Version) → (precedes v w ≡ true) ↔ Precedes v w
precedes_iff v w = ground (arith, compare-eq_neg_iff v w, compare_values v w)

pub precedes_trans :
    (u v w : Version) → precedes u v ≡ true → precedes v w ≡ true → precedes u w ≡ true
precedes_trans u v w h k =
    (precedes_iff u w).1 (Precedes-trans u v w ((precedes_iff u v).0 h) ((precedes_iff v w).0 k))

pub precedes_asymm : (u v : Version) → precedes u v ≡ true → precedes v u ≡ false
precedes_asymm u v h = ground (arith, compare-swap u v, compare_values u v)

-- Versions that neither precede nor follow compare alike with every other.
pub precedes_total :
    (u v w : Version) → precedes u v ≡ false → precedes v w ≡ false → precedes u w ≡ false
precedes_total u v w h k = ground (
  arith,
  precedes_iff u v,
  precedes_iff v w,
  precedes_iff u w,
  compare_values u v,
  compare-eq_zero_iff u v,
  compare-eq_pos_iff u v,
  Precedes-trans v u w,
)

-- A version is compatible with another exactly when the major numbers agree and it does not
-- precede the other.
pub is_compatible_iff :
    (v w : Version) → (is_compatible v w ≡ true) ↔ ((v.major ≡ w.major) × ¬ Precedes v w)
unfolding is_compatible
is_compatible_iff v w = ground (arith, eqb_ℤ_iff v.major w.major, precedes_iff v w)

-- A newer version is a major break, a minor upgrade or a patch upgrade, and no other version is any
-- of these.
pub upgrade_iff :
    (v w : Version)
    → ((is_major_breaking v w || is_minor_upgrade v w || is_patch_upgrade v w) ≡ true)
      ↔ Precedes w v
unfolding is_major_breaking is_minor_upgrade is_patch_upgrade
upgrade_iff v w = ground (
  arith,
  eqb_ℤ_iff v.major w.major,
  eqb_ℤ_iff v.minor w.minor,
  ltb_ℤ_iff w.major v.major,
  ltb_ℤ_iff w.minor v.minor,
  ltb_ℤ_iff w.patch v.patch,
)

-- No two of the three kinds of upgrade meet.
pub upgrade_exclusive :
    (v w : Version)
    → (is_major_breaking v w ≡ true
        → (is_minor_upgrade v w ≡ false) × (is_patch_upgrade v w ≡ false))
      × (is_minor_upgrade v w ≡ true → is_patch_upgrade v w ≡ false)
unfolding is_major_breaking is_minor_upgrade is_patch_upgrade
upgrade_exclusive v w = ground (
  arith,
  eqb_ℤ_iff v.major w.major,
  eqb_ℤ_iff v.minor w.minor,
  ltb_ℤ_irrefl v.major,
  ltb_ℤ_irrefl v.minor,
)
