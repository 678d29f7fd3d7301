-- ===== src/Dragonfly/Keys.antt =====
-- BuildRedisKey and SplitRedisKey (pkg/dragonfly/utils.go).
use gochoreo.Common.{
  ◌≡◌, refl, none, some, [], ◌∷◌, ◌++◌, if◌then◌else◌, is_empty, Option-cases, inl, inr, ◌⊎◌, sym,
}
use gochoreo.Text.{Text, cut}
use gochoreo.Text.Parts.{Lacks, cut_middle, cut_sound}

unfoldable pub build_redis_key : Text → Text → Text
build_redis_key namespace key = if is_empty namespace then key else namespace ++ b':' ∷ key

-- The namespace and the key.
unfoldable pub split_redis_key : Text → Text × Text
split_redis_key full_key = elim (cut full_key b':') [
  | some (namespace, key) ↦ (namespace, key)
  | none ↦ ([], full_key)
]

-- A key that is built from a namespace without a colon is split back into the two, unless the
-- namespace is empty and the key has a colon: then what is before the colon is taken for the
-- namespace.
pub split_redis_key-build_redis_key :
    (namespace key : Text)
    → Lacks b':' namespace
    → split_redis_key (build_redis_key namespace key)
      ≡ (if is_empty namespace then split_redis_key key else (namespace, key))
unfolding build_redis_key split_redis_key
split_redis_key-build_redis_key [] key h = refl
split_redis_key-build_redis_key (c ∷ namespace) key h =
    rw (cut_middle b':' (c ∷ namespace) key h, split_redis_key) refl

-- Building from what a full key is split into gives the full key back, but for a colon at its
-- start, which is lost.
pub build_redis_key-split_redis_key :
    (full_key : Text)
    → let (namespace, key) = split_redis_key full_key in
      (build_redis_key namespace key ≡ full_key)
      ⊎ ((namespace ≡ []) × (full_key ≡ b':' ∷ key) × (build_redis_key namespace key ≡ key))
unfolding build_redis_key split_redis_key
build_redis_key-split_redis_key full_key = elim (Option-cases (cut full_key b':')) [
  | inl missing ↦ rw (missing, split_redis_key) (inl refl)
  | inr (([], key), there) ↦
      rw (there, split_redis_key) (inr (refl, (cut_sound full_key b':' [] key there).0, refl))
  | inr ((c ∷ namespace, key), there) ↦
      rw (there, split_redis_key) (inl (sym (cut_sound full_key b':' (c ∷ namespace) key there).0))
]
