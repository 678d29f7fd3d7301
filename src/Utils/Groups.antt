-- ===== src/Utils/Groups.antt =====
-- GetMajorVersions and GroupVersionsByMajor.
use gochoreo.Common.{
  ◌≡◌, refl, ◌↔◌, inl, inr, Bool, true, Option, none, some, List, [], ◌∷◌, ◌++◌, arith, Mem, any,
  ◌||◌, Bool-cases, Option-cases, filter, is_empty, Map, lookup, insert, keys, has, lookup-insert,
  Mem-keys_iff, ◌∙◌, if◌then◌else◌, ap, sym, subst,
}
use mathlib.Core.List.{append-nil, append_assoc}
use mathlib.Core.List.Permᴰ
use mathlib.Core.Option
use gochoreo.Common.Int.{ℤ, eqb_ℤ, eqb_ℤ_iff, ltb_ℤ, ltb_ℤ_asymm, int_key}
use gochoreo.Sort.{SortPackage, IsStrictWeak, IsSorted, Permᴰ-Mem}
use gochoreo.Version.{Version}
use gochoreo.Utils.{
  major_map, get_major_versions, group_of, collect_groups, sort_groups, group_versions_by_major,
  sort_versions, filter_versions_by_major,
}

abbrev of_major : ℤ → List Version → List Version
of_major major versions = filter (λ v. eqb_ℤ v.major major) versions

-- No entry for an empty group.
abbrev entry : List Version → Option (List Version)
entry [] = none
entry (v ∷ vs) = some (v ∷ vs)

-- What collecting adds to an entry.
abbrev extend : Option (List Version) → List Version → Option (List Version)
extend none vs = entry vs
extend (some group) vs = some (group ++ vs)

group_of_entry :
    (major : ℤ) (v : Version) (groups : Map ℤ (List Version)) (rest : List Version)
    → extend (some (group_of major groups ++ v ∷ [])) rest ≡ extend (lookup major groups) (v ∷ rest)
group_of_entry major v groups rest = elim (Option-cases (lookup major groups)) [
  | inl missing ↦ rw (missing, group_of)
  | inr (group, found) ↦ rw (found, group_of) (ap some (append_assoc group (v ∷ []) rest))
]

-- One round of the loop.
extend-insert :
    (major : ℤ) (v : Version) (groups : Map ℤ (List Version)) (rest : List Version)
    → extend (lookup major (insert v.major (group_of v.major groups ++ v ∷ []) groups)) rest
      ≡ extend (lookup major groups) (if eqb_ℤ v.major major then v ∷ rest else rest)
extend-insert major v groups rest =
    rw (lookup-insert v.major major (group_of v.major groups ++ v ∷ []) groups)
      (elim (Bool-cases (eqb_ℤ v.major major)) [
        | inl same ↦
            let e : v.major ≡ major = (eqb_ℤ_iff v.major major).0 same in
            rw same (
              subst
                (λ m.
                  extend (some (group_of m groups ++ v ∷ [])) rest
                  ≡ extend (lookup major groups) (v ∷ rest))
                (sym e) (group_of_entry major v groups rest))
        | inr other ↦ rw other
      ])

lookup-collect_groups :
    (major : ℤ) (versions : List Version) (groups : Map ℤ (List Version))
    → lookup major (collect_groups versions groups)
      ≡ extend (lookup major groups) (of_major major versions)
unfolding collect_groups
lookup-collect_groups major [] groups = elim (Option-cases (lookup major groups)) [
  | inl missing ↦ rw missing
  | inr (group, found) ↦ rw found (ap some (sym (append-nil group)))
]
lookup-collect_groups major (v ∷ vs) groups =
    lookup-collect_groups major vs (insert v.major (group_of v.major groups ++ v ∷ []) groups)
    ∙ extend-insert major v groups (of_major major vs)

module _ (p : SortPackage) where
  lookup-sort_groups :
      (major : ℤ) (groups : Map ℤ (List Version))
      → lookup major (sort_groups p groups) ≡ Option.map (sort_versions p) (lookup major groups)
  unfolding sort_groups lookup
  lookup-sort_groups major [] = refl
  lookup-sort_groups major ((j, group) ∷ groups) = elim (Bool-cases (eqb_ℤ j major)) [
    | inl same ↦ rw same
    | inr other ↦ rw other (lookup-sort_groups major groups)
  ]

  -- GroupVersionsByMajor has an entry for a major number exactly when some version has it, and the
  -- entry is the sorted list of the versions that have it, in the order in which they came.
  pub lookup-group_versions_by_major :
      (major : ℤ) (versions : List Version)
      → lookup major (group_versions_by_major p versions) ≡ (
          let group = filter_versions_by_major versions major in
          if is_empty group then none else some (sort_versions p group))
  unfolding group_versions_by_major filter_versions_by_major lookup
  lookup-group_versions_by_major major versions =
      lookup-sort_groups major (collect_groups versions [])
      ∙ ap (Option.map (sort_versions p)) (lookup-collect_groups major versions [])
      ∙ map_entry (of_major major versions)
    where
      map_entry :
          (group : List Version)
          → Option.map (sort_versions p) (extend (lookup major []) group)
            ≡ (if is_empty group then none else some (sort_versions p group))
      map_entry [] = refl
      map_entry (v ∷ vs) = refl

-- majorMap has exactly the major numbers of the versions for keys.
has-major_map :
    (n : ℤ) (versions : List Version) (seen : Map ℤ Bool)
    → has n (major_map versions seen) ≡ (any (λ v. eqb_ℤ v.major n) versions || has n seen)
unfolding major_map
has-major_map n [] seen = refl
has-major_map n (v ∷ vs) seen =
    has-major_map n vs (insert v.major true seen)
    ∙ ground (arith, lookup-insert v.major n true seen)

has_major :
    (n : ℤ) (versions : List Version)
    → has n (major_map versions []) ≡ any (λ v. eqb_ℤ v.major n) versions
has_major n versions = has-major_map n versions [] ∙ or_false (any (λ v. eqb_ℤ v.major n) versions)
  where
    or_false : (b : Bool) → (b || has {V = Bool} n []) ≡ b
    or_false b = unfold lookup in ground arith

ltb_ℤ-IsStrictWeak : IsStrictWeak ltb_ℤ
ltb_ℤ-IsStrictWeak = record { asymm = ltb_ℤ_asymm; weak = λ a b c h k. ground arith }

module _ (p : SortPackage) (versions : List Version) where
  -- GetMajorVersions returns the major numbers of the versions, and no other, in ascending order.
  pub get_major_versions_lem :
      ((n : ℤ)
        → Mem n (get_major_versions p versions) ↔ (any (λ v. eqb_ℤ v.major n) versions ≡ true))
      × IsSorted ltb_ℤ (get_major_versions p versions)
  unfolding get_major_versions
  get_major_versions_lem = (members, p.sort_sorted ℤ ltb_ℤ all_keys ltb_ℤ-IsStrictWeak)
    where
      all_keys : List ℤ
      all_keys = keys (major_map versions [])

      members :
          (n : ℤ) → Mem n (p.sort ℤ ltb_ℤ all_keys) ↔ (any (λ v. eqb_ℤ v.major n) versions ≡ true)
      members n =
          let sorted = p.sort_perm ℤ ltb_ℤ all_keys in
          let (to, from) = Mem-keys_iff n (major_map versions []) in
          let e = has_major n versions in
          (
            λ m. sym e ∙ to (Permᴰ-Mem n sorted m),
            λ h. Permᴰ-Mem n (Permᴰ.symm sorted) (from (e ∙ h)),
          )
