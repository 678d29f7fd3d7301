-- ===== src/Apidef/Transforms.antt =====
-- The transformations of an API (pkg/apidef/models.go). regexp.Compile is a parameter: an error or a
-- regular expression. No two transformations share a condition, so that each holds its own.
use gochoreo.Common.{
  ℕ, suc, Option, none, some, List, [], ◌∷◌, ◌++◌, ◌≡◌, refl, ◌≢◌, ◌⊎◌, inl, inr, if◌then◌else◌,
  is_empty, Map, All, arith, false, Bool-cases, Option-cases, ap, map, if_elim,
}
use gochoreo.Text.{Text, codes, text_eq}
use gochoreo.Text.Equality.{text_eq_iff}
use gochoreo.Text.Decimal.{format_ℕ}
use gochoreo.Value.{Value}
use gochoreo.Apidef.Auth.{Err, plain, wrapping}

module _ {R : Type 0} (compile : Text → Err ⊎ R) where
  pub record TransformCondition : Type 0 where
    pub field : Text
    pub operator : Text
    pub value : Text
    pub regex : Option R

  pub record Transform : Type 0 where
    pub type : Text
    pub action : Text
    pub target : Text
    pub value : Text
    pub template : Text
    pub condition : Option TransformCondition
    pub config : Map Text Value

  abbrev pub regex_operator : Text
  regex_operator = codes "regex"

  -- The last test of Transform.Validate, on the condition.
  unfoldable pub compile_condition :
      Option TransformCondition → Option Err × Option TransformCondition
  unfolding text_eq
  compile_condition none = (none, none)
  compile_condition (some c) =
      if text_eq c.operator regex_operator
      then elim (compile c.value) [
        | inl err ↦ (some (wrapping (codes "invalid regex in transform condition: ") err), some c)
        | inr regex ↦ (none, some (record c { regex = some regex }))
      ]
      else (none, some c)

  -- Transform.Validate, which leaves the compiled expression in the condition.
  unfoldable pub validate_transform : Transform → Option Err × Transform
  unfolding compile_condition
  validate_transform t =
      if is_empty t.type
      then (some (plain (codes "transform type is required")), t)
      else if is_empty t.action
      then (some (plain (codes "transform action is required")), t)
      else if is_empty t.target
      then (some (plain (codes "transform target is required")), t)
      else let (err, condition) = compile_condition t.condition in
        (err, record t { condition = condition })

  -- A loop of APIDefinition.Validate over transformations, from an index on.
  unfoldable pub validate_transforms : Text → ℕ → List Transform → Option Err × List Transform
  unfolding validate_transform
  validate_transforms kind i [] = (none, [])
  validate_transforms kind i (t ∷ ts) =
      let (err, t') = validate_transform t in
      let (err', ts') = validate_transforms kind (suc i) ts in
      elim err [
        | some e ↦ (
          some (
              wrapping (kind ++ codes " transform " ++ format_ℕ i ++ codes " validation failed: ")
                e),
          t' ∷ ts,
        )
        | none ↦ (err', t' ∷ ts')
      ]

  -- A transformation that can be applied: it is complete, and a condition on a regular expression
  -- holds the compiled form of its value.
  abbrev pub Compiled : Option TransformCondition → Type 0
  Compiled none = Unit
  Compiled (some c) =
      c.operator ≡ regex_operator → (r : R) × (compile c.value ≡ inr r) × (c.regex ≡ some r)

  pub record IsReady (t : Transform) : Type 0 where
    pub typed : t.type ≢ []
    pub acts : t.action ≢ []
    pub targets : t.target ≢ []
    pub compiled : Compiled t.condition

  -- The results of compiling.
  compile-cases : (s : Text) → ((e : Err) × (compile s ≡ inl e)) ⊎ ((r : R) × (compile s ≡ inr r))
  compile-cases s = go (compile s)
    where
      go : (x : Err ⊎ R) → ((e : Err) × (x ≡ inl e)) ⊎ ((r : R) × (x ≡ inr r))
      go (inl e) = inl (e, refl)
      go (inr r) = inr (r, refl)

  never : {err : Err} → some err ≡ none → ⊥
  never q = cc

  compile_condition-Compiled :
      (c : Option TransformCondition)
      → (compile_condition c).0 ≡ none
      → Compiled (compile_condition c).1
  unfolding compile_condition
  compile_condition-Compiled none e = tt
  compile_condition-Compiled (some c) e = elim (Bool-cases (text_eq c.operator regex_operator)) [
    | inl regex ↦ elim (compile-cases c.value) [
      | inl (err, bad) ↦ absurd (never (rw (compile_condition, regex, bad) at e))
      | inr (r, good) ↦ rw (compile_condition, regex, good) (λ q. (r, good, refl))
    ]
    | inr other ↦
        rw (compile_condition, other)
          (λ q. ground (arith, q, text_eq_iff c.operator regex_operator))
  ]

  validate_transform-IsReady :
      (t : Transform) → (validate_transform t).0 ≡ none → IsReady (validate_transform t).1
  unfolding validate_transform
  validate_transform-IsReady t e = elim (Bool-cases (is_empty t.type)) [
    | inl untyped ↦ absurd (never (rw (validate_transform, untyped) at e))
    | inr typed ↦ elim (Bool-cases (is_empty t.action)) [
      | inl idle ↦ absurd (never (rw (validate_transform, typed, idle) at e))
      | inr acts ↦ elim (Bool-cases (is_empty t.target)) [
        | inl nowhere ↦ absurd (never (rw (validate_transform, typed, acts, nowhere) at e))
        | inr targets ↦
            rw (validate_transform, typed, acts, targets)
              (record {
                typed = full t.type typed;
                acts = full t.action acts;
                targets = full t.target targets;
                compiled =
                    compile_condition-Compiled t.condition
                      (rw (validate_transform, typed, acts, targets) at e);
              })
      ]
    ]
  ]
    where
      full : (s : Text) → is_empty s ≡ false → s ≢ []
      full [] q = cc
      full (k ∷ s) q = λ p. cc

  -- When a list of transformations is accepted, all that it leaves are ready.
  pub validate_transforms-IsReady :
      (kind : Text) (i : ℕ) (ts : List Transform)
      → (validate_transforms kind i ts).0 ≡ none
      → All IsReady (validate_transforms kind i ts).1
  unfolding validate_transforms
  validate_transforms-IsReady kind i [] e = tt
  validate_transforms-IsReady kind i (t ∷ ts) e = elim (Option-cases (validate_transform t).0) [
    | inl fine ↦
        rw (validate_transforms, fine)
          (
            validate_transform-IsReady t fine,
            validate_transforms-IsReady kind (suc i) ts (rw (validate_transforms, fine) at e),
          )
    | inr (err, bad) ↦ absurd (never (rw (validate_transforms, bad) at e))
  ]

  abbrev pub strip : Option TransformCondition → Option TransformCondition
  strip none = none
  strip (some c) = some (record c { regex = none })

  -- A transformation without its compiled expression.
  abbrev pub without_regex : Transform → Transform
  without_regex t = record t { condition = strip t.condition }

  strip-compile_condition :
      (c : Option TransformCondition) → strip (compile_condition c).1 ≡ strip c
  unfolding compile_condition
  strip-compile_condition none = refl
  strip-compile_condition (some c) = elim (Bool-cases (text_eq c.operator regex_operator)) [
    | inl regex ↦ elim (compile-cases c.value) [
      | inl (err, bad) ↦ rw (compile_condition, regex, bad) refl
      | inr (r, good) ↦ rw (compile_condition, regex, good) refl
    ]
    | inr other ↦ rw (compile_condition, other) refl
  ]

  without_regex-validate_transform :
      (t : Transform) → without_regex (validate_transform t).1 ≡ without_regex t
  unfolding validate_transform
  without_regex-validate_transform t = if_elim P (is_empty t.type) _ _ refl (
      if_elim P (is_empty t.action) _ _ refl (
        if_elim P (is_empty t.target) _ _ refl
          (ap (λ c. record t { condition = c }) (strip-compile_condition t.condition))))
    where
      P : Option Err × Transform → Type 0
      P r = without_regex r.1 ≡ without_regex t

  -- Whether it accepts them or not, Validate changes nothing but compiled expressions.
  pub map-validate_transforms :
      (kind : Text) (i : ℕ) (ts : List Transform)
      → map without_regex (validate_transforms kind i ts).1 ≡ map without_regex ts
  unfolding validate_transforms
  map-validate_transforms kind i [] = refl
  map-validate_transforms kind i (t ∷ ts) = elim (Option-cases (validate_transform t).0) [
    | inl fine ↦
        rw (validate_transforms, fine)
          (both (without_regex-validate_transform t) (map-validate_transforms kind (suc i) ts))
    | inr (err, bad) ↦
        rw (validate_transforms, bad) (both (without_regex-validate_transform t) refl)
  ]
    where
      both : {a b : Transform} {us vs : List Transform} → a ≡ b → us ≡ vs → a ∷ us ≡ b ∷ vs
      both e e' = cc
