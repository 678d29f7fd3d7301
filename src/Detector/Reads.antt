-- ===== src/Detector/Reads.antt =====
-- Where each method of pkg/version/detector.go looks for a version, and what it reads there.
use gochoreo.Common.{
  ◌≡◌, refl, ◌≢◌, ◌⊎◌, ◌↔◌, inl, inr, true, false, Option, none, some, [], ◌∷◌, ◌∙◌, ap, sym, arith,
  is_empty, if◌then◌else◌, Bool-cases, subst, if-eq-right, some_injective,
}
use gochoreo.Common.Int.{pos, eqb_ℤ_iff}
use gochoreo.Text.{Text, codes, split, has_prefix, trim_prefix}
use gochoreo.Version.{Version, is_zero, zero_version}
use gochoreo.Version.Parse.{parse_version}
use gochoreo.Detector.{
  Detector, Request, DetectionMethod, DetectionResult, ContextValue, accept_header,
  api_version_header, x_api_version_header, query_parameter, url_path, context_value, default,
  unknown_method, missing, version_value, text_value, other_value, hit, attempt, nothing, parsed,
  part, detect_from_accept_header, detect_from_api_version_header, detect_from_x_api_version_header,
  detect_from_query_parameter, detect_from_text, detect_from_url_path, detect_from_context_value,
  path_parts, path_is_empty,
}

-- A version that counts: it has a text, or a number other than 0.
abbrev pub IsVersion : Version → Type 0
IsVersion v = (v.version ≢ []) ⊎ (v.major ≢ pos 0) ⊎ (v.minor ≢ pos 0) ⊎ (v.patch ≢ pos 0)

-- A text that is not empty is parsed, and is the source that is reported.
abbrev pub Gives : Text → Version → Text → Type 0
Gives text version source = (text ≢ []) × (version ≡ parse_version text) × (source ≡ text)

-- A value in the context: a version as it stands, reported with the key, or a text.
abbrev pub ContextGives : Text → ContextValue → Version → Text → Type 0
ContextGives key (version_value v) version source = (version ≡ v) × (source ≡ key)
ContextGives key (text_value text) version source = Gives text version source
ContextGives key missing version source = ⊥
ContextGives key (other_value n) version source = ⊥

-- Where each method looks, and what it reads there.
abbrev pub Reads : Detector → Request → DetectionMethod → Version → Text → Type 0
Reads d r accept_header version source =
    let (v, s) = detect_from_accept_header d r in (v ≡ version) × (s ≡ source)
Reads d r api_version_header version source = Gives (r.header (codes "API-Version")) version source
Reads d r x_api_version_header version source =
    Gives (r.header (codes "X-API-Version")) version source
Reads d r query_parameter version source = Gives (r.query d.query_param_name) version source
Reads d r url_path version source =
    let path = trim_prefix r.path (codes "/") in
    let first = part 0 (split path (codes "/")) in
    (path ≢ [])
    × (has_prefix first (codes "v") ≡ true)
    × (version ≡ parse_version first)
    × (source ≡ first)
Reads d r context_value version source =
    ContextGives d.context_key (r.context d.context_key) version source
Reads d r default version source = ⊥
Reads d r (unknown_method n) version source = ⊥

abbrev pub Finds : Detector → Request → DetectionMethod → DetectionResult → Type 0
Finds d r method result =
    (result.method ≡ method)
    × IsVersion result.version
    × Reads d r method result.version result.source

abbrev pub FindsNothing : Detector → Request → DetectionMethod → Type 0
FindsNothing d r method = (result : DetectionResult) → ¬ Finds d r method result

full_iff : (s : Text) → (is_empty s ≡ false) ↔ (s ≢ [])
full_iff [] = ((λ e. cc), λ h. absurd (h refl))
full_iff (c ∷ s) = ((λ e q. cc), λ h. refl)

is_zero_iff : (v : Version) → (is_zero v ≡ false) ↔ IsVersion v
unfolding is_zero
is_zero_iff v = ground (
  arith,
  full_iff v.version,
  eqb_ℤ_iff v.major (pos 0),
  eqb_ℤ_iff v.minor (pos 0),
  eqb_ℤ_iff v.patch (pos 0),
)

zero_refused : (v : Version) → is_zero v ≡ true → ¬ IsVersion v
zero_refused v zero h = two_values (sym zero ∙ (is_zero_iff v).1 h)
  where
    two_values : true ≡ false → ⊥
    two_values q = cc

-- What `hit` answers of a case.
hit_iff :
    (method : DetectionMethod) (x : Version × Text) (result : DetectionResult)
    → (hit method (some x) ≡ some result) ↔ (
        (result.method ≡ method)
        × IsVersion result.version
        × (x.0 ≡ result.version)
        × (x.1 ≡ result.source))
hit_iff method (v, s) result = elim (Bool-cases (is_zero v)) [
  | inl zero ↦ (
    (λ e. absurd (none_some (rw zero at e))),
    λ h. absurd (zero_refused v zero (subst IsVersion (sym h.2) h.1)),
  )
  | inr counts ↦
      ((λ e. found counts (some_injective (rw counts at e))), λ h. rw counts (ap some (same h)))
]
  where
    none_some : ◌≡◌ {A = Option DetectionResult} none (some result) → ⊥
    none_some q = cc

    built : DetectionResult
    built = record { version = v; method = method; source = s }

    found :
        is_zero v ≡ false
        → built ≡ result
        → (result.method ≡ method)
          × IsVersion result.version
          × (v ≡ result.version)
          × (s ≡ result.source)
    found counted e =
        let w : v ≡ result.version = ap (λ x. x.version) e in
        (
          sym (ap (λ x. x.method) e),
          subst IsVersion w ((is_zero_iff v).0 counted),
          w,
          ap (λ x. x.source) e,
        )

    same :
        (result.method ≡ method)
          × IsVersion result.version
          × (v ≡ result.version)
          × (s ≡ result.source)
        → built ≡ result
    same h =
        ap (λ (w : Version). record { version = w; method = method; source = s }) h.2
        ∙ ap (λ (m : DetectionMethod). record { version = result.version; method = m; source = s })
            (sym h.0)
        ∙ ap (λ (t : Text). record { version = result.version; method = result.method; source = t })
            h.3

-- The answer of a method, as far as it is a version.
abbrev Agrees : Version × Text → (Version → Text → Type 0) → Type 0
Agrees x R = (v : Version) (s : Text) → IsVersion v → ((x.0 ≡ v) × (x.1 ≡ s)) ↔ R v s

nothing-Agrees :
    (R : Version → Text → Type 0)
    → ((v : Version) (s : Text) → IsVersion v → ¬ R v s)
    → Agrees nothing R
nothing-Agrees R never v s h = (
  (λ e. absurd (zero_refused zero_version zero_zero (subst IsVersion (sym e.0) h))),
  λ k. absurd (never v s h k),
)
  where
    zero_zero : is_zero zero_version ≡ true
    zero_zero = unfold is_zero in refl

parsed-Agrees :
    (text : Text) → Agrees (parsed text text) (λ v s. (v ≡ parse_version text) × (s ≡ text))
parsed-Agrees text = elim (Bool-cases (is_zero (parse_version text))) [
  | inl zero ↦ rw zero (
      nothing-Agrees (λ v s. (v ≡ parse_version text) × (s ≡ text))
        (λ v s h k. zero_refused (parse_version text) zero (subst IsVersion k.0 h)))
  | inr counts ↦ rw counts (λ v s h. ((λ e. (sym e.0, sym e.1)), λ e. (sym e.0, sym e.1)))
]

text-Agrees : (text : Text) → Agrees (detect_from_text text) (Gives text)
unfolding detect_from_text
text-Agrees [] = nothing-Agrees (Gives []) (λ v s h k. k.0 refl)
text-Agrees (c ∷ text) = λ v s h.
    let (to, from) = parsed-Agrees (c ∷ text) v s h in
    ((λ e. let (a, b) = to e in ((λ q. cc), a, b)), λ k. from (k.1, k.2))

path-Agrees : (d : Detector) (r : Request) → Agrees (detect_from_url_path r) (Reads d r url_path)
unfolding detect_from_url_path path_parts
path-Agrees d r = elim (Bool-cases (path_is_empty r)) [
  | inl empty ↦
      rw empty (
        nothing-Agrees (Reads d r url_path) (λ v s h k. k.0 (ground (arith, empty, full_iff path))))
  | inr some_path ↦ elim (Bool-cases (has_prefix first (codes "v"))) [
    | inl there ↦
        rw (some_path, there)
          (λ v s h.
            let (to, from) = parsed-Agrees first v s h in
            (
              (λ e. let (a, b) = to e in ((full_iff path).0 some_path, refl, a, b)),
              λ k. from (k.2, k.3),
            ))
    | inr not_there ↦
        subst (λ x. Agrees x (Reads d r url_path))
          (sym (
            if-eq-right (path_is_empty r) _ _ some_path
            ∙ if-eq-right (has_prefix first (codes "v")) _ _ not_there))
          (nothing-Agrees (Reads d r url_path) (λ v s h k. two_values (sym k.1 ∙ not_there)))
  ]
]
  where
    path : Text
    path = trim_prefix r.path (codes "/")

    first : Text
    first = part 0 (split path (codes "/"))

    two_values : true ≡ false → ⊥
    two_values q = cc

context-Agrees :
    (d : Detector) (r : Request)
    → Agrees (detect_from_context_value d (some r.context)) (Reads d r context_value)
unfolding detect_from_context_value
context-Agrees d r = given (r.context d.context_key)
  where
    given :
        (x : ContextValue)
        → Agrees
            (elim x [
              | version_value version ↦ (version, d.context_key)
              | text_value text ↦ if is_empty text then nothing else parsed text text
              | _ ↦ nothing
            ])
            (ContextGives d.context_key x)
    given missing = nothing-Agrees (ContextGives d.context_key missing) (λ v s h k. k)
    given (other_value n) =
        nothing-Agrees (ContextGives d.context_key (other_value n)) (λ v s h k. k)
    given (version_value w) = λ v s h. ((λ e. (sym e.0, sym e.1)), λ e. (sym e.0, sym e.1))
    given (text_value text) = unfold detect_from_text in text-Agrees text

Agrees-Finds :
    (d : Detector) (r : Request) (method : DetectionMethod) (x : Version × Text)
    (result : DetectionResult)
    → Agrees x (Reads d r method)
    → (hit method (some x) ≡ some result) ↔ Finds d r method result
Agrees-Finds d r method x result agrees =
    let (to, from) = hit_iff method x result in
    (
      (λ e. let (m, v, a, b) = to e in (m, v, (agrees result.version result.source v).0 (a, b))),
      λ k. let (a, b) = (agrees result.version result.source k.1).1 k.2 in from (k.0, k.1, a, b),
    )

pub attempt_iff :
    (d : Detector) (r : Request) (method : DetectionMethod) (result : DetectionResult)
    → (hit method (attempt d r method) ≡ some result) ↔ Finds d r method result
unfolding attempt detect_from_api_version_header detect_from_x_api_version_header
    detect_from_query_parameter
attempt_iff d r accept_header result =
    Agrees-Finds d r accept_header (detect_from_accept_header d r) result
      (λ v s h. ((λ e. e), λ e. e))
attempt_iff d r api_version_header result =
    Agrees-Finds d r api_version_header (detect_from_api_version_header r) result
      (text-Agrees (r.header (codes "API-Version")))
attempt_iff d r x_api_version_header result =
    Agrees-Finds d r x_api_version_header (detect_from_x_api_version_header r) result
      (text-Agrees (r.header (codes "X-API-Version")))
attempt_iff d r query_parameter result =
    Agrees-Finds d r query_parameter (detect_from_query_parameter d r) result
      (text-Agrees (r.query d.query_param_name))
attempt_iff d r url_path result =
    Agrees-Finds d r url_path (detect_from_url_path r) result (path-Agrees d r)
attempt_iff d r context_value result =
    Agrees-Finds d r context_value (detect_from_context_value d (some r.context)) result
      (context-Agrees d r)
attempt_iff d r default result = ((λ e. cc), λ k. absurd k.2)
attempt_iff d r (unknown_method n) result = ((λ e. cc), λ k. absurd k.2)
