-- ===== src/Manager/Serving.antt =====
-- Get and ProcessVersioned, with what they record.
use gochoreo.Common.{
  ℕ, ◌≡◌, ◌⊎◌, ◌↔◌, inl, inr, Bool, true, false, Option, none, some, List, ◌++◌, map, arith,
  if◌then◌else◌, lookup, is_some, Option-cases, Bool-cases, ◌∙◌, ap,
}
use gochoreo.Common.Word.{add64}
use gochoreo.Text.{Text, codes, join}
use gochoreo.Text.Equality.{text_key, text_eq_refl}
use gochoreo.Version.{Version, to_string}
use gochoreo.Value.{Value}
use gochoreo.Errors.Build.{new_version_error}
use gochoreo.Errors.{GoError, version_error}
use gochoreo.Metrics.{Collector, record_request, record_error}
use gochoreo.Metrics.Counting.{
  requests_at, errors_at, step_at, hits, requests_at-record_request, requests_at-record_error,
  errors_at-record_request, errors_at-record_error,
}
use gochoreo.Manager.{Manager, VersionedComponent, VersionedRequest, VersionedResponse, not_found}

-- `NewVersionError(name, version, supported, …)`; `%v` prints the texts between brackets.
unfoldable pub unsupported : Text → Version → List Version → GoError
unsupported name version supported = version_error (
    new_version_error name version supported (
      codes "version not supported. Supported versions: ["
      ++ (join (codes " ") (map to_string supported) ++ codes "]")))

-- A call of the collector, if there is one.
abbrev pub with_collector : (Collector → Collector) → Manager → Manager
with_collector f m = elim m.metrics_collector [
  | none ↦ m
  | some c ↦ record m { metrics_collector = some (f c) }
]

-- Get: the component or the error.
pub data Found : Type 0 where
  found : VersionedComponent → Found
  failed : GoError → Found

unfoldable pub get : Text → Version → Text → Manager → Found × Manager
get name version now m = elim (lookup name m.components) [
  | none ↦ (failed (not_found name), m)
  | some component ↦
      if component.is_version_supported version
      then (found component, with_collector (record_request name version now) m)
      else (failed (unsupported name version component.supported_versions), m)
]

-- ProcessVersioned; a component's own response is passed on with its error.
unfoldable pub process_versioned :
    VersionedRequest
    → Value
    → Text
    → Manager
    → (Option VersionedResponse × Option GoError) × Manager
process_versioned req input now m =
    let (result, m') = get req.component req.version now m in
    elim result [
      | failed err ↦ ((none, some err), with_collector (record_error req.component req.version) m')
      | found component ↦
          let (response, err) = component.process_versioned req input in
          (
            (response, err),
            (if is_some err
                then with_collector (record_error req.component req.version) m'
                else m'),
          )
    ]

abbrev pub is_found : Found → Bool
is_found (found c) = true
is_found (failed e) = false

-- Get finds a component exactly when it is registered and supports the version; then, and only
-- then, the collector records one request, and nothing else of the manager changes.
pub get_lem :
    (name : Text) (version : Version) (now : Text) (m : Manager) (c : VersionedComponent)
    → let (result, m') = get name version now m in
      ((result ≡ found c)
        ↔ ((lookup name m.components ≡ some c) × (c.is_version_supported version ≡ true)))
      × (m'.components ≡ m.components)
      × (m'.component_meta ≡ m.component_meta)
      × (m'.constraints ≡ m.constraints)
      × (m' ≡ (if is_found result then with_collector (record_request name version now) m else m))
unfolding get
get_lem name version now m c = ground arith

-- The counters of a manager's collector.
abbrev pub served : Text → Version → Manager → ℕ
served name version m = elim m.metrics_collector [
  | none ↦ 0
  | some c ↦ requests_at name (to_string version) c
]

abbrev pub errored : Text → Version → Manager → ℕ
errored name version m = elim m.metrics_collector [
  | none ↦ 0
  | some c ↦ errors_at name (to_string version) c
]

hits_self : (name : Text) (v : Version) → hits name (to_string v) name v ≡ true
hits_self name v = ground (arith, text_eq_refl name, text_eq_refl (to_string v))

module _ (name : Text) (v : Version) (m : Manager) (c : Collector)
    (on : m.metrics_collector ≡ some c) where
  served-request :
      (now : Text)
      → served name v (with_collector (record_request name v now) m) ≡ add64 (served name v m) 1
  served-request now =
      rw on (requests_at-record_request name (to_string v) name v c now ∙ rw (hits_self name v))

  errored-request :
      (now : Text)
      → errored name v (with_collector (record_request name v now) m) ≡ errored name v m
  errored-request now = rw on (errors_at-record_request name (to_string v) name v c now)

  served-error : served name v (with_collector (record_error name v) m) ≡ served name v m
  served-error = rw on (requests_at-record_error name (to_string v) name v c)

  errored-error :
      errored name v (with_collector (record_error name v) m) ≡ add64 (errored name v m) 1
  errored-error = rw on (errors_at-record_error name (to_string v) name v c ∙ rw (hits_self name v))

module _ (req : VersionedRequest) (input : Value) (now : Text) (m : Manager) where
  recorded : Manager
  recorded = with_collector (record_request req.component req.version now) m

  get_cases :
      ((c : VersionedComponent) × (get req.component req.version now m ≡ (found c, recorded)))
      ⊎ ((e : GoError) × (get req.component req.version now m ≡ (failed e, m)))
  unfolding get recorded
  get_cases = elim (Option-cases (lookup req.component m.components)) [
    | inl missing ↦ inr (not_found req.component, rw (missing, get))
    | inr (c, there) ↦ elim (Bool-cases (c.is_version_supported req.version)) [
      | inl h ↦ inl (c, rw (there, get, h))
      | inr h ↦ inr (unsupported req.component req.version c.supported_versions, rw (there, get, h))
    ]
  ]

  process_found :
      (c : VersionedComponent)
      → get req.component req.version now m ≡ (found c, recorded)
      → process_versioned req input now m ≡ (
        c.process_versioned req input,
        if is_some (c.process_versioned req input).1
            then with_collector (record_error req.component req.version) recorded
            else recorded,
      )
  unfolding process_versioned
  process_found c h = ground arith

  process_failed :
      (e : GoError)
      → get req.component req.version now m ≡ (failed e, m)
      → process_versioned req input now m
        ≡ ((none, some e), with_collector (record_error req.component req.version) m)
  unfolding process_versioned
  process_failed e h = ground arith

  module _ (c : Collector) (on : m.metrics_collector ≡ some c) where
    recorded-collector :
        recorded.metrics_collector ≡ some (record_request req.component req.version now c)
    unfolding recorded
    recorded-collector = rw on

    served-recorded :
        served req.component req.version recorded ≡ add64 (served req.component req.version m) 1
    unfolding recorded
    served-recorded = served-request req.component req.version m c on now

    errored-recorded :
        errored req.component req.version recorded ≡ errored req.component req.version m
    unfolding recorded
    errored-recorded = errored-request req.component req.version m c on now

-- With a collector, ProcessVersioned counts one request of the component and version exactly when
-- Get finds the component, and one error exactly when it returns an error.
pub process_versioned-counts :
    (req : VersionedRequest) (input : Value) (now : Text) (m : Manager) (c : Collector)
    → m.metrics_collector ≡ some c
    → let (result, m') = process_versioned req input now m in
      (served req.component req.version m'
        ≡ step_at
            (is_found (get req.component req.version now m).0)
            (served req.component req.version m))
      × (errored req.component req.version m'
          ≡ step_at (is_some result.1) (errored req.component req.version m))
process_versioned-counts req input now m c on =
    let name = req.component in
    let v = req.version in
    elim (get_cases req input now m) [
      | inr (e, h) ↦
          rw (process_failed req input now m e h, h)
            (served-error name v m c on, errored-error name v m c on)
      | inl (component, h) ↦
          let d = record_request name v now c in
          let n = recorded req input now m in
          let on_n = recorded-collector req input now m c on in
          elim (Bool-cases (is_some (component.process_versioned req input).1)) [
            | inl failing ↦
                rw (process_found req input now m component h, h, failing)
                  (
                    served-error name v n d on_n ∙ served-recorded req input now m c on,
                    errored-error name v n d on_n
                        ∙ ap (λ k. add64 k 1) (errored-recorded req input now m c on),
                  )
            | inr fine ↦
                rw (process_found req input now m component h, h, fine)
                  (served-recorded req input now m c on, errored-recorded req input now m c on)
          ]
    ]
