-- ===== src/Response.antt =====
-- HTTPVersionResponseWriter (pkg/version/utils.go). An http.ResponseWriter is what it is told: the
-- calls that the code makes on it, in order.
mod Tests
use mathlib.Core.Bool.{false≢true}
use gochoreo.Common.{
  ℕ, ◌≡◌, refl, ◌≢◌, ◌⊎◌, ◌↔◌, inl, inr, Bool, true, false, not, Option, none, some, List, [], ◌∷◌,
  ◌++◌, if◌then◌else◌, is_empty, arith, Bool-cases, is_some, ap, sym, ◌∙◌,
}
use gochoreo.Text.Equality.{text_eq_refl}
use gochoreo.Text.{Text, codes, text_eq}
use gochoreo.Version.{Version, to_string, zero_version}
use gochoreo.Value.{Value}
use gochoreo.Errors.{
  GoError, VersionError, version_error, component_not_found, plain, wrapping, error_text,
  is_version_error, get_version_error_code, migration_error, configuration_error, validation_error,
  compatibility_error, deprecation_error,
}
use gochoreo.Utils.{version_string_slice}
use gochoreo.Manager.{VersionedResponse}

-- The map that WriteVersionError encodes.
pub record ErrorBody : Type 0 where
  pub message : Text
  pub component : Text
  pub requested_version : Text
  pub supported_versions : List Text
  pub error_code : Text

pub data Body : Type 0 where
  value_body : Value → Body
  error_body : ErrorBody → Body
  response_body : VersionedResponse → Body

pub data Write : Type 0 where
  -- Header().Set
  set_header : Text → Text → Write
  -- WriteHeader
  write_header : ℕ → Write
  -- json.NewEncoder(w).Encode
  encode : Body → Write

unfoldable pub write_versioned_json : Version → ℕ → Body → List Write
write_versioned_json version status_code body =
    set_header (codes "Content-Type") (codes "application/json")
    ∷ set_header (codes "X-API-Version") (to_string version)
    ∷ write_header status_code
    ∷ encode body
    ∷ []

-- `versionErr`: the error itself, or a generic one.
abbrev pub generic : GoError → VersionError
generic (version_error e) = e
generic e = record {
  component = [];
  requested_version = zero_version;
  supported_versions = [];
  message = error_text e;
  code = codes "UNKNOWN_ERROR";
}

abbrev pub error_status : GoError → ℕ
error_status (component_not_found _ _) = 404
error_status _ = 406

unfoldable pub write_version_error : Version → GoError → List Write
write_version_error version err =
    let version_err = generic err in
    write_versioned_json version (error_status err) (
      error_body (record {
        message = version_err.message;
        component = version_err.component;
        requested_version = to_string version_err.requested_version;
        supported_versions = version_string_slice version_err.supported_versions;
        error_code = version_err.code;
      }))

unfoldable pub write_versioned_response : Version → ℕ → VersionedResponse → List Write
write_versioned_response version status_code response =
    set_header (codes "X-API-Version") (to_string response.version)
      ∷ set_header (codes "X-Component") response.component
      ∷ (if not (is_empty response.request_id)
          then set_header (codes "X-Request-ID") response.request_id ∷ []
          else [])
    ++ write_versioned_json version status_code (response_body response)

-- Read off the calls: the last value set for a header before the first WriteHeader, the status of
-- that, and the error code of the first body.
unfoldable pub sent_header : Text → List Write → Option Text → Option Text
sent_header name [] seen = seen
sent_header name (set_header n v ∷ ws) seen =
    sent_header name ws (if text_eq n name then some v else seen)
sent_header name (write_header s ∷ ws) seen = seen
sent_header name (encode b ∷ ws) seen = seen

unfoldable pub sent_status : List Write → Option ℕ
sent_status [] = none
sent_status (set_header n v ∷ ws) = sent_status ws
sent_status (write_header s ∷ ws) = some s
sent_status (encode b ∷ ws) = none

unfoldable pub sent_code : List Write → Option Text
sent_code [] = none
sent_code (encode (error_body b) ∷ ws) = some b.error_code
sent_code (encode b ∷ ws) = none
sent_code (w ∷ ws) = sent_code ws

-- A response is written with the given status and under the writer's version: the version of the
-- response itself, which is set first, is replaced before the status is written. The component and
-- a request id that is not empty keep their headers.
pub write_versioned_response_lem :
    (version : Version) (status_code : ℕ) (response : VersionedResponse)
    → let ws = write_versioned_response version status_code response in
      (sent_status ws ≡ some status_code)
      × (sent_header (codes "X-API-Version") ws none ≡ some (to_string version))
      × (sent_header (codes "X-Component") ws none ≡ some response.component)
      × (sent_header (codes "X-Request-ID") ws none
          ≡ (if is_empty response.request_id then none else some response.request_id))
unfolding write_versioned_response write_versioned_json sent_header sent_status text_eq
write_versioned_response_lem version status_code response =
    elim (Bool-cases (is_empty response.request_id)) [
      | inl empty ↦ rw empty (refl, refl, refl, refl)
      | inr full ↦ rw full (refl, refl, refl, refl)
    ]

-- The two cases in which the code is kept do not meet the package's other errors.
not_given :
    {P : Type 0} (err : GoError)
    → ((e : VersionError) → err ≢ version_error e)
    → is_version_error err ≡ true
    → ((e : VersionError) × (err ≡ version_error e)) ⊎ (is_version_error err ≡ false)
    → P
not_given err other known (inl (e, q)) = absurd (other e q)
not_given err other known (inr q) = cc

status_differs : {P : Type 0} → ◌≡◌ {A = Option ℕ} (some 406) (some 404) → P
status_differs h =
    let numbers : ◌≡◌ {A = ℕ} 406 404 = ap (λ o. elim o [ none ↦ 0 | some n ↦ n ]) h in
    absurd (omega (arith, numbers))

code_differs :
    {P : Type 0} (code : Text)
    → text_eq code (codes "UNKNOWN_ERROR") ≡ false
    → some (codes "UNKNOWN_ERROR") ≡ some code
    → P
code_differs code other h =
    let same : text_eq (codes "UNKNOWN_ERROR") (codes "UNKNOWN_ERROR")
        ≡ text_eq code (codes "UNKNOWN_ERROR") =
      ap (λ o. elim o [ none ↦ false | some t ↦ text_eq t (codes "UNKNOWN_ERROR") ]) h in
    absurd (false≢true (sym (same ∙ other) ∙ text_eq_refl (codes "UNKNOWN_ERROR")))

-- The status of an error is 404 exactly for a missing component, and the code that is sent is the
-- one of GetVersionErrorCode exactly for a VersionError and for errors that the package does not
-- know; all its other errors are sent as UNKNOWN_ERROR.
pub write_version_error_lem :
    (version : Version) (err : GoError)
    → let ws = write_version_error version err in
      ((sent_status ws ≡ some 404)
        ↔ ((component : Text) × (message : Text) × (err ≡ component_not_found component message)))
      × ((sent_code ws ≡ some (get_version_error_code err))
          ↔ (((e : VersionError) × (err ≡ version_error e)) ⊎ (is_version_error err ≡ false)))
unfolding write_version_error write_versioned_json sent_status sent_code get_version_error_code
    is_version_error text_eq
write_version_error_lem version (version_error e) =
    ((status_differs, λ h. cc (h.2)), ((λ h. inl (e, refl)), λ h. refl))
write_version_error_lem version (component_not_found c m) = (
  ((λ h. (c, m, refl)), λ h. refl),
  ((λ h. code_differs _ refl h), not_given (component_not_found c m) (λ e q. cc) refl),
)
write_version_error_lem version (plain t) =
    ((status_differs, λ h. cc (h.2)), ((λ h. inr refl), λ h. refl))
write_version_error_lem version (wrapping t x) =
    ((status_differs, λ h. cc (h.2)), ((λ h. inr refl), λ h. refl))
write_version_error_lem version (migration_error c f t m x) = (
  (status_differs, λ h. cc (h.2)),
  ((λ h. code_differs _ refl h), not_given (migration_error c f t m x) (λ e q. cc) refl),
)
write_version_error_lem version (compatibility_error x) = (
  (status_differs, λ h. cc (h.2)),
  ((λ h. code_differs _ refl h), not_given (compatibility_error x) (λ e q. cc) refl),
)
write_version_error_lem version (deprecation_error x) = (
  (status_differs, λ h. cc (h.2)),
  ((λ h. code_differs _ refl h), not_given (deprecation_error x) (λ e q. cc) refl),
)
write_version_error_lem version (configuration_error c v f m x) = (
  (status_differs, λ h. cc (h.2)),
  ((λ h. code_differs _ refl h), not_given (configuration_error c v f m x) (λ e q. cc) refl),
)
write_version_error_lem version (validation_error x) = (
  (status_differs, λ h. cc (h.2)),
  ((λ h. code_differs _ refl h), not_given (validation_error x) (λ e q. cc) refl),
)
