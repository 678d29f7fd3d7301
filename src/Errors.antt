-- ===== src/Errors.antt =====
-- pkg/version/errors.go: the error types, their texts and their codes. An error that is none of
-- these is `plain`.
pub mod Build
pub mod Codes
use gochoreo.Common.{
  Bool, true, false, not, Option, none, some, List, [], ◌∷◌, ◌++◌, map, if◌then◌else◌, is_empty,
  Map, insert,
}
use gochoreo.Text.{Text, codes, join}
use gochoreo.Text.Equality.{text_key}
use gochoreo.Version.{Version, to_string, is_zero}
use gochoreo.Value.{Value, nil}

pub record VersionError : Type 0 where
  pub component : Text
  pub requested_version : Version
  pub supported_versions : List Version
  pub message : Text
  pub code : Text

pub record CompatibilityError : Type 0 where
  pub component : Text
  pub version : Version
  pub constraints : Map Text Text
  pub conflicts_with : Map Text Text
  pub message : Text

-- pkg/version/interfaces.go
pub record DeprecationInfo : Type 0 where
  pub version : Version
  pub deprecated_at : Text
  pub sunset_at : Text
  pub reason : Text
  pub replacement : Version

pub record DeprecationError : Type 0 where
  pub component : Text
  pub version : Version
  pub information : Option DeprecationInfo
  pub message : Text

pub record ValidationError : Type 0 where
  pub component : Text
  pub version : Version
  pub field : Text
  pub value : Value
  pub message : Text
  pub errors : List Text

mutual
  pub data GoError : Type 0 where
    version_error : VersionError → GoError
    component_not_found : Text → Text → GoError
    -- component, from, to, message, cause
    migration_error : Text → Version → Version → Text → Cause → GoError
    compatibility_error : CompatibilityError → GoError
    deprecation_error : DeprecationError → GoError
    -- component, version, field, message, cause
    configuration_error : Text → Version → Text → Text → Cause → GoError
    validation_error : ValidationError → GoError
    -- errors.New and fmt.Errorf
    plain : Text → GoError
    -- fmt.Errorf with %w: the text before the wrapped error
    wrapping : Text → GoError → GoError

  pub data Cause : Type 0 where
    no_cause : Cause
    caused_by : GoError → Cause

-- `fmt.Sprintf("%s (%s)", base, …)`
abbrev pub in_brackets : Text → Text → Text
in_brackets base inner = base ++ (codes " (" ++ (inner ++ codes ")"))

-- `fmt.Sprintf("%s: %s", a, b)` if `b` is not empty
abbrev pub with_message : Text → Text → Text
with_message base message = if is_empty message then base else base ++ (codes ": " ++ message)

abbrev pub with_field : Text → Text → Text
with_field base field =
    if is_empty field then base else base ++ (codes " field '" ++ (field ++ codes "'"))

abbrev pub with_details : Text → List Text → Text
with_details base details =
    if is_empty details then base else in_brackets base (join (codes "; ") details)

-- "… 'component' version v"
abbrev pub headed : Text → Text → Version → Text
headed start component version =
    start ++ (codes " '" ++ (component ++ (codes "' version " ++ to_string version)))

unfoldable pub version_error_text : VersionError → Text
version_error_text e =
    codes "version error in component '"
    ++ (e.component
        ++ (codes "': "
            ++ (e.message
                ++ (codes " (requested: "
                    ++ (to_string e.requested_version
                        ++ (codes ", supported: ["
                            ++ (join (codes ", ") (map to_string e.supported_versions)
                                ++ codes "])")))))))

abbrev pub pair_text : Text × Text → Text
pair_text (comp, constraint) = comp ++ (codes ": " ++ constraint)

abbrev pub listing : Text → Map Text Text → List Text
listing label m = if is_empty m then [] else (label ++ join (codes ", ") (map pair_text m)) ∷ []

unfoldable pub compatibility_error_text : CompatibilityError → Text
compatibility_error_text e =
    let base =
      with_message (headed (codes "compatibility error for component") e.component e.version)
        e.message in
    with_details base (
      listing (codes "requires: ") e.constraints
      ++ listing (codes "conflicts with: ") e.conflicts_with)

abbrev pub detail : Text → Text → List Text
detail label text = if is_empty text then [] else (label ++ text) ∷ []

abbrev pub deprecation_details : DeprecationInfo → List Text
deprecation_details info =
    detail (codes "reason: ") info.reason
    ++ (detail (codes "sunset: ") info.sunset_at
        ++ (if is_zero info.replacement
            then []
            else (codes "replacement: " ++ to_string info.replacement) ∷ []))

unfoldable pub deprecation_error_text : DeprecationError → Text
deprecation_error_text e =
    let base =
      with_message (headed (codes "deprecated version warning for component") e.component e.version)
        e.message in
    elim e.information [ none ↦ base | some info ↦ with_details base (deprecation_details info) ]

unfoldable pub validation_error_text : ValidationError → Text
validation_error_text e =
    with_details
      (with_message
        (with_field (headed (codes "validation error for component") e.component e.version) e.field)
        e.message)
      e.errors

-- The texts of a MigrationError and a ConfigurationError before the cause.
abbrev pub migration_text : Text → Version → Version → Text → Text
migration_text component from to message =
    codes "migration error in component '"
    ++ (component
        ++ (codes "' from "
            ++ (to_string from ++ (codes " to " ++ (to_string to ++ (codes ": " ++ message))))))

abbrev pub configuration_text : Text → Version → Text → Text → Text
configuration_text component version field message =
    with_message
      (with_field (headed (codes "configuration error for component") component version) field)
      message

-- The methods Error of the seven types, and of the errors of fmt.
unfoldable mutual
  pub error_text : GoError → Text
  error_text (version_error e) = version_error_text e
  error_text (component_not_found component message) =
      if is_empty message
      then codes "component not found: " ++ component
      else codes "component not found: " ++ (component ++ (codes " - " ++ message))
  error_text (migration_error component from to message cause) =
      with_cause (migration_text component from to message) cause
  error_text (compatibility_error e) = compatibility_error_text e
  error_text (deprecation_error e) = deprecation_error_text e
  error_text (configuration_error component version field message cause) =
      with_cause (configuration_text component version field message) cause
  error_text (validation_error e) = validation_error_text e
  error_text (plain text) = text
  error_text (wrapping text e) = text ++ error_text e

  pub with_cause : Text → Cause → Text
  with_cause base no_cause = base
  with_cause base (caused_by e) = base ++ (codes " (cause: " ++ (error_text e ++ codes ")"))

-- The methods Unwrap, and errors.Unwrap on an error of fmt.
unfoldable pub unwrap : GoError → Option GoError
unwrap (migration_error _ _ _ _ (caused_by e)) = some e
unwrap (configuration_error _ _ _ _ (caused_by e)) = some e
unwrap (wrapping _ e) = some e
unwrap _ = none

unfoldable pub is_version_error : GoError → Bool
is_version_error (plain _) = false
is_version_error (wrapping _ _) = false
is_version_error _ = true

unfoldable pub get_version_error_code : GoError → Text
get_version_error_code (version_error e) = e.code
get_version_error_code (component_not_found _ _) = codes "COMPONENT_NOT_FOUND"
get_version_error_code (migration_error _ _ _ _ _) = codes "MIGRATION_ERROR"
get_version_error_code (compatibility_error _) = codes "COMPATIBILITY_ERROR"
get_version_error_code (deprecation_error _) = codes "DEPRECATED_VERSION"
get_version_error_code (configuration_error _ _ _ _ _) = codes "CONFIGURATION_ERROR"
get_version_error_code (validation_error _) = codes "VALIDATION_ERROR"
get_version_error_code _ = codes "UNKNOWN_ERROR"
