-- ===== src/Errors/Build.antt =====
-- The constructors and the With methods of the errors (pkg/version/errors.go).
use gochoreo.Common.{Option, none, some, List, [], insert}
use gochoreo.Text.{Text, codes}
use gochoreo.Text.Equality.{text_key}
use gochoreo.Version.{Version}
use gochoreo.Value.{Value, nil}
use gochoreo.Errors.{
  VersionError, CompatibilityError, DeprecationInfo, DeprecationError, ValidationError, GoError,
  Cause, no_cause, caused_by, component_not_found, migration_error, configuration_error,
}

unfoldable pub new_version_error : Text → Version → List Version → Text → VersionError
new_version_error component requested supported message = record {
  component = component;
  requested_version = requested;
  supported_versions = supported;
  message = message;
  code = codes "VERSION_NOT_SUPPORTED";
}

unfoldable pub new_version_error_with_code :
    Text → Version → List Version → Text → Text → VersionError
new_version_error_with_code component requested supported message code = record {
  component = component;
  requested_version = requested;
  supported_versions = supported;
  message = message;
  code = code;
}

unfoldable pub new_compatibility_error : Text → Version → Text → CompatibilityError
new_compatibility_error component version message = record {
  component = component;
  version = version;
  constraints = [];
  conflicts_with = [];
  message = message;
}

unfoldable pub with_constraint : CompatibilityError → Text → Text → CompatibilityError
with_constraint e component constraint = record e {
  constraints = insert component constraint e.constraints;
}

unfoldable pub with_conflict : CompatibilityError → Text → Text → CompatibilityError
with_conflict e component version = record e {
  conflicts_with = insert component version e.conflicts_with;
}

unfoldable pub new_validation_error : Text → Version → Text → Text → ValidationError
new_validation_error component version field message = record {
  component = component;
  version = version;
  field = field;
  value = nil;
  message = message;
  errors = [];
}

unfoldable pub with_errors : ValidationError → List Text → ValidationError
with_errors e errors = record e { errors = errors }

unfoldable pub with_value : ValidationError → Value → ValidationError
with_value e value = record e { value = value }

-- The constructors of the other errors; `none` is the nil error.
abbrev pub cause_of : Option GoError → Cause
cause_of none = no_cause
cause_of (some e) = caused_by e

unfoldable pub new_component_not_found_error : Text → Text → GoError
new_component_not_found_error component message = component_not_found component message

unfoldable pub new_migration_error : Text → Version → Version → Text → Option GoError → GoError
new_migration_error component from to message cause =
    migration_error component from to message (cause_of cause)

unfoldable pub new_deprecation_error :
    Text → Version → Option DeprecationInfo → Text → DeprecationError
new_deprecation_error component version info message = record {
  component = component;
  version = version;
  information = info;
  message = message;
}

unfoldable pub new_configuration_error : Text → Version → Text → Text → Option GoError → GoError
new_configuration_error component version field message cause =
    configuration_error component version field message (cause_of cause)
