-- ===== src/Dragonfly/Errors.antt =====
-- pkg/dragonfly/errors.go: the error types, the tests on a chain of errors, and when to retry.
pub mod Chain
use gochoreo.Common.{
  ℕ, Bool, true, false, not, ◌&&◌, ◌||◌, Option, none, some, List, [], ◌∷◌, ◌++◌, if◌then◌else◌,
  is_empty, map,
}
use gochoreo.Common.Int.{ℤ, pos, ltb_ℤ}
use gochoreo.Text.{Text, codes, join}
use gochoreo.Text.Decimal.{format_int}

-- The methods are on the values, so that a value and a pointer to one are both errors.
pub data Form : Type 0 where
  by_value by_pointer : Form

mutual
  pub data Err : Type 0 where
    -- errors.New
    plain : Text → Err
    connection_error : Form → Text → Cause → Err
    -- operation, duration
    timeout_error : Form → Text → Text → Cause → Err
    auth_error : Form → Text → Cause → Err
    cluster_error : Form → List Text → Cause → Err
    protocol_error : Form → ℤ → Cause → Err
    metrics_error : Form → Text → Cause → Err
    health_check_error : Form → Text → Cause → Err
    -- field, reason
    invalid_config : Form → Text → Text → Err
    -- fmt.Errorf with %w at the end: the text before it
    wrapping : Text → Cause → Err

  pub data Cause : Type 0 where
    no_cause : Cause
    caused_by : Err → Cause

-- The methods Error. `%v` prints a nil error as <nil>, `%w` as %!w(<nil>).
unfoldable mutual
  pub error_text : Err → Text
  error_text (plain text) = text
  error_text (connection_error f address cause) =
      codes "connection error to " ++ (address ++ (codes ": " ++ cause_text cause))
  error_text (timeout_error f operation duration no_cause) =
      codes "timeout during " ++ (operation ++ (codes " after " ++ duration))
  error_text (timeout_error f operation duration (caused_by e)) =
      codes "timeout during "
      ++ (operation ++ (codes " after " ++ (duration ++ (codes ": " ++ error_text e))))
  error_text (auth_error f username cause) =
      if is_empty username
      then codes "authentication failed: " ++ cause_text cause
      else codes "authentication failed for user " ++ (username ++ (codes ": " ++ cause_text cause))
  error_text (cluster_error f nodes cause) =
      codes "cluster error with nodes ["
      ++ (join (codes " ") nodes ++ (codes "]: " ++ cause_text cause))
  error_text (protocol_error f version cause) =
      codes "protocol error (version " ++ (format_int version ++ (codes "): " ++ cause_text cause))
  error_text (metrics_error f operation cause) =
      codes "metrics error during " ++ (operation ++ (codes ": " ++ cause_text cause))
  error_text (health_check_error f check_type cause) =
      codes "health check failed (" ++ (check_type ++ (codes "): " ++ cause_text cause))
  error_text (invalid_config f field reason) =
      codes "invalid config field '" ++ (field ++ (codes "': " ++ reason))
  error_text (wrapping text no_cause) = text ++ codes "%!w(<nil>)"
  error_text (wrapping text (caused_by e)) = text ++ error_text e

  pub cause_text : Cause → Text
  cause_text no_cause = codes "<nil>"
  cause_text (caused_by e) = error_text e

abbrev pub cause_of : Err → Cause
cause_of (plain _) = no_cause
cause_of (connection_error _ _ c) = c
cause_of (timeout_error _ _ _ c) = c
cause_of (auth_error _ _ c) = c
cause_of (cluster_error _ _ c) = c
cause_of (protocol_error _ _ c) = c
cause_of (metrics_error _ _ c) = c
cause_of (health_check_error _ _ c) = c
cause_of (invalid_config _ _ _) = no_cause
cause_of (wrapping _ c) = c

-- errors.As for a target type: the error itself, then what it unwraps to.
unfoldable mutual
  pub errors_as : (Err → Bool) → Err → Bool
  errors_as test (plain t) = test (plain t)
  errors_as test (connection_error f a c) = test (connection_error f a c) || errors_as_cause test c
  errors_as test (timeout_error f o d c) = test (timeout_error f o d c) || errors_as_cause test c
  errors_as test (auth_error f u c) = test (auth_error f u c) || errors_as_cause test c
  errors_as test (cluster_error f n c) = test (cluster_error f n c) || errors_as_cause test c
  errors_as test (protocol_error f v c) = test (protocol_error f v c) || errors_as_cause test c
  errors_as test (metrics_error f o c) = test (metrics_error f o c) || errors_as_cause test c
  errors_as test (health_check_error f k c) =
      test (health_check_error f k c) || errors_as_cause test c
  errors_as test (invalid_config f n r) = test (invalid_config f n r)
  errors_as test (wrapping t c) = test (wrapping t c) || errors_as_cause test c

  pub errors_as_cause : (Err → Bool) → Cause → Bool
  errors_as_cause test no_cause = false
  errors_as_cause test (caused_by e) = errors_as test e

-- The target types of the tests are all pointer types.
abbrev pub is_connection_pointer : Err → Bool
is_connection_pointer (connection_error by_pointer _ _) = true
is_connection_pointer _ = false

abbrev pub is_timeout_pointer : Err → Bool
is_timeout_pointer (timeout_error by_pointer _ _ _) = true
is_timeout_pointer _ = false

abbrev pub is_auth_pointer : Err → Bool
is_auth_pointer (auth_error by_pointer _ _) = true
is_auth_pointer _ = false

abbrev pub is_cluster_pointer : Err → Bool
is_cluster_pointer (cluster_error by_pointer _ _) = true
is_cluster_pointer _ = false

abbrev pub is_protocol_pointer : Err → Bool
is_protocol_pointer (protocol_error by_pointer _ _) = true
is_protocol_pointer _ = false

-- errors.As on a nil error
abbrev pub errors_as_option : (Err → Bool) → Option Err → Bool
errors_as_option test none = false
errors_as_option test (some e) = errors_as test e

unfoldable pub is_connection_error : Option Err → Bool
is_connection_error err = errors_as_option is_connection_pointer err

unfoldable pub is_timeout_error : Option Err → Bool
is_timeout_error err = errors_as_option is_timeout_pointer err

unfoldable pub is_auth_error : Option Err → Bool
is_auth_error err = errors_as_option is_auth_pointer err

unfoldable pub is_cluster_error : Option Err → Bool
is_cluster_error err = errors_as_option is_cluster_pointer err

unfoldable pub is_protocol_error : Option Err → Bool
is_protocol_error err = errors_as_option is_protocol_pointer err

unfoldable pub is_temporary_error : Option Err → Bool
is_temporary_error err = is_connection_error err || is_timeout_error err || is_cluster_error err

-- ShouldRetry; the attempt counts from 0.
unfoldable pub should_retry : Option Err → ℕ → ℤ → Bool
should_retry none attempt max_retries = false
should_retry (some err) attempt max_retries =
    if not (ltb_ℤ (pos attempt) max_retries)
    then false
    else if is_auth_error (some err)
    then false
    else if is_protocol_error (some err)
    then false
    else is_temporary_error (some err)

unfoldable pub wrap_error : Option Err → Text → Option Err
wrap_error none context = none
wrap_error (some err) context = some (wrapping (context ++ codes ": ") (caused_by err))
