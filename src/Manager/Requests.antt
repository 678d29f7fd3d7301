-- ===== src/Manager/Requests.antt =====
-- Building requests and responses (pkg/version/version.go), and ProcessWithAutoVersion, to which the
-- detector of the manager is handed as an argument. The context
-- and the HTTP request that a request carries are not read by the package.
use gochoreo.Common.{◌≡◌, refl, true, false, Option, none, some, [], lookup, insert}
use gochoreo.Text.{Text, text_eq}
use gochoreo.Text.Equality.{text_key}
use gochoreo.Version.{Version, is_zero}
use gochoreo.Value.{Value, nil}
use gochoreo.Errors.{GoError, error_text}
use gochoreo.Detector.{Detector, Context, api_version, detect_from_context, set_version_in_context}
use gochoreo.Detector.Context.{detect_from_context-set_version_in_context}
use gochoreo.Manager.{Manager, VersionedRequest, VersionedResponse}
use gochoreo.Manager.Serving.{process_versioned}

-- The last argument is the time.
unfoldable pub new_versioned_request : Version → Text → Text → VersionedRequest
new_versioned_request version component now = record {
  version = version;
  component = component;
  operation = [];
  request_id = [];
  timestamp = now;
  metadata = [];
}

unfoldable pub with_operation : VersionedRequest → Text → VersionedRequest
with_operation r operation = record r { operation = operation }

unfoldable pub with_request_id : VersionedRequest → Text → VersionedRequest
with_request_id r request_id = record r { request_id = request_id }

unfoldable pub with_metadata : VersionedRequest → Text → Value → VersionedRequest
with_metadata r key value = record r { metadata = insert key value r.metadata }

unfoldable pub get_metadata : VersionedRequest → Text → Option Value
get_metadata r key = lookup key r.metadata

unfoldable pub new_versioned_response : VersionedRequest → Text → VersionedResponse
new_versioned_response req now = record {
  version = req.version;
  component = req.component;
  operation = req.operation;
  request_id = req.request_id;
  timestamp = now;
  payload = nil;
  error = [];
  metadata = [];
}

unfoldable pub with_data : VersionedResponse → Value → VersionedResponse
with_data r value = record r { payload = value }

unfoldable pub with_error : VersionedResponse → Option GoError → VersionedResponse
with_error r none = r
with_error r (some err) = record r { error = error_text err }

unfoldable pub with_response_metadata : VersionedResponse → Text → Value → VersionedResponse
with_response_metadata r key value = record r { metadata = insert key value r.metadata }

-- The two texts are the times of the request and of the call.
unfoldable pub process_with_auto_version :
    Detector
    → Option Context
    → Text
    → Value
    → Text
    → Text
    → Manager
    → (Option VersionedResponse × Option GoError) × Manager
process_with_auto_version d ctx component_name input created now m =
    let version = (detect_from_context d ctx).version in
    process_versioned (new_versioned_request version component_name created) input now m

-- A version that is not zero and that SetVersionInContext has set is the one that
-- ProcessWithAutoVersion processes, if the manager's detector reads the key "api_version".
pub process_with_auto_version-set_version_in_context :
    (d : Detector) (ctx : Context) (v : Version) (component_name : Text) (input : Value)
    (created now : Text) (m : Manager)
    → is_zero v ≡ false
    → text_eq d.context_key api_version ≡ true
    → process_with_auto_version d
        (some (set_version_in_context ctx v))
        component_name
        input
        created
        now
        m
      ≡ process_versioned (new_versioned_request v component_name created) input now m
unfolding process_with_auto_version
process_with_auto_version-set_version_in_context d ctx v component_name input created now m h key =
    rw (detect_from_context-set_version_in_context d ctx v h, key) refl
