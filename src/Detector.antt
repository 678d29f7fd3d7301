-- ===== src/Detector.antt =====
-- pkg/version/detector.go: the version of an HTTP request or of a context. A request is what the
-- code reads of it: the answers of Header.Get and URL.Query().Get, which are "" for a missing name,
-- the path, and the context.
pub mod Sources
pub mod Accept
pub mod Reads
pub mod Priority
pub mod Context
pub mod Debug
mod Tests
use gochoreo.Common.{
  ℕ, Bool, true, false, not, ◌&&◌, ◌||◌, Option, none, some, List, [], ◌∷◌, ◌++◌, if◌then◌else◌,
  is_empty, get_elem?,
}
use gochoreo.Text.{Text, codes, text_eq, has_prefix, trim_prefix, contains, split}
use gochoreo.Version.{Version, zero_version, is_zero, default_version, to_string}
use gochoreo.Version.Parse.{parse_version}

pub data DetectionMethod : Type 0 where
  accept_header api_version_header x_api_version_header query_parameter url_path : DetectionMethod
  context_value default : DetectionMethod
  -- any other int
  unknown_method : ℕ → DetectionMethod

unfoldable pub method_text : DetectionMethod → Text
method_text accept_header = codes "Accept Header"
method_text api_version_header = codes "API-Version Header"
method_text x_api_version_header = codes "X-API-Version Header"
method_text query_parameter = codes "Query Parameter"
method_text url_path = codes "URL Path"
method_text context_value = codes "Context Value"
method_text default = codes "Default"
method_text (unknown_method n) = codes "Unknown"

-- What a context holds under a key of type string.
pub data ContextValue : Type 0 where
  missing : ContextValue
  version_value : Version → ContextValue
  text_value : Text → ContextValue
  other_value : ℕ → ContextValue

abbrev pub Context : Type 0
Context = Text → ContextValue

pub record Request : Type 0 where
  pub header : Text → Text
  pub query : Text → Text
  pub path : Text
  pub context : Context

pub record DetectionResult : Type 0 where
  pub version : Version
  pub method : DetectionMethod
  pub source : Text

pub record Detector : Type 0 where
  pub default_version : Version
  pub enabled_methods : List DetectionMethod
  pub accept_header_prefix : Text
  pub query_param_name : Text
  pub context_key : Text

abbrev pub DetectorOption : Type 0
DetectorOption = Detector → Detector

unfoldable pub with_default_version : Version → DetectorOption
with_default_version version d = record d { default_version = version }

unfoldable pub with_enabled_methods : List DetectionMethod → DetectorOption
with_enabled_methods methods d = record d { enabled_methods = methods }

unfoldable pub with_accept_header_prefix : Text → DetectorOption
with_accept_header_prefix prefix d = record d { accept_header_prefix = prefix }

unfoldable pub with_query_param_name : Text → DetectorOption
with_query_param_name name d = record d { query_param_name = name }

unfoldable pub with_context_key : Text → DetectorOption
with_context_key key d = record d { context_key = key }

abbrev pub api_version : Text
api_version = codes "api_version"

abbrev pub apply_options : List DetectorOption → Detector → Detector
apply_options [] d = d
apply_options (option ∷ options) d = apply_options options (option d)

unfoldable pub new_detector : List DetectorOption → Detector
new_detector options = apply_options options (record {
  default_version = default_version;
  enabled_methods =
      accept_header ∷ api_version_header ∷ x_api_version_header ∷ query_parameter ∷ url_path
      ∷ context_value ∷ default ∷ [];
  accept_header_prefix = codes "application/vnd.api.v";
  query_param_name = codes "version";
  context_key = api_version;
})

-- `return Version{}, ""`
abbrev pub nothing : Version × Text
nothing = (zero_version, [])

-- `version := ParseVersion(text); if !version.IsZero() { return version, source }`
abbrev pub parsed : Text → Text → Version × Text
parsed text source =
    let version = parse_version text in if not (is_zero version) then (version, source) else nothing

-- `parts[i]`, where the code has checked that it is there
abbrev pub part : ℕ → List Text → Text
part i parts = elim (get_elem? parts i) [ none ↦ [] | some p ↦ p ]

abbrev pub has_part : ℕ → List Text → Bool
has_part i parts = elim (get_elem? parts i) [ none ↦ false | some p ↦ true ]

unfoldable pub detect_from_accept_header : Detector → Request → Version × Text
detect_from_accept_header d r =
    let accept = r.header (codes "Accept") in
    let parts = split accept d.accept_header_prefix in
    if is_empty accept
    then nothing
    else if contains accept d.accept_header_prefix && has_part 1 parts
    then parsed (b'v' ∷ part 0 (split (part 1 parts) (codes "+"))) accept
    else nothing

-- A source that is a version text as it stands.
unfoldable pub detect_from_text : Text → Version × Text
detect_from_text text = if is_empty text then nothing else parsed text text

unfoldable pub detect_from_api_version_header : Request → Version × Text
detect_from_api_version_header r = detect_from_text (r.header (codes "API-Version"))

unfoldable pub detect_from_x_api_version_header : Request → Version × Text
detect_from_x_api_version_header r = detect_from_text (r.header (codes "X-API-Version"))

unfoldable pub detect_from_query_parameter : Detector → Request → Version × Text
detect_from_query_parameter d r = detect_from_text (r.query d.query_param_name)

-- `strings.Split(strings.TrimPrefix(r.URL.Path, "/"), "/")`
unfoldable pub path_parts : Request → List Text
path_parts r = split (trim_prefix r.path (codes "/")) (codes "/")

abbrev pub path_is_empty : Request → Bool
path_is_empty r = is_empty (trim_prefix r.path (codes "/"))

unfoldable pub detect_from_url_path : Request → Version × Text
detect_from_url_path r =
    if path_is_empty r
    then nothing
    else if has_prefix (part 0 (path_parts r)) (codes "v")
    then parsed (part 0 (path_parts r)) (part 0 (path_parts r))
    else nothing

-- `none` is the nil context.
unfoldable pub detect_from_context_value : Detector → Option Context → Version × Text
detect_from_context_value d none = nothing
detect_from_context_value d (some ctx) = elim (ctx d.context_key) [
  | version_value version ↦ (version, d.context_key)
  | text_value text ↦ if is_empty text then nothing else parsed text text
  | _ ↦ nothing
]

-- The case of the switch; `none` where it has none, as for the default method.
unfoldable pub attempt : Detector → Request → DetectionMethod → Option (Version × Text)
attempt d r accept_header = some (detect_from_accept_header d r)
attempt d r api_version_header = some (detect_from_api_version_header r)
attempt d r x_api_version_header = some (detect_from_x_api_version_header r)
attempt d r query_parameter = some (detect_from_query_parameter d r)
attempt d r url_path = some (detect_from_url_path r)
attempt d r context_value = some (detect_from_context_value d (some r.context))
attempt d r default = none
attempt d r (unknown_method n) = none

abbrev pub fallback_result : Detector → DetectionResult
fallback_result d = record {
  version = d.default_version;
  method = default;
  source = codes "default_version";
}

-- The result of a case, if its version is not the zero version.
abbrev pub hit : DetectionMethod → Option (Version × Text) → Option DetectionResult
hit method none = none
hit method (some (version, source)) =
    if not (is_zero version)
    then some (record { version = version; method = method; source = source })
    else none

-- The loop over the enabled methods.
unfoldable pub detect_loop : Detector → Request → List DetectionMethod → DetectionResult
detect_loop d r [] = fallback_result d
detect_loop d r (method ∷ methods) = elim (hit method (attempt d r method)) [
  | some result ↦ result
  | none ↦ detect_loop d r methods
]

unfoldable pub detect_from_http_request : Detector → Request → DetectionResult
detect_from_http_request d r = detect_loop d r d.enabled_methods

unfoldable pub detect_from_context : Detector → Option Context → DetectionResult
detect_from_context d ctx = elim (hit context_value (some (detect_from_context_value d ctx))) [
  | some result ↦ result
  | none ↦ fallback_result d
]

unfoldable pub detect_version : Detector → Request → Version
detect_version d r = (detect_from_http_request d r).version

unfoldable pub extract_pipeline_from_path : Request → Text
extract_pipeline_from_path r =
    if path_is_empty r
    then []
    else part (if has_prefix (part 0 (path_parts r)) (codes "v") then 1 else 0) (path_parts r)

unfoldable pub extract_component_from_path : Request → Text
extract_component_from_path r =
    if not (is_empty (r.header (codes "X-Component")))
    then r.header (codes "X-Component")
    else if not (is_empty (r.query (codes "component")))
    then r.query (codes "component")
    else extract_pipeline_from_path r

-- `context.WithValue(ctx, "api_version", version)`
unfoldable pub set_version_in_context : Context → Version → Context
set_version_in_context ctx version key =
    if text_eq key api_version then version_value version else ctx key

unfoldable pub get_version_from_context : Context → Option Version
get_version_from_context ctx = elim (ctx api_version) [
  | version_value version ↦ some version
  | _ ↦ none
]

-- What DetectorMiddleware hands on: the request with the new context, and the headers that it sets
-- on the response.
unfoldable pub detector_middleware : Detector → Request → Request × List (Text × Text)
detector_middleware d r =
    let result = detect_from_http_request d r in
    (
      record r { context = set_version_in_context r.context result.version },
      (codes "X-API-Version", to_string result.version)
          ∷ (codes "X-Version-Detection-Method", method_text result.method)
          ∷ [],
    )
