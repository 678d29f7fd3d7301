-- ===== src/Detector/Tests.antt =====
-- The theorems on detection at concrete requests.
use gochoreo.Common.{◌≡◌, refl, [], ◌∷◌, ◌++◌, arith, if◌then◌else◌}
use gochoreo.Text.{Text, codes, text_eq}
use gochoreo.Version.Parse.RoundTrip.{dotted, numbers}
use gochoreo.Detector.{
  Detector, Request, missing, accept_header, api_version_header, query_parameter, new_detector,
  with_context_key, with_enabled_methods, detect_from_http_request,
}
use gochoreo.Detector.Accept.{detect_from_http_request-accept}
use gochoreo.Detector.Priority.{Decides, detect_from_http_request-first}

abbrev accept_text : Text
accept_text = codes "application/vnd.api.v" ++ (dotted 2 1 0 ++ b'+' ∷ codes "json")

-- An Accept header, and a path that begins with "v" without a version in it.
abbrev r : Request
r = record {
  header = λ name. if text_eq name (codes "Accept") then accept_text else [];
  query = λ name. [];
  path = codes "/videos/list";
  context = λ key. missing;
}

abbrev silent : Request
silent = record r { header = λ name. [] }

abbrev named : Request
named = record r { query = λ name. codes "v3" }

abbrev two_methods : Detector
two_methods = new_detector (with_enabled_methods (api_version_header ∷ query_parameter ∷ []) ∷ [])

detect_from_http_request-accept_example : detect_from_http_request (new_detector []) r ≡ record {
  version = numbers (b'v' ∷ dotted 2 1 0) 2 1 0 [];
  method = accept_header;
  source = accept_text;
}
unfolding text_eq
detect_from_http_request-accept_example =
    detect_from_http_request-accept r 2 1 0 (codes "json") (omega arith) (omega arith) (omega arith)
      (ground arith) refl

detect_from_http_request-first_example :
    Decides two_methods named
      (api_version_header ∷ query_parameter ∷ [])
      (detect_from_http_request two_methods named)
unfolding new_detector with_enabled_methods
detect_from_http_request-first_example = detect_from_http_request-first two_methods named

abbrev other_key : Detector
other_key = new_detector (with_context_key (codes "tenant_version") ∷ [])
