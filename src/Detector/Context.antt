-- ===== src/Detector/Context.antt =====
-- The version that the middleware leaves in the context.
use gochoreo.Common.{◌≡◌, refl, false, some, Bool-cases, inl, inr, if◌then◌else◌, ◌∙◌}
use gochoreo.Text.{Text, text_eq}
use gochoreo.Text.Equality.{text_eq_refl}
use gochoreo.Version.{Version, is_zero}
use gochoreo.Detector.{
  Context, version_value, Detector, Request, context_value, api_version, detect_from_context,
  detect_from_context_value, set_version_in_context, get_version_from_context, detector_middleware,
  detect_version, detect_from_http_request,
}

-- Only the value under the detector's key counts.
value_alike :
    (d : Detector) (c1 c2 : Context)
    → c1 d.context_key ≡ c2 d.context_key
    → detect_from_context_value d (some c1) ≡ detect_from_context_value d (some c2)
unfolding detect_from_context_value
value_alike d c1 c2 e = rw e refl

key_alike :
    (d : Detector) (c1 c2 : Context)
    → c1 d.context_key ≡ c2 d.context_key
    → detect_from_context d (some c1) ≡ detect_from_context d (some c2)
unfolding detect_from_context
key_alike d c1 c2 e = rw (value_alike d c1 c2 e, detect_from_context) refl

value_under_key :
    (d : Detector) (c : Context) (v : Version)
    → c d.context_key ≡ version_value v
    → detect_from_context_value d (some c) ≡ (v, d.context_key)
unfolding detect_from_context_value
value_under_key d c v e = rw (e, detect_from_context_value) refl

version_under_key :
    (d : Detector) (c : Context) (v : Version)
    → is_zero v ≡ false
    → c d.context_key ≡ version_value v
    → detect_from_context d (some c)
      ≡ record { version = v; method = context_value; source = d.context_key }
unfolding detect_from_context
version_under_key d c v h e = rw (value_under_key d c v e, detect_from_context, h) refl

-- What SetVersionInContext leaves under a key.
set_version_in_context_at :
    (ctx : Context) (v : Version) (k : Text)
    → set_version_in_context ctx v k ≡ (if text_eq k api_version then version_value v else ctx k)
unfolding set_version_in_context
set_version_in_context_at ctx v k = refl

-- A version that SetVersionInContext has set is detected when the detector's key is "api_version";
-- with any other key the detector does not see it. The version must not be zero.
pub detect_from_context-set_version_in_context :
    (d : Detector) (ctx : Context) (v : Version)
    → is_zero v ≡ false
    → detect_from_context d (some (set_version_in_context ctx v)) ≡ (
        if text_eq d.context_key api_version
        then record { version = v; method = context_value; source = d.context_key }
        else detect_from_context d (some ctx))
detect_from_context-set_version_in_context d ctx v h =
    elim (Bool-cases (text_eq d.context_key api_version)) [
      | inl same ↦ rw same (
          version_under_key d (set_version_in_context ctx v) v h
            (set_version_in_context_at ctx v d.context_key ∙ rw same refl))
      | inr other ↦ rw other (
          key_alike d (set_version_in_context ctx v) ctx
            (set_version_in_context_at ctx v d.context_key ∙ rw other refl))
    ]

get_version_of_key :
    (ctx : Context) (v : Version)
    → ctx api_version ≡ version_value v
    → get_version_from_context ctx ≡ some v
unfolding get_version_from_context
get_version_of_key ctx v e = rw (e, get_version_from_context) refl

-- Behind the middleware GetVersionFromContext gives the version that the detector found.
pub get_version_from_context-detector_middleware :
    (d : Detector) (r : Request)
    → get_version_from_context (detector_middleware d r).0.context ≡ some (detect_version d r)
unfolding detector_middleware detect_version
get_version_from_context-detector_middleware d r =
    let v = (detect_from_http_request d r).version in
    get_version_of_key (set_version_in_context r.context v) v
      (set_version_in_context_at r.context v api_version ∙ rw (text_eq_refl api_version) refl)
