-- ===== src/Detector/Debug.antt =====
-- CreateDebugInfo (pkg/version/utils.go).
use gochoreo.Common.{
  ◌≡◌, refl, ◌↔◌, Bool, true, false, Option, none, some, List, [], ◌∷◌, Mem, any, any_of_Mem,
  exists_of_any, sym, ◌∙◌, if◌then◌else◌, arith,
}
use gochoreo.Common.Int.{pos, eqb_ℤ, eqb_ℤ_iff}
use gochoreo.Text.{Text}
use gochoreo.Version.{Version, compare}
use gochoreo.Version.Order.{SameNumbers, compare-eq_zero_iff}
use gochoreo.Utils.{version_string_slice}
use gochoreo.Errors.{GoError, error_text}
use gochoreo.Detector.{Detector, Request, method_text, detect_from_http_request, detect_version}

pub record DebugVersionInfo : Type 0 where
  pub detected_version : Version
  pub detection_method : Text
  pub detection_source : Text
  pub requested_component : Text
  pub available_versions : List Text
  pub is_supported : Bool
  pub error : Text
  pub processing_time : Text

-- The loop over the available versions, which ends at the first that compares alike.
unfoldable pub supports : Version → List Version → Bool
supports version [] = false
supports version (v ∷ vs) =
    let rest = supports version vs in if eqb_ℤ (compare v version) (pos 0) then true else rest

unfoldable pub create_debug_info :
    Detector → Request → Text → List Version → Option GoError → DebugVersionInfo
create_debug_info detector r component available err =
    let result = detect_from_http_request detector r in
    record {
      detected_version = result.version;
      detection_method = method_text result.method;
      detection_source = result.source;
      requested_component = component;
      available_versions = version_string_slice available;
      is_supported = supports result.version available;
      error = elim err [ none ↦ [] | some e ↦ error_text e ];
      processing_time = [];
    }

supports-any :
    (version : Version) (vs : List Version)
    → supports version vs ≡ any (λ v. eqb_ℤ (compare v version) (pos 0)) vs
unfolding supports
supports-any version [] = refl
supports-any version (v ∷ vs) = ground (arith, supports-any version vs)

supports_iff :
    (version : Version) (vs : List Version)
    → (supports version vs ≡ true) ↔ ((u : Version) × Mem u vs × SameNumbers u version)
supports_iff version vs = (
  (λ e.
      let (u, m, q) =
        exists_of_any (λ v. eqb_ℤ (compare v version) (pos 0)) vs
          (sym (supports-any version vs) ∙ e) in
      (u, m, (compare-eq_zero_iff u version).0 ((eqb_ℤ_iff _ _).0 q))),
  λ h.
      let (u, m, q) = h in
      supports-any version vs
      ∙ any_of_Mem (λ v. eqb_ℤ (compare v version) (pos 0)) u vs m
          ((eqb_ℤ_iff _ _).1 ((compare-eq_zero_iff u version).1 q)),
)

-- The debug information says that the version is supported exactly when an available version has
-- the three numbers of the version that DetectVersion finds, which it shows.
pub create_debug_info_lem :
    (detector : Detector) (r : Request) (component : Text) (available : List Version)
    (err : Option GoError)
    → let debug = create_debug_info detector r component available err in
      (debug.detected_version ≡ detect_version detector r)
      × ((debug.is_supported ≡ true)
          ↔ ((u : Version) × Mem u available × SameNumbers u (detect_version detector r)))
unfolding create_debug_info detect_version
create_debug_info_lem detector r component available err =
    (refl, supports_iff (detect_from_http_request detector r).version available)
