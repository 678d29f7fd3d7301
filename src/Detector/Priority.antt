-- ===== src/Detector/Priority.antt =====
-- The order of the methods decides.
use gochoreo.Common.{
  ◌≡◌, refl, ◌⊎◌, inl, inr, none, some, List, [], ◌∷◌, ◌++◌, All, ◌∙◌, ap, sym, Option-cases,
}
use gochoreo.Text.{codes}
use gochoreo.Detector.{
  Detector, Request, DetectionMethod, DetectionResult, default, hit, attempt, detect_loop,
  detect_from_http_request,
}
use gochoreo.Detector.Reads.{Finds, FindsNothing, attempt_iff}

-- How the loop over the methods ends.
abbrev pub Decides : Detector → Request → List DetectionMethod → DetectionResult → Type 0
Decides d r methods result =
    ((before : List DetectionMethod) × (method : DetectionMethod) × (after : List DetectionMethod)
      × (methods ≡ before ++ method ∷ after)
      × All (FindsNothing d r) before
      × Finds d r method result)
    ⊎ (All (FindsNothing d r) methods
        × (result.version ≡ d.default_version)
        × (result.method ≡ default)
        × (result.source ≡ codes "default_version"))

later-Decides :
    (d : Detector) (r : Request) (method : DetectionMethod) (methods : List DetectionMethod)
    (result : DetectionResult)
    → FindsNothing d r method
    → Decides d r methods result
    → Decides d r (method ∷ methods) result
later-Decides d r method methods result none_here
      (inl (before, m, after, e, nothing_found, found)) =
    inl (method ∷ before, m, after, ap (λ ms. method ∷ ms) e, (none_here, nothing_found), found)
later-Decides d r method methods result none_here (inr (nothing_found, v, m, s)) =
    inr ((none_here, nothing_found), v, m, s)

detect_loop-Decides :
    (d : Detector) (r : Request) (methods : List DetectionMethod)
    → Decides d r methods (detect_loop d r methods)
unfolding detect_loop
detect_loop-Decides d r [] = inr (tt, refl, refl, refl)
detect_loop-Decides d r (method ∷ methods) = elim (Option-cases (hit method (attempt d r method))) [
  | inl miss ↦
      rw (detect_loop, miss)
        (later-Decides d r method methods (detect_loop d r methods)
          (λ result found. none_some (sym miss ∙ (attempt_iff d r method result).1 found))
          (detect_loop-Decides d r methods))
  | inr (result, e) ↦
      rw (detect_loop, e) (inl ([], method, methods, refl, tt, (attempt_iff d r method result).0 e))
]
  where
    none_some : {result : DetectionResult} → none ≡ some result → ⊥
    none_some q = cc

-- For every detector and request, either the result is what some enabled method finds, and no
-- method enabled before it finds anything; or no enabled method finds anything, and the result is
-- the default version of the detector, with the default method and the source "default_version". A
-- method finds what it reads at its place, if that is a version with a text or a number that is not
-- 0: the two headers, the query parameter and a text in the context are read where they are not
-- empty, the first segment of the path where it begins with "v", a version in the context as it
-- stands, and the Accept header as detectFromAcceptHeader reads it.
pub detect_from_http_request-first :
    (d : Detector) (r : Request) → Decides d r d.enabled_methods (detect_from_http_request d r)
unfolding detect_from_http_request
detect_from_http_request-first d r = detect_loop-Decides d r d.enabled_methods

-- The case of the method gives no result.
abbrev pub IsMiss : Detector → Request → DetectionMethod → Type 0
IsMiss d r method = hit method (attempt d r method) ≡ none

detect_loop-hit :
    (d : Detector) (r : Request) (before after : List DetectionMethod) (method : DetectionMethod)
    (result : DetectionResult)
    → All (IsMiss d r) before
    → hit method (attempt d r method) ≡ some result
    → detect_loop d r (before ++ method ∷ after) ≡ result
unfolding detect_loop
detect_loop-hit d r [] after method result none_before e = rw (e, detect_loop) refl
detect_loop-hit d r (m ∷ before) after method result none_before e =
    rw (none_before.0, detect_loop) (detect_loop-hit d r before after method result none_before.1 e)

pub detect_from_http_request-hit :
    (d : Detector) (r : Request) (before after : List DetectionMethod) (method : DetectionMethod)
    (result : DetectionResult)
    → d.enabled_methods ≡ before ++ method ∷ after
    → All (IsMiss d r) before
    → hit method (attempt d r method) ≡ some result
    → detect_from_http_request d r ≡ result
unfolding detect_from_http_request
detect_from_http_request-hit d r before after method result order none_before e =
    ap (detect_loop d r) order ∙ detect_loop-hit d r before after method result none_before e
