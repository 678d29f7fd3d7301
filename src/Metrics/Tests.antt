-- ===== src/Metrics/Tests.antt =====
-- The theorems on the collector at concrete calls and counters.
use gochoreo.Common.{ℕ, ◌%◌, ◌≡◌, List, [], ◌∷◌, Map}
use gochoreo.Common.Word.{mod64}
use gochoreo.Text.{Text, codes}
use gochoreo.Version.{default_version}
use gochoreo.Metrics.{new_default_metrics_collector}
use gochoreo.Metrics.Counting.{
  Call, request, error, reset_one, run_calls, requests_at, errors_at, requests_in, errors_in,
  counters_lem,
}

abbrev calls : List Call
calls =
    request (codes "auth") default_version (codes "9:00")
    ∷ reset_one (codes "auth")
    ∷ request (codes "auth") default_version (codes "9:01")
    ∷ error (codes "auth") default_version
    ∷ []

counters_lem_example :
    let c = run_calls calls new_default_metrics_collector in
    (requests_at (codes "auth") (codes "v1.0.0") c
      ≡ requests_in (codes "auth") (codes "v1.0.0") calls 0 % mod64)
    × (errors_at (codes "auth") (codes "v1.0.0") c
        ≡ errors_in (codes "auth") (codes "v1.0.0") calls 0 % mod64)
counters_lem_example = counters_lem (codes "auth") (codes "v1.0.0") calls

abbrev counters : Map Text ℕ
counters = (codes "v1.0.0", 5) ∷ (codes "v2.0.0", 2) ∷ []
