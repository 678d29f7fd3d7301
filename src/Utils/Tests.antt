-- ===== src/Utils/Tests.antt =====
-- The theorems on version lists and the matrix at concrete lists and names.
use gochoreo.Common.{◌≡◌, ◌≢◌, ◌↔◌, true, List, [], ◌∷◌, arith, Mem, lookup}
use gochoreo.Common.Int.{pos, int_key}
use gochoreo.Text.{Text, codes}
use gochoreo.Text.Parts.{Lacks}
use gochoreo.Sort.Insertion.{insertion}
use gochoreo.Version.{Version, new_version}
use gochoreo.Utils.{find_closest_version}
use gochoreo.Utils.Choice.{IsClosest, find_closest_version-IsClosest}
use gochoreo.Utils.Matrix.{
  VersionCompatibilityMatrix, new_version_compatibility_matrix, set_compatible,
  matrix_is_compatible, RowsUnique, set_compatible-RowsUnique, listed,
  matrix_get_compatible_versions,
}
use gochoreo.Utils.Matrix.Listing.{listed-get_compatible_versions}

abbrev available : List Version
available =
    new_version (pos 1) (pos 2) (pos 0)
    ∷ new_version (pos 2) (pos 1) (pos 0)
    ∷ new_version (pos 1) (pos 4) (pos 7)
    ∷ []

abbrev target : Version
target = new_version (pos 1) (pos 3) (pos 0)

available-ne_nil : available ≢ []
available-ne_nil e = cc

find_closest_version-IsClosest_example :
    IsClosest target available (find_closest_version insertion target available)
find_closest_version-IsClosest_example =
    find_closest_version-IsClosest insertion target available available-ne_nil

abbrev auth : Text
auth = codes "auth"

abbrev cache : Text
cache = codes "cache"

Lacks-auth : Lacks b':' auth
Lacks-auth = ground arith

Lacks-cache : Lacks b':' cache
Lacks-cache = ground arith

abbrev auth_cache : VersionCompatibilityMatrix
auth_cache =
    set_compatible new_version_compatibility_matrix auth (codes "v1.0.0") cache (codes "v2.0.0")
      true

auth_cache-RowsUnique : RowsUnique auth_cache
unfolding lookup
auth_cache-RowsUnique =
    set_compatible-RowsUnique new_version_compatibility_matrix auth (codes "v1.0.0") cache
      (codes "v2.0.0") true (λ key. tt)

listed-get_compatible_versions_example :
    Mem
      (codes "v2.0.0")
      (listed cache (matrix_get_compatible_versions auth_cache auth (codes "v1.0.0")))
    ↔ (matrix_is_compatible auth_cache auth (codes "v1.0.0") cache (codes "v2.0.0") ≡ true)
listed-get_compatible_versions_example =
    listed-get_compatible_versions auth_cache auth (codes "v1.0.0") cache (codes "v2.0.0")
      auth_cache-RowsUnique Lacks-cache
