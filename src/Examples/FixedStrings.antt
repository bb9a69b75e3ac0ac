-- ===== src/Examples/FixedStrings.antt =====
-- The fixed-string theorems at concrete inputs.
use cpp_demo_build.Prelude.{◌≤◌, ◌<◌, ◌≡◌, refl, length, codes, true}
use cpp_demo_build.Prelude.Result.{ok, err, out_of_bounds}
use cpp_demo_build.Lab.FixedString.{FixedString, to_string_view, from_string_view, from, from_lem}

from_lem_example :
    ((length (codes "PETR4") ≤ 4)
      → (fs : FixedString) × (from 4 (codes "PETR4") ≡ ok fs) × (to_string_view fs ≡ codes "PETR4"))
    × ((4 < length (codes "PETR4")) → from 4 (codes "PETR4") ≡ err out_of_bounds)
from_lem_example = from_lem 4 (codes "PETR4")

from_string_view-truncated : (from_string_view 4 (codes "PETR4")).truncated ≡ true
unfolding from_string_view
from_string_view-truncated = refl
