-- ===== src/Math/Tests.antt =====
-- The logarithms, the test for a power of two and split_integral at concrete values.
use ka_min_par.Prelude.{◌*◌, ◌^◌, ◌≤◌, ◌<◌, ◌≡◌, refl, arith}
use ka_min_par.Math.{floor_log2, ceil_log2}
use ka_min_par.Math.Log.{ceil_log2_bounds}

ceil_log2_bounds_example : (100 ≤ 2 ^ ceil_log2 32 100) × (2 ^ ceil_log2 32 100 < 2 * 100)
ceil_log2_bounds_example = ceil_log2_bounds 32 100 (omega arith) (omega arith)

floor_log2_runs : floor_log2 32 100 ≡ 6
unfolding floor_log2
floor_log2_runs = refl

ceil_log2_runs : (ceil_log2 32 100 ≡ 7) × (ceil_log2 32 64 ≡ 6)
unfolding ceil_log2 floor_log2
ceil_log2_runs = (refl, refl)
