-- ===== src/Math.antt =====
-- kaminpar/utility/math.h: binary logarithms of unsigned integers of `width` bits, and the halves
-- of a number.
pub mod Log
mod Tests
use ka_min_par.Prelude.{ℕ, zero, suc, ◌+◌, ◌-◌, ◌/◌, ◌^◌, Bool, not, ◌&&◌, ◌==◌, if◌then◌else◌}
use Prim.Native.Nat.{bit_and}

-- The bits of `x` below its leading zeros, with `fuel` at least their number.
unfoldable pub bit_length : ℕ → ℕ → ℕ
bit_length zero x = 0
bit_length (suc fuel) x = let rest = bit_length fuel (x / 2) + 1 in if x == 0 then 0 else rest

-- The compiler's __builtin_clz and __builtin_clzl: the leading zeros among `width` bits.
unfoldable pub count_leading_zeros : ℕ → ℕ → ℕ
unfolding bit_length
count_leading_zeros width x = width - bit_length width x

unfoldable pub floor_log2 : ℕ → ℕ → ℕ
unfolding count_leading_zeros
floor_log2 width x = width - count_leading_zeros width x - 1

unfoldable pub ceil_log2 : ℕ → ℕ → ℕ
unfolding floor_log2
ceil_log2 width x = floor_log2 width x + 1 - (if bit_and x (x - 1) == 0 then 1 else 0)

unfoldable pub is_power_of_2 : ℕ → Bool
is_power_of_2 x = not (x == 0) && bit_and x (x - 1) == 0

-- split_integral at the ratio 0.5: the ceiling and the floor of half the value.
unfoldable pub split_integral : ℕ → ℕ × ℕ
split_integral value = ((value + 1) / 2, value / 2)

-- round_down_to_power_of_2 and round_up_to_power_of_2: `1 << log2`
unfoldable pub round_down_to_power_of_2 : ℕ → ℕ → ℕ
round_down_to_power_of_2 width x = 2 ^ floor_log2 width x

unfoldable pub round_up_to_power_of_2 : ℕ → ℕ → ℕ
round_up_to_power_of_2 width x = 2 ^ ceil_log2 width x
