-- ===== src/Marker/Bits.antt =====
-- Single bits, and the part of a number above the lowest bits.
use native.Mathlib.Nat.{mul_left_comm}
use ka_min_par.Prelude.{
  ℕ, zero, suc, ◌+◌, ◌*◌, ◌/◌, ◌%◌, ◌^◌, ◌≤◌, ◌<◌, ◌≡◌, refl, false, ◌||◌, arith, ◌==◌,
}
use ka_min_par.Math.Log.{pow-step}
use ka_min_par.Marker.{has_bit, with_bit, shift_right}

-- Setting a bit sets that one alone.
pub has_bit-with_bit : (d i j : ℕ) → has_bit (with_bit d i) j ≡ ((i == j) || has_bit d j)
has_bit-with_bit d zero zero = ground arith
has_bit-with_bit d zero (suc j) =
    let same : (d / 2 * 2 + 1) / 2 ≡ d / 2 = omega arith in rw same (ground arith)
has_bit-with_bit d (suc i) zero = ground arith
has_bit-with_bit d (suc i) (suc j) =
    let same : (with_bit (d / 2) i * 2 + d % 2) / 2 ≡ with_bit (d / 2) i = omega arith in
    let rest = has_bit-with_bit (d / 2) i j in
    let index : (suc i == suc j) ≡ (i == j) = ground arith in rw (same, index) rest

-- The bits above are those of before.
pub shift_right-with_bit : (d i k : ℕ) → i < k → shift_right (with_bit d i) k ≡ shift_right d k
shift_right-with_bit d i zero h = absurd (omega arith)
shift_right-with_bit d zero (suc k) h =
    let same : (d / 2 * 2 + 1) / 2 ≡ d / 2 = omega arith in rw same refl
shift_right-with_bit d (suc i) (suc k) h =
    let same : (with_bit (d / 2) i * 2 + d % 2) / 2 ≡ with_bit (d / 2) i = omega arith in
    rw same (shift_right-with_bit (d / 2) i k (omega arith))

double_multiple : (r k : ℕ) → r * 2 ^ suc k ≡ 2 * (r * 2 ^ k)
double_multiple r k = rw (pow-step k) (mul_left_comm r 2 (2 ^ k))

-- The shift is the division by the power of two.
pub shift_right_bounds :
    (d k : ℕ) → (shift_right d k * 2 ^ k ≤ d) × (d < (shift_right d k + 1) * 2 ^ k)
shift_right_bounds d zero = omega arith
shift_right_bounds d (suc k) =
    let (lo, hi) = shift_right_bounds (d / 2) k in
    omega (
      arith,
      double_multiple (shift_right (d / 2) k) k,
      double_multiple (shift_right (d / 2) k + 1) k,
    )

-- A multiple of the power of two has none of the bits below.
pub shift_right-multiple : (r k : ℕ) → shift_right (r * 2 ^ k) k ≡ r
shift_right-multiple r zero = omega arith
shift_right-multiple r (suc k) =
    let half : r * 2 ^ suc k / 2 ≡ r * 2 ^ k = omega (arith, double_multiple r k) in
    rw half (shift_right-multiple r k)

pub has_bit-multiple : (r k i : ℕ) → i < k → has_bit (r * 2 ^ k) i ≡ false
has_bit-multiple r zero i h = absurd (omega arith)
has_bit-multiple r (suc k) zero h = ground (arith, double_multiple r k)
has_bit-multiple r (suc k) (suc i) h =
    let half : r * 2 ^ suc k / 2 ≡ r * 2 ^ k = omega (arith, double_multiple r k) in
    rw half (has_bit-multiple r k i (omega arith))
