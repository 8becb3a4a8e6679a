-- ===== src/Math/Log.antt =====
-- The binary logarithms are the integer parts that they are named for, and the test for a power of
-- two is right.
use Prim.Native.Nat.{bit_and, bit_and-bitwise, digits}
use native.Mathlib.Nat.{pow-suc}
use mathlib.Core.Bool.{So-prop}
use mathlib.Core.Logic.{∥∥₁_elim}
use ka_min_par.Prelude.{
  ◌↔◌, ltb, ap, ℕ, zero, suc, ◌+◌, ◌-◌, ◌*◌, ◌/◌, ◌%◌, ◌^◌, ◌≤◌, ◌<◌, ◌≡◌, refl, ◌∙◌, inl, inr,
  true, false, arith, ◌==◌, Bool-cases, min,
}
use ka_min_par.Math.{bit_length, floor_log2, ceil_log2, is_power_of_2, split_integral}

pub pow-step : (k : ℕ) → 2 ^ suc k ≡ 2 * 2 ^ k
pow-step k = omega (arith, pow-suc 2 k)

pub pow_pos : (k : ℕ) → 0 < 2 ^ k
pow_pos zero = omega arith
pow_pos (suc k) = omega (arith, pow-step k, pow_pos k)

pub pow_mono : (j k : ℕ) → j ≤ k → 2 ^ j ≤ 2 ^ k
pow_mono zero k h = pow_pos k
pow_mono (suc j) zero h = absurd (omega arith)
pow_mono (suc j) (suc k) h = omega (arith, pow-step j, pow-step k, pow_mono j k (omega arith))

pub pow_cancel : (j k : ℕ) → 2 ^ j < 2 ^ k → j < k
pow_cancel j k h = elim (Bool-cases (ltb j k)) [
  | inl less ↦ ground arith
  | inr no_less ↦ absurd (omega (arith, pow_mono k j (ground arith)))
]

bit_length-zero : (fuel : ℕ) → bit_length fuel 0 ≡ 0
unfolding bit_length
bit_length-zero zero = refl
bit_length-zero (suc fuel) = refl

-- The number of bits puts `x` between two powers of two.
bit_length_bounds :
    (fuel x : ℕ)
    → 0 < x
    → x < 2 ^ fuel
    → (l : ℕ) × (bit_length fuel x ≡ suc l) × (2 ^ l ≤ x) × (x < 2 ^ suc l) × (l < fuel)
unfolding bit_length
bit_length_bounds zero x p h = absurd (omega arith)
bit_length_bounds (suc fuel) x p h = elim (Bool-cases (x / 2 == 0)) [
  | inl one ↦
      let e : x / 2 ≡ 0 = ground arith in
      (
        0,
        ground (arith, e, ap (bit_length fuel) e, bit_length-zero fuel),
        omega arith,
        omega arith,
        omega arith,
      )
  | inr more ↦
      let (l, e, lo, hi, lt) =
        bit_length_bounds fuel (x / 2) (ground arith) (omega (arith, pow-step fuel)) in
      (suc l, ground arith, omega (arith, pow-step l), omega (arith, pow-step (suc l)), omega arith)
]

-- floor_log2 of a number of the width that is not 0 is the exponent of the largest power of two
-- that is not larger.
pub floor_log2_bounds :
    (width x : ℕ)
    → 0 < x
    → x < 2 ^ width
    → (2 ^ floor_log2 width x ≤ x) × (x < 2 ^ suc (floor_log2 width x))
unfolding floor_log2
floor_log2_bounds width x p h =
    let (l, e, lo, hi, lt) = bit_length_bounds width x p h in
    let is : width - (width - bit_length width x) - 1 ≡ l = omega arith in rw is (lo, hi)

pub floor_log2-lt : (width x : ℕ) → 0 < x → x < 2 ^ width → floor_log2 width x < width
unfolding floor_log2
floor_log2-lt width x p h = let (l, e, lo, hi, lt) = bit_length_bounds width x p h in omega arith

-- The digit-wise minimum that bit_and stands for, with its bound on the digits.
abbrev low_digits : ℕ → ℕ → ℕ → ℕ
low_digits = digits (λ b. zero) min

one_digit_more : (f a b : ℕ) → a ≤ f → low_digits (suc f) a b ≡ low_digits f a b
one_digit_more zero zero b h = refl
one_digit_more zero (suc a) b h = absurd (omega arith)
one_digit_more (suc f) zero b h = refl
one_digit_more (suc f) (suc a) b h =
    let rest = one_digit_more f (suc a / 2) (b / 2) (omega arith) in omega (arith, rest)

enough_digits : (f a b : ℕ) → a ≤ f → low_digits f a b ≡ low_digits a a b
enough_digits zero zero b h = refl
enough_digits zero (suc a) b h = absurd (omega arith)
enough_digits (suc f) a b h = elim (Bool-cases (a == suc f)) [
  | inl all ↦ let e : a ≡ suc f = ground arith in rw e
  | inr fewer ↦ one_digit_more f a b (ground arith) ∙ enough_digits f a b (ground arith)
]

bit_and_halves : (a b : ℕ) → bit_and a b ≡ bit_and (a / 2) (b / 2) * 2 + min (a % 2) (b % 2)
bit_and_halves zero b =
    let none_set : bit_and 0 b ≡ 0 = bit_and-bitwise 0 b in
    let none_left : bit_and 0 (b / 2) ≡ 0 = bit_and-bitwise 0 (b / 2) in omega arith
bit_and_halves (suc a) b =
    let rest = enough_digits a (suc a / 2) (b / 2) (omega arith) in
    let whole = bit_and-bitwise (suc a) b in
    let half = bit_and-bitwise (suc a / 2) (b / 2) in omega (arith, rest, whole, half)

bit_and_self : (f a : ℕ) → a ≤ f → bit_and a a ≡ a
bit_and_self f zero h = bit_and-bitwise 0 0
bit_and_self zero (suc a) h = absurd (omega arith)
bit_and_self (suc f) (suc a) h =
    omega (arith, bit_and_halves (suc a) (suc a), bit_and_self f (suc a / 2) (omega arith))

-- x & (x - 1) is 0 for no number but the powers of two.
pow_of_bit_and : (f x : ℕ) → 0 < x → x ≤ f → bit_and x (x - 1) ≡ 0 → (k : ℕ) × (x ≡ 2 ^ k)
pow_of_bit_and zero x p h e = absurd (omega arith)
pow_of_bit_and (suc f) x p h e =
    let halves = bit_and_halves x (x - 1) in
    elim (Bool-cases (x % 2 == 0)) [
      | inr odd ↦
          let low : (x - 1) / 2 ≡ x / 2 = ground arith in
          let same : bit_and (x / 2) ((x - 1) / 2) ≡ x / 2 =
            rw low (bit_and_self f (x / 2) (omega arith)) in
          (0, ground arith)
      | inl even ↦
          let low : (x - 1) / 2 ≡ x / 2 - 1 = ground arith in
          let less : bit_and (x / 2) (x / 2 - 1) ≡ 0 =
            rw (← low) (let even' : x % 2 ≡ 0 = ground arith in omega arith) in
          let (k, is) = pow_of_bit_and f (x / 2) (ground arith) (omega arith) less in
          (suc k, ground (arith, pow-step k))
    ]

bit_and-pow : (k : ℕ) → bit_and (2 ^ k) (2 ^ k - 1) ≡ 0
bit_and-pow zero = bit_and-bitwise 1 0
bit_and-pow (suc k) =
    let p = 2 ^ k in
    let half : 2 ^ suc k / 2 ≡ p = omega (arith, pow-step k) in
    let pos : 0 < p = pow_pos k in
    let low : (2 ^ suc k - 1) / 2 ≡ p - 1 = omega (arith, pow-step k) in
    let pair : bit_and (2 ^ suc k / 2) ((2 ^ suc k - 1) / 2) ≡ 0 = rw (half, low) (bit_and-pow k) in
    omega (arith, bit_and_halves (2 ^ suc k) (2 ^ suc k - 1), pow-step k)

-- is_power_of_2 says yes of the powers of two.
pub is_power_of_2-pow : (k : ℕ) → is_power_of_2 (2 ^ k) ≡ true
unfolding is_power_of_2
is_power_of_2-pow k = ground (arith, bit_and-pow k, pow_pos k)

-- Only of them is_power_of_2 says yes.
pub pow_of_is_power_of_2 : (x : ℕ) → is_power_of_2 x ≡ true → (k : ℕ) × (x ≡ 2 ^ k)
unfolding is_power_of_2
pow_of_is_power_of_2 x h = pow_of_bit_and x x (ground arith) (omega arith) (ground arith)

-- A power of two in the range of another's logarithm is that power.
pow_unique : (j k : ℕ) → 2 ^ j ≤ 2 ^ k → 2 ^ k < 2 ^ suc j → j ≡ k
pow_unique j k p q = elim (Bool-cases (ltb j k)) [
  | inl less ↦ absurd (omega (arith, pow_mono (suc j) k (ground arith)))
  | inr no_less ↦ elim (Bool-cases (ltb k j)) [
    | inl more ↦ absurd (omega (arith, pow_mono (suc k) j (ground arith), pow-step k, pow_pos k))
    | inr same ↦ ground arith
  ]
]

not_power : (x f : ℕ) → 2 ^ f ≡ x → (bit_and x (x - 1) == 0) ≡ false → ⊥
not_power x f e h = let zero' : bit_and x (x - 1) ≡ 0 = rw e at (bit_and-pow f) in ground arith

-- ceil_log2 of a number of the width that is not 0 is the exponent of the smallest power of two
-- that is not smaller.
pub ceil_log2_bounds :
    (width x : ℕ)
    → 0 < x
    → x < 2 ^ width
    → (x ≤ 2 ^ ceil_log2 width x) × (2 ^ ceil_log2 width x < 2 * x)
unfolding ceil_log2
ceil_log2_bounds width x p h =
    let f = floor_log2 width x in
    let (lo, hi) = floor_log2_bounds width x p h in
    elim (Bool-cases (bit_and x (x - 1) == 0)) [
      | inl power ↦
          let (k, is) = pow_of_bit_and x x p (omega arith) (ground arith) in
          let same : f ≡ k = pow_unique f k (rw (← is) lo) (rw (← is) hi) in
          let exponent : f + 1 - 1 ≡ k = omega arith in
          rw (power, exponent) (omega arith, omega arith)
      | inr between ↦
          let not_pow : 2 ^ f ≡ x → ⊥ = λ e. not_power x f e between in
          let exponent : f + 1 - 0 ≡ suc f = omega arith in
          rw (between, exponent) (omega arith, omega (arith, pow-step f))
    ]

-- is_power_of_2 says yes exactly of the powers of two.
pub is_power_of_2_iff : (x : ℕ) → (is_power_of_2 x ≡ true) ↔ ∥ ((k : ℕ) × (x ≡ 2 ^ k)) ∥₁
is_power_of_2_iff x = (
  λ h. ∣ pow_of_is_power_of_2 x h ∣₁,
  λ t. ∥∥₁_elim t (So-prop _) (λ (k, e). rw e (is_power_of_2-pow k)),
)

-- The halves of split_integral add up to the value, the larger first, and differ by at most 1.
pub split_integral_sum :
    (value : ℕ)
    → ((split_integral value).0 + (split_integral value).1 ≡ value)
      × ((split_integral value).1 ≤ (split_integral value).0)
      × ((split_integral value).0 ≤ (split_integral value).1 + 1)
unfolding split_integral
split_integral_sum value = omega arith
