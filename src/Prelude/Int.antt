-- ===== src/Prelude/Int.antt =====
-- Gains: signed numbers over the native ones, as a difference of two, with their order as keys of
-- a heap.
use Prim.Native.Nat.{ℕ, ◌+◌, ◌-◌}
use mathlib.Core.Path.{◌≡◌, ap}
use mathlib.Core.Bool.{Bool, true, false}
use native.Mathlib.Omega.{arith}
use ka_min_par.Prelude.Tests.{ltb, leb, ◌==◌, if◌then◌else◌}

-- `negsuc n` is -(n + 1).
pub data ℤ : Type 0 where
  pos : ℕ → ℤ
  negsuc : ℕ → ℤ

abbrev pub plus_part : ℤ → ℕ
plus_part (pos n) = n
plus_part (negsuc n) = 0

abbrev pub minus_part : ℤ → ℕ
minus_part (pos n) = 0
minus_part (negsuc n) = n + 1

-- The difference of two numbers.
abbrev pub minus : ℕ → ℕ → ℤ
minus a b = if leb b a then pos (a - b) else negsuc (b - a - 1)

infixl 65 ◌-ℤ◌
abbrev pub ◌-ℤ◌ : ℤ → ℤ → ℤ
a -ℤ b = minus (plus_part a + minus_part b) (minus_part a + plus_part b)

abbrev pub ltb_ℤ : ℤ → ℤ → Bool
ltb_ℤ a b = ltb (plus_part a + minus_part b) (plus_part b + minus_part a)

abbrev pub eqb_ℤ : ℤ → ℤ → Bool
eqb_ℤ (pos m) (pos n) = m == n
eqb_ℤ (negsuc m) (negsuc n) = m == n
eqb_ℤ (pos m) (negsuc n) = false
eqb_ℤ (negsuc m) (pos n) = false

pub eqb_ℤ_eq : (a b : ℤ) → eqb_ℤ a b ≡ true → a ≡ b
eqb_ℤ_eq (pos m) (pos n) h = let e : m ≡ n = ground arith in ap pos e
eqb_ℤ_eq (negsuc m) (negsuc n) h = let e : m ≡ n = ground arith in ap negsuc e
eqb_ℤ_eq (pos m) (negsuc n) h = absurd (ground arith)
eqb_ℤ_eq (negsuc m) (pos n) h = absurd (ground arith)

pub ltb_ℤ_connected : (a b : ℤ) → ltb_ℤ b a ≡ false → eqb_ℤ a b ≡ false → ltb_ℤ a b ≡ true
ltb_ℤ_connected (pos m) (pos n) h e = ground arith
ltb_ℤ_connected (negsuc m) (negsuc n) h e = ground arith
ltb_ℤ_connected (pos m) (negsuc n) h e = ground arith
ltb_ℤ_connected (negsuc m) (pos n) h e = ground arith

pub ltb_ℤ_asymmetric : (a b : ℤ) → ltb_ℤ a b ≡ true → ltb_ℤ b a ≡ false
ltb_ℤ_asymmetric a b h = ground arith

pub ltb_ℤ_negatively_transitive :
    (a b c : ℤ) → ltb_ℤ a b ≡ false → ltb_ℤ b c ≡ false → ltb_ℤ a c ≡ false
ltb_ℤ_negatively_transitive a b c p q = ground arith
