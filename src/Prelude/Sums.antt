-- ===== src/Prelude/Sums.antt =====
-- Sums over the indices below a bound, which the loops over nodes, edges and blocks compute.
use native.Mathlib.Nat.{suc-mul}
use Prim.Native.Nat.{ℕ, zero, suc, ◌+◌, ◌<◌, ◌≤◌, ◌*◌}
use mathlib.Core.Path.{◌≡◌, refl, sym, ◌∙◌}
use mathlib.Core.Logic.{◌≢◌, inl, inr}
use mathlib.Core.Bool.{Bool}
use native.Mathlib.Omega.{arith}
use ka_min_par.Prelude.Tests.{Bool-cases, ◌==◌, if◌then◌else◌}

-- f 0 + f 1 + ... + f (n - 1)
abbrev pub sum_below : ℕ → (ℕ → ℕ) → ℕ
sum_below zero f = 0
sum_below (suc n) f = sum_below n f + f n

pub sum_below_congr :
    (n : ℕ) (f g : ℕ → ℕ) → ((i : ℕ) → i < n → f i ≡ g i) → sum_below n f ≡ sum_below n g
sum_below_congr zero f g h = refl
sum_below_congr (suc n) f g h =
    omega (arith, h n (omega arith), sum_below_congr n f g (λ i p. h i (omega arith)))

pub sum_below_mono :
    (n : ℕ) (f g : ℕ → ℕ) → ((i : ℕ) → i < n → f i ≤ g i) → sum_below n f ≤ sum_below n g
sum_below_mono zero f g h = omega arith
sum_below_mono (suc n) f g h =
    omega (arith, h n (omega arith), sum_below_mono n f g (λ i p. h i (omega arith)))

pub sum_below_add :
    (n : ℕ) (f g : ℕ → ℕ) → sum_below n (λ i. f i + g i) ≡ sum_below n f + sum_below n g
sum_below_add zero f g = omega arith
sum_below_add (suc n) f g = omega (arith, sum_below_add n f g)

pub sum_below_zero : (n : ℕ) → sum_below n (λ _. 0) ≡ 0
sum_below_zero zero = refl
sum_below_zero (suc n) = omega (arith, sum_below_zero n)

pub sum_below_one : (n : ℕ) → sum_below n (λ _. 1) ≡ n
sum_below_one zero = refl
sum_below_one (suc n) = omega (arith, sum_below_one n)

-- One term of the sum.
pub sum_below_le : (n : ℕ) (f : ℕ → ℕ) (i : ℕ) → i < n → f i ≤ sum_below n f
sum_below_le zero f i h = absurd (omega arith)
sum_below_le (suc n) f i h = ground (arith, sum_below_le n f i)

-- Two functions that agree but at `k`.
pub sum_below_update :
    (n : ℕ) (f g : ℕ → ℕ) (k : ℕ)
    → k < n
    → ((i : ℕ) → i < n → i ≢ k → f i ≡ g i)
    → sum_below n f + g k ≡ sum_below n g + f k
sum_below_update zero f g k h e = absurd (omega arith)
sum_below_update (suc n) f g k h e = elim (Bool-cases (n == k)) [
  | inl last ↦
      let e' : n ≡ k = ground arith in
      rw (← e') (omega (arith, sum_below_congr n f g (λ i p. e i (omega arith) (omega arith))))
  | inr other ↦ omega (
    arith,
    e n (omega arith) (ground arith),
    sum_below_update n f g k (ground arith) (λ i p q. e i (omega arith) q),
  )
]

-- The indicator of `k` picks the term at `k`.
pub sum_below_pick : (n k v : ℕ) → k < n → sum_below n (λ i. if i == k then v else 0) ≡ v
sum_below_pick n k v h = ground (
  arith,
  sum_below_update n (λ i. if i == k then v else 0) (λ _. 0) k h (λ i p q. ground arith),
  sum_below_zero n,
)

-- A symmetric matrix with an empty diagonal sums up to twice its lower triangle.
pub sum_square_symmetric :
    (n : ℕ) (f : ℕ → ℕ → ℕ)
    → ((i j : ℕ) → i < n → j < n → f i j ≡ f j i)
    → ((i : ℕ) → i < n → f i i ≡ 0)
    → sum_below n (λ i. sum_below n (f i)) ≡ 2 * sum_below n (λ i. sum_below i (f i))
sum_square_symmetric zero f s d = refl
sum_square_symmetric (suc n) f s d = omega (
  arith,
  sum_square_symmetric n f (λ i j p q. s i j (omega arith) (omega arith))
      (λ i p. d i (omega arith)),
  sum_below_add n (λ i. sum_below n (f i)) (λ i. f i n),
  sum_below_congr n (λ i. f i n) (f n) (λ i p. s i n (omega arith) (omega arith)),
  d n (omega arith),
)

sum_below_pick_guarded :
    (n k v : ℕ) (p : ℕ → Bool)
    → k < n
    → sum_below n (λ i. if p i then (if k == i then v else 0) else 0) ≡ (if p k then v else 0)
sum_below_pick_guarded n k v p h = ground (
  arith,
  sum_below_update n (λ i. if p i then (if k == i then v else 0) else 0) (λ _. 0) k h
      (λ i q r. ground arith),
  sum_below_zero n,
)

-- Weights at targets, grouped by target.
pub sum_below_group :
    (d n : ℕ) (t w : ℕ → ℕ) (p : ℕ → Bool)
    → ((i : ℕ) → i < d → t i < n)
    → sum_below d (λ i. if p (t i) then w i else 0)
      ≡ sum_below n (λ v. if p v then sum_below d (λ i. if t i == v then w i else 0) else 0)
sum_below_group zero n t w p h =
    sym (sum_below_congr n _ (λ _. 0) (λ v q. ground arith) ∙ sum_below_zero n)
sum_below_group (suc d) n t w p h =
    let before = λ (v : ℕ). if p v then sum_below d (λ i. if t i == v then w i else 0) else 0 in
    let now = λ (v : ℕ). if p v then (if t d == v then w d else 0) else 0 in
    omega (
      arith,
      sum_below_group d n t w p (λ i q. h i (omega arith)),
      sum_below_congr n
          (λ v. if p v then sum_below (suc d) (λ i. if t i == v then w i else 0) else 0)
          (λ v. before v + now v) (λ v q. ground arith),
      sum_below_add n before now,
      sum_below_pick_guarded n (t d) (w d) p (h d (omega arith)),
    )

-- A sum in two parts, and in parts of equal length.
pub sum_below_append :
    (a b : ℕ) (f : ℕ → ℕ) → sum_below (a + b) f ≡ sum_below a f + sum_below b (λ i. f (a + i))
sum_below_append a zero f = let e : a + 0 ≡ a = omega arith in rw e (omega arith)
sum_below_append a (suc b) f =
    let e : a + suc b ≡ suc (a + b) = omega arith in rw e (omega (arith, sum_below_append a b f))

pub sum_below_blocks :
    (a b : ℕ) (f : ℕ → ℕ)
    → sum_below (a * b) f ≡ sum_below a (λ i. sum_below b (λ j. f (i * b + j)))
sum_below_blocks zero b f = let none_left : 0 * b ≡ 0 = omega arith in rw none_left refl
sum_below_blocks (suc a) b f =
    let more : suc a * b ≡ a * b + b = suc-mul a b in
    rw more (omega (arith, sum_below_append (a * b) b f, sum_below_blocks a b f))

pub sum_below_front : (n : ℕ) (f : ℕ → ℕ) → sum_below (suc n) f ≡ f 0 + sum_below n (λ i. f (suc i))
sum_below_front zero f = omega arith
sum_below_front (suc n) f = omega (arith, sum_below_front n f)

-- Two symmetric matrices with empty diagonals that agree but in the row and the column of `a`: their
-- lower triangles differ as the row does.
pub triangle_changed :
    (n a : ℕ) (f g : ℕ → ℕ → ℕ)
    → a < n
    → ((i j : ℕ) → i < n → j < n → f i j ≡ f j i)
    → ((i : ℕ) → i < n → f i i ≡ 0)
    → ((i j : ℕ) → i < n → j < n → g i j ≡ g j i)
    → ((i : ℕ) → i < n → g i i ≡ 0)
    → ((i j : ℕ) → i < n → j < n → i ≢ a → j ≢ a → f i j ≡ g i j)
    → sum_below n (λ i. sum_below i (f i)) + sum_below n (g a)
      ≡ sum_below n (λ i. sum_below i (g i)) + sum_below n (f a)
triangle_changed n a f g h fs fd gs gd same =
    let row = λ (i : ℕ) (p : i < n) (q : i ≢ a).
      sum_below_update n (f i) (g i) a h (λ j r t. same i j p r q t) in
    let rows =
      sum_below_update n (λ i. sum_below n (f i) + g i a) (λ i. sum_below n (g i) + f i a) a h
        (λ i p q. omega (arith, row i p q)) in
    omega (
      arith,
      rows,
      fd a h,
      gd a h,
      sum_below_add n (λ i. sum_below n (f i)) (λ i. g i a),
      sum_below_add n (λ i. sum_below n (g i)) (λ i. f i a),
      sum_below_congr n (λ i. g i a) (g a) (λ i p. gs i a p h),
      sum_below_congr n (λ i. f i a) (f a) (λ i p. fs i a p h),
      sum_square_symmetric n f fs fd,
      sum_square_symmetric n g gs gd,
    )
