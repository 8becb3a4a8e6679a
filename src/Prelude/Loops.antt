-- ===== src/Prelude/Loops.antt =====
-- Counted loops, and sums in the order in which a schedule of chunks visits the indices.
use Prim.Native.Nat.{ℕ, zero, suc, ◌+◌, ◌-◌, ◌<◌}
use mathlib.Core.Path.{◌≡◌, refl, ap, ◌∙◌}
use mathlib.Core.Logic.{∥∥₁_elim}
use mathlib.Core.List.{List, [], ◌∷◌, ◌++◌, Perm, Permᴰ}
use native.Mathlib.Omega.{arith}
use native.Mathlib.Nat.{ℕ_set}
use ka_min_par.Prelude.Sums.{sum_below}

-- for (i = 0; i < n; ++i) s = body(i, s);
abbrev pub for_below {ℓ} : {S : Type ℓ} → ℕ → (ℕ → S → S) → S → S
for_below zero body s = s
for_below (suc n) body s = body n (for_below n body s)

-- for (i = a; i < b; ++i) s = body(i, s);
abbrev pub for_between {ℓ} : {S : Type ℓ} → ℕ → ℕ → (ℕ → S → S) → S → S
for_between a b body s = for_below (b - a) (λ i. body (a + i)) s

-- for (i : l) s = body(i, s);
abbrev pub for_each {ℓ} : {S : Type ℓ} → List ℕ → (ℕ → S → S) → S → S
for_each [] body s = s
for_each (i ∷ l) body s = for_each l body (body i s)

pub for_below_inv {ℓ κ} :
    {S : Type ℓ} (P : ℕ → S → Type κ) (n : ℕ) (body : ℕ → S → S) (s : S)
    → ((i : ℕ) (t : S) → i < n → P i t → P (suc i) (body i t))
    → P 0 s
    → P n (for_below n body s)
for_below_inv P zero body s keep h = h
for_below_inv P (suc n) body s keep h =
    keep n (for_below n body s) (omega arith)
      (for_below_inv P n body s (λ i t p. keep i t (omega arith)) h)

-- A loop that adds up.
pub for_below_sum :
    (n : ℕ) (f : ℕ → ℕ) (acc : ℕ) → for_below n (λ i s. s + f i) acc ≡ acc + sum_below n f
for_below_sum zero f acc = omega arith
for_below_sum (suc n) f acc = omega (arith, for_below_sum n f acc)

abbrev pub sum_list : List ℕ → (ℕ → ℕ) → ℕ
sum_list [] f = 0
sum_list (i ∷ l) f = f i + sum_list l f

pub sum_list-append : (l r : List ℕ) (f : ℕ → ℕ) → sum_list (l ++ r) f ≡ sum_list l f + sum_list r f
sum_list-append [] r f = omega arith
sum_list-append (i ∷ l) r f = omega (arith, sum_list-append l r f)

sum_list-Permᴰ : {l r : List ℕ} (f : ℕ → ℕ) → Permᴰ l r → sum_list l f ≡ sum_list r f
sum_list-Permᴰ f Permᴰ.nil = refl
sum_list-Permᴰ f (Permᴰ.cons e p) = omega (arith, ap f e, sum_list-Permᴰ f p)
sum_list-Permᴰ f (Permᴰ.swap e e') = omega (arith, ap f e, ap f e')
sum_list-Permᴰ f (Permᴰ.trans p q) = sum_list-Permᴰ f p ∙ sum_list-Permᴰ f q

pub sum_list-perm : {l r : List ℕ} (f : ℕ → ℕ) → Perm l r → sum_list l f ≡ sum_list r f
sum_list-perm f p = ∥∥₁_elim p (ℕ_set _ _) (sum_list-Permᴰ f)

-- The indices below `n`.
abbrev pub range : ℕ → List ℕ
range zero = []
range (suc n) = n ∷ range n

pub sum_list-range : (n : ℕ) (f : ℕ → ℕ) → sum_list (range n) f ≡ sum_below n f
sum_list-range zero f = refl
sum_list-range (suc n) f = omega (arith, sum_list-range n f)
