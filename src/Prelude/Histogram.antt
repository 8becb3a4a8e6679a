-- ===== src/Prelude/Histogram.antt =====
-- Loops that add weights to the cells of an array.
use Prim.Native.Nat.{ℕ, zero, suc, ◌+◌, ◌<◌}
use mathlib.Core.Path.{◌≡◌, refl}
use mathlib.Core.Logic.{inl, inr}
use mathlib.Core.Bool.{Bool, true}
use mathlib.Core.List.{List, [], ◌∷◌}
use native.Mathlib.Omega.{arith}
use ka_min_par.Prelude.Tests.{◌==◌, if◌then◌else◌, Bool-cases}
use ka_min_par.Prelude.Lists.{length, get_or, set, length-set, get_or-set}
use ka_min_par.Prelude.Sums.{sum_below}
use ka_min_par.Prelude.Loops.{sum_list, for_each, for_below}

-- cells[key] += weight;
abbrev pub add_at : List ℕ → ℕ → ℕ → List ℕ
add_at cells key weight = set cells key (get_or cells key 0 + weight)

module _ (p : ℕ → Bool) (key weight : ℕ → ℕ) where
  -- for (u = 0; u < n; ++u) if (p(u)) cells[key(u)] += weight(u);
  abbrev pub scatter_add : ℕ → List ℕ → List ℕ
  scatter_add n = for_below n (λ u cells. if p u then add_at cells (key u) (weight u) else cells)

  pub length-scatter_add : (n : ℕ) (cells : List ℕ) → length (scatter_add n cells) ≡ length cells
  length-scatter_add zero cells = refl
  length-scatter_add (suc n) cells = ground (
    arith,
    length-scatter_add n cells,
    length-set (scatter_add n cells) (key n) (get_or (scatter_add n cells) (key n) 0 + weight n),
  )

  -- Each cell gets the weights of the indices that have its key.
  pub get_or-scatter_add :
      (n : ℕ) (cells : List ℕ) (c : ℕ)
      → ((u : ℕ) → u < n → p u ≡ true → key u < length cells)
      → get_or (scatter_add n cells) c 0
        ≡ get_or cells c 0
          + sum_below n (λ u. if p u then (if key u == c then weight u else 0) else 0)
  get_or-scatter_add zero cells c h = omega arith
  get_or-scatter_add (suc n) cells c h = elim (Bool-cases (p n)) [
    | inr off ↦ rw off (omega (arith, get_or-scatter_add n cells c (λ u q. h u (omega arith))))
    | inl on ↦
        let before = scatter_add n cells in
        rw on (
          ground (
            arith,
            get_or-scatter_add n cells c (λ u q. h u (omega arith)),
            get_or-set before (key n) c (get_or before (key n) 0 + weight n) 0
                (omega (arith, length-scatter_add n cells, h n (omega arith) on)),
          ))
  ]

  -- for (u : l) if (p(u)) cells[key(u)] += weight(u);
  abbrev pub gather_add : List ℕ → List ℕ → List ℕ
  gather_add l cells =
      for_each l (λ u cells'. if p u then add_at cells' (key u) (weight u) else cells') cells

  -- The same over a list of indices.
  pub get_or-gather_add :
      (l : List ℕ) (cells : List ℕ) (c : ℕ)
      → ((u : ℕ) → p u ≡ true → key u < length cells)
      → get_or (gather_add l cells) c 0
        ≡ get_or cells c 0
          + sum_list l (λ u. if p u then (if key u == c then weight u else 0) else 0)
  get_or-gather_add [] cells c h = omega arith
  get_or-gather_add (u ∷ l) cells c h = elim (Bool-cases (p u)) [
    | inr off ↦ rw off (omega (arith, get_or-gather_add l cells c h))
    | inl on ↦
        let after = add_at cells (key u) (weight u) in
        let size = length-set cells (key u) (get_or cells (key u) 0 + weight u) in
        rw on (
          ground (
            arith,
            get_or-gather_add l after c (λ x q. omega (arith, size, h x q)),
            get_or-set cells (key u) c (get_or cells (key u) 0 + weight u) 0 (h u on),
          ))
  ]
