-- ===== src/Metrics/Balance.antt =====
-- Balance and overload say the same.
use ka_min_par.Prelude.{ℕ, zero, suc, ◌-◌, ◌≡◌, ◌↔◌, refl, true, arith, leb}
use ka_min_par.Prelude.Loops.{for_below_sum}
use ka_min_par.Prelude.Sums.{sum_below}
use ka_min_par.Partition.{PartitionedGraph, block_weight}
use ka_min_par.Metrics.{total_overload, all_of_blocks, is_balanced}

no_overload :
    (k : ℕ) (w limit : ℕ → ℕ)
    → (all_of_blocks k (λ b. leb (w b) (limit b)) ≡ true) ↔ (sum_below k (λ b. w b - limit b) ≡ 0)
no_overload zero w limit = (λ _. refl, λ _. refl)
no_overload (suc k) w limit = ground (arith, no_overload k w limit)

-- A partition is balanced exactly when its total overload is 0.
pub is_balanced-total_overload :
    (p : PartitionedGraph) (limit : ℕ → ℕ)
    → (is_balanced p limit ≡ true) ↔ (total_overload p limit ≡ 0)
unfolding is_balanced total_overload
is_balanced-total_overload p limit =
    rw (for_below_sum p.k (λ b. block_weight p b - limit b) 0)
      (ground (arith, no_overload p.k (block_weight p) limit))
