-- ===== src/Metrics.antt =====
-- kaminpar/utility/metrics.cc over PartitionedGraph: the edge cut, and the balance against the
-- largest weight allowed for each block. Sums are taken to fit 64 bits; what does not fit an
-- EdgeWeight of 32 bits is refused, `none`. The measures of double precision are left out.
pub mod EdgeCut
pub mod Balance
mod Tests
use ka_min_par.Prelude.{
  ℕ, zero, suc, ◌+◌, ◌-◌, ◌/◌, ◌%◌, ◌^◌, Bool, true, false, ◌&&◌, Option, none, some, List, [], ◌∷◌,
  leb, ◌==◌, if◌then◌else◌, get_or, assert,
}
use ka_min_par.Prelude.Loops.{for_below, for_between, for_each}
use ka_min_par.Graph.{Graph, n, edge_target, edge_weight, first_edge, first_invalid_edge}
use ka_min_par.Partition.{PartitionedGraph, block, block_weight}

-- std::numeric_limits<EdgeWeight>::max()
abbrev pub max_edge_weight : ℕ
max_edge_weight = 2 ^ 31 - 1

-- The inner loop over the neighbors of `u`.
unfoldable pub add_cut_of : PartitionedGraph → ℕ → ℕ → ℕ
add_cut_of p u cut =
    for_between (first_edge p.graph u) (first_invalid_edge p.graph u)
      (λ e acc.
        acc + (if block p u == block p (edge_target p.graph e) then 0 else edge_weight p.graph e))
      cut

-- What follows the loops: each edge was counted from both ends.
unfoldable pub halve_cut : ℕ → Option ℕ
halve_cut cut = assert (cut % 2 == 0) (assert (leb (cut / 2) max_edge_weight) (some (cut / 2)))

-- edge_cut(p_graph, tag::Sequential)
unfoldable pub edge_cut_seq : PartitionedGraph → Option ℕ
edge_cut_seq p = halve_cut (for_below (n p.graph) (add_cut_of p) 0)

abbrev pub combine_cuts : PartitionedGraph → List (List ℕ) → ℕ
combine_cuts p [] = 0
combine_cuts p (nodes ∷ threads) = for_each nodes (add_cut_of p) 0 + combine_cuts p threads

-- edge_cut(p_graph, tag::Parallel), where `threads` lists the nodes that each thread visits.
unfoldable pub edge_cut_par : PartitionedGraph → List (List ℕ) → Option ℕ
edge_cut_par p threads = halve_cut (combine_cuts p threads)

-- total_overload
unfoldable pub total_overload : PartitionedGraph → (ℕ → ℕ) → ℕ
total_overload p max_block_weight =
    for_below p.k (λ b total. total + (block_weight p b - max_block_weight b)) 0

-- std::ranges::all_of over the first `k` blocks
abbrev pub all_of_blocks : ℕ → (ℕ → Bool) → Bool
all_of_blocks zero test = true
all_of_blocks (suc k) test = all_of_blocks k test && test k

-- is_balanced
unfoldable pub is_balanced : PartitionedGraph → (ℕ → ℕ) → Bool
is_balanced p max_block_weight =
    all_of_blocks p.k (λ b. leb (block_weight p b) (max_block_weight b))
