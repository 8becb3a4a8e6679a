-- ===== src/Isolated.antt =====
-- Isolated nodes (kaminpar/algorithm/graph_utils.cc): find_isolated_nodes_info counts them before
-- they are removed, revert_isolated_nodes_removal gives them blocks afterwards. The limits on block
-- weights are an argument.
pub mod Info
pub mod Revert
mod Tests
use ka_min_par.Prelude.{
  ℕ, zero, suc, ◌+◌, ◌-◌, Bool, true, false, not, ◌&&◌, ◌||◌, Option, none, some, List, [], ◌∷◌,
  ◌++◌, ltb, leb, ◌==◌, if◌then◌else◌, length, get_or, set, replicate, assert, ◌>>=◌,
}
use ka_min_par.Prelude.Loops.{for_each}
use ka_min_par.Prelude.Histogram.{add_at}
use ka_min_par.Graph.{Graph, n, node_weight, is_empty}
use ka_min_par.Partition.{PartitionedGraph, block, tabulate, init_block_weights}

-- The loop of a thread over the nodes that it visits: the number and the weight of isolated nodes.
abbrev pub isolated_of : List ℕ → List ℕ → List ℕ → ℕ × ℕ → ℕ × ℕ
isolated_of nodes node_weights [] info = info
isolated_of nodes node_weights (u ∷ visits) info = isolated_of nodes node_weights visits (
    if get_or nodes u 0 == get_or nodes (u + 1) 0
    then (info.0 + 1, info.1 + (if is_empty node_weights then 1 else get_or node_weights u 0))
    else info)

abbrev pub combine_infos : List ℕ → List ℕ → List (List ℕ) → ℕ × ℕ
combine_infos nodes node_weights [] = (0, 0)
combine_infos nodes node_weights (visits ∷ threads) =
    let mine = isolated_of nodes node_weights visits (0, 0) in
    let others = combine_infos nodes node_weights threads in (mine.0 + others.0, mine.1 + others.1)

-- find_isolated_nodes_info, where `threads` lists the nodes that each thread visits.
unfoldable pub find_isolated_nodes_info : List ℕ → List ℕ → List (List ℕ) → Option (ℕ × ℕ)
find_isolated_nodes_info nodes node_weights threads =
    assert (is_empty node_weights || (length node_weights + 1 == length nodes))
      (some (combine_infos nodes node_weights threads))

module _ (g : Graph) (k : ℕ) (max_block_weight : ℕ → ℕ) where
  -- The inner loop: the next block with room for the weight, or the last one.
  abbrev pub next_block : ℕ → List ℕ → ℕ → ℕ → ℕ
  next_block zero weights weight b = b
  next_block (suc fuel) weights weight b =
      let rest = next_block fuel weights weight (b + 1) in
      if ltb (b + 1) k && ltb (max_block_weight b) (get_or weights b 0 + weight) then rest else b

  -- The loop over `count` isolated nodes from `u` on: their blocks, in this order.
  abbrev pub isolated_blocks : ℕ → ℕ → List ℕ → ℕ → List ℕ
  isolated_blocks u zero weights b = []
  isolated_blocks u (suc count) weights b =
      let found = next_block k weights (node_weight g u) b in
      found ∷ isolated_blocks (u + 1) count (add_at weights found (node_weight g u)) found

-- revert_isolated_nodes_removal, where `threads` is the schedule of init_block_weights.
unfoldable pub revert_isolated_nodes_removal :
    PartitionedGraph → ℕ → (ℕ → ℕ) → List (List ℕ) → Option PartitionedGraph
revert_isolated_nodes_removal p num_isolated_nodes max_block_weight threads =
    let num_nonisolated_nodes = n p.graph - num_isolated_nodes in
    init_block_weights
      (record {
        graph = p.graph;
        k = p.k;
        partition =
            tabulate num_nonisolated_nodes 0 (block p)
            ++ isolated_blocks p.graph p.k max_block_weight num_nonisolated_nodes num_isolated_nodes
                p.block_weights 0;
        block_weights = replicate p.k 0;
        final_k = replicate p.k 1;
      })
      threads
