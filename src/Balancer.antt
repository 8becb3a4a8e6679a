-- ===== src/Balancer.antt =====
-- The moves of ParallelBalancer (kaminpar/refinement/parallel_balancer.cc): move_node_if_possible
-- and its callers that look for a feasible target block. The weight allowed for a block and its
-- perfectly balanced weight (PartitionContext), and the random index, are arguments. The priority
-- queues and the relative gains, which are of double precision, are left out.
pub mod Steps
pub mod Accounts
pub mod Interleaving
pub mod Sequential
pub mod Random
mod Tests
use ka_min_par.Prelude.{
  ℕ, zero, suc, ◌+◌, ◌-◌, ◌≤◌, ◌<◌, ◌≡◌, ◌≢◌, Bool, true, false, not, Option, none, some, List, [],
  ◌∷◌, ◌++◌, ltb, leb, ◌==◌, if◌then◌else◌, length, get_or, set, take, assert, ◌>>=◌,
}
use ka_min_par.Graph.{n, node_weight}
use ka_min_par.Partition.{PartitionedGraph, block, block_weight}

-- set_block<false>: the block weights are not changed.
unfoldable pub set_block_only : PartitionedGraph → ℕ → ℕ → Option PartitionedGraph
set_block_only p u new_b = assert (ltb u (n p.graph)) (
    assert (ltb new_b p.k)
      (assert (not (new_b == block p u)) (some (record p { partition = set p.partition u new_b }))))

-- `_block_weights[to]` is raised, by the exchange that succeeds.
abbrev pub with_weight_added : PartitionedGraph → ℕ → ℕ → PartitionedGraph
with_weight_added p u to = record p {
  block_weights = set p.block_weights to (block_weight p to + node_weight p.graph u);
}

-- `_block_weights[from] -= u_weight`
abbrev pub with_weight_removed : PartitionedGraph → ℕ → ℕ → PartitionedGraph
with_weight_removed p u from = record p {
  block_weights = set p.block_weights from (block_weight p from - node_weight p.graph u);
}

-- std::swap(blocks[i], blocks.back()); blocks.pop_back();
abbrev pub swap_remove : List ℕ → ℕ → List ℕ
swap_remove blocks i = take (length blocks - 1) (set blocks i (get_or blocks (length blocks - 1) 0))

-- init_feasible_target_blocks: the loop over the first `count` blocks.
abbrev pub feasible_blocks : PartitionedGraph → (ℕ → ℕ) → ℕ → List ℕ
feasible_blocks p perfectly_balanced_block_weight zero = []
feasible_blocks p perfectly_balanced_block_weight (suc b) =
    feasible_blocks p perfectly_balanced_block_weight b
    ++ (if ltb (block_weight p b) (perfectly_balanced_block_weight b) then b ∷ [] else [])

unfoldable pub init_feasible_target_blocks : PartitionedGraph → (ℕ → ℕ) → List ℕ
init_feasible_target_blocks p perfectly_balanced_block_weight =
    feasible_blocks p perfectly_balanced_block_weight p.k

module _ (max_block_weight : ℕ → ℕ) where
  -- move_node_if_possible of a thread that runs alone, whose exchange does not fail.
  unfoldable pub move_node_if_possible :
      PartitionedGraph → ℕ → ℕ → ℕ → Option (Bool × PartitionedGraph)
  move_node_if_possible p u from to =
      if leb (block_weight p to + node_weight p.graph u) (max_block_weight to)
      then set_block_only (with_weight_removed (with_weight_added p u to) u from) u to
        >>= (λ q. some (true, q))
      else some (false, p)

  -- move_to_random_block, with at most `fuel` blocks tried: what is returned, the graph, and the
  -- feasible blocks that are left. `random` is the index drawn when that many blocks are left.
  unfoldable pub move_to_random_block :
      ℕ → (ℕ → ℕ) → PartitionedGraph → ℕ → List ℕ → Option (Bool × PartitionedGraph × List ℕ)
  move_to_random_block zero random p u [] = some (false, p, [])
  move_to_random_block zero random p u (b ∷ blocks) = none
  move_to_random_block (suc fuel) random p u [] = some (false, p, [])
  move_to_random_block (suc fuel) random p u (b ∷ blocks) =
      let feasible = b ∷ blocks in
      let i = random (length feasible) in
      let rest = move_to_random_block fuel random p u (swap_remove feasible i) in
      move_node_if_possible p u (block p u) (get_or feasible i 0) >>= λ tried.
      if tried.0 then some (true, tried.1, feasible) else rest
