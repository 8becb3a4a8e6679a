-- ===== src/Partition.antt =====
-- PartitionedGraph of kaminpar/datastructure/graph.h and graph.cc: a graph with a block for each
-- node and the weight of each block. A failed assertion is the fault `none`.
pub mod BlockWeights
pub mod SetBlock
pub mod Tests
use ka_min_par.Prelude.{
  drop, ℕ, zero, suc, ◌+◌, ◌-◌, ◌^◌, Bool, true, false, not, ◌&&◌, Option, none, some, List, [],
  ◌∷◌, ◌++◌, ltb, leb, ◌==◌, if◌then◌else◌, length, get_or, set, replicate, take, assert,
}
use ka_min_par.Prelude.Loops.{for_below, for_each}
use ka_min_par.Prelude.Histogram.{add_at}
use ka_min_par.Graph.{Graph, is_empty, n, node_weight}

-- kInvalidBlockID: the largest BlockID of 32 bits.
abbrev pub invalid_block_id : ℕ
invalid_block_id = 2 ^ 32 - 1

pub record PartitionedGraph : Type 0 where
  pub graph : Graph
  pub k : ℕ
  pub partition : List ℕ
  pub block_weights : List ℕ
  pub final_k : List ℕ

abbrev pub block : PartitionedGraph → ℕ → ℕ
block p u = get_or p.partition u invalid_block_id

abbrev pub block_weight : PartitionedGraph → ℕ → ℕ
block_weight p b = get_or p.block_weights b 0

-- The weights of blocks that one thread adds up over the nodes it is given.
unfoldable pub local_block_weights : PartitionedGraph → List ℕ → List ℕ
local_block_weights p nodes =
    for_each nodes
      (λ u cells.
        if not (block p u == invalid_block_id)
        then add_at cells (block p u) (node_weight p.graph u)
        else cells)
      (replicate p.k 0)

abbrev pub tabulate : ℕ → ℕ → (ℕ → ℕ) → List ℕ
tabulate zero i f = []
tabulate (suc rounds) i f = f i ∷ tabulate rounds (i + 1) f

abbrev pub sum_over_threads : PartitionedGraph → List (List ℕ) → ℕ → ℕ
sum_over_threads p [] b = 0
sum_over_threads p (nodes ∷ threads) b =
    get_or (local_block_weights p nodes) b 0 + sum_over_threads p threads b

-- The assertion of a thread on each node that it visits.
abbrev pub all_assigned : PartitionedGraph → List ℕ → Bool
all_assigned p [] = true
all_assigned p (u ∷ nodes) =
    (if not (block p u == invalid_block_id) then ltb (block p u) p.k else true)
    && all_assigned p nodes

abbrev pub all_threads_assigned : PartitionedGraph → List (List ℕ) → Bool
all_threads_assigned p [] = true
all_threads_assigned p (nodes ∷ threads) = all_assigned p nodes && all_threads_assigned p threads

-- init_block_weights, where `threads` lists the nodes that each thread visits, in its order. Each
-- block must have a cell, which is the last assertion for every block.
unfoldable pub init_block_weights : PartitionedGraph → List (List ℕ) → Option PartitionedGraph
init_block_weights p threads = assert (all_threads_assigned p threads) (
    assert (leb p.k (length p.block_weights)) (
      some (record p {
        block_weights = tabulate p.k 0 (sum_over_threads p threads) ++ drop p.k p.block_weights;
      })))

-- init_block_weights_seq
unfoldable pub init_block_weights_seq : PartitionedGraph → PartitionedGraph
init_block_weights_seq p = record p {
  block_weights =
      for_below (n p.graph)
        (λ u cells.
          if not (block p u == invalid_block_id)
          then add_at cells (block p u) (node_weight p.graph u)
          else cells)
        p.block_weights;
}

-- The sequential constructor of PartitionedGraph.
unfoldable pub construct : Graph → ℕ → List ℕ → List ℕ → Option PartitionedGraph
unfolding init_block_weights_seq
construct g k partition final_k =
    let assigned =
      if ltb 0 (n g)
      then (if is_empty partition then replicate (n g) invalid_block_id else partition)
      else partition in
    let ks = if is_empty final_k then replicate k 1 else final_k in
    assert (length assigned == n g) (
      some (
        init_block_weights_seq (record {
          graph = g;
          k = k;
          partition = assigned;
          block_weights = replicate k 0;
          final_k = ks;
        })))

-- set_block with an update of the weights.
unfoldable pub set_block : PartitionedGraph → ℕ → ℕ → Option PartitionedGraph
set_block p u new_b =
    let old = block p u in
    let w = node_weight p.graph u in
    let left =
      if not (old == invalid_block_id)
      then set p.block_weights old (get_or p.block_weights old 0 - w)
      else p.block_weights in
    assert (ltb u (n p.graph)) (
      assert (ltb new_b p.k) (
        assert (not (new_b == old)) (
          some (record p {
            block_weights = add_at left new_b w;
            partition = set p.partition u new_b;
          }))))

-- change_k
unfoldable pub change_k : PartitionedGraph → ℕ → PartitionedGraph
change_k p new_k = record p {
  block_weights = replicate new_k 0;
  final_k = take new_k p.final_k ++ replicate (new_k - length p.final_k) 0;
  k = new_k;
}
