-- ===== src/Bipartition.antt =====
-- The bipartitioners of kaminpar/initial_partitioning: Bipartitioner of i_bipartitioner.h, whose
-- partition and block weights the others share, and RandomBipartitioner of random_bipartitioner.h.
-- The limits of PartitionContext on the block weights, and the random numbers, are arguments. A
-- failed assertion is the fault `none`.
pub mod Weights
pub mod Random
pub mod Greedy
pub mod Bfs
mod Tests
use ka_min_par.Prelude.{
  ℕ, zero, suc, ◌+◌, ◌-◌, ◌%◌, Bool, true, false, not, Option, none, some, List, [], ◌∷◌, ltb, leb,
  ◌==◌, if◌then◌else◌, length, get_or, set, replicate, assert, ◌>>=◌,
}
use ka_min_par.Prelude.Histogram.{add_at}
use ka_min_par.Graph.{Graph, n, node_weight}
use ka_min_par.Partition.{invalid_block_id}

-- `_partition` and `_block_weights`
pub record Bipartition : Type 0 where
  pub partition : List ℕ
  pub block_weights : List ℕ

abbrev pub block_of : Bipartition → ℕ → ℕ
block_of s u = get_or s.partition u invalid_block_id

abbrev pub weight_of : Bipartition → ℕ → ℕ
weight_of s b = get_or s.block_weights b 0

abbrev pub other_block : ℕ → ℕ
other_block b = 1 - b

-- What bipartition_raw starts bipartition_impl with.
abbrev pub unassigned : Graph → Bipartition
unassigned g = record { partition = replicate (n g) invalid_block_id; block_weights = 0 ∷ 0 ∷ [] }

module _ (g : Graph) (perfectly_balanced_block_weight : ℕ → ℕ) where
  unfoldable pub set_block : Bipartition → ℕ → ℕ → Option Bipartition
  set_block s u b = assert (block_of s u == invalid_block_id) (
      some (record {
        partition = set s.partition u b;
        block_weights = add_at s.block_weights b (node_weight g u);
      }))

  unfoldable pub change_block : Bipartition → ℕ → ℕ → Option Bipartition
  change_block s u b =
      let added = add_at s.block_weights b (node_weight g u) in
      assert (not (block_of s u == invalid_block_id)) (
        some (record {
          partition = set s.partition u b;
          block_weights =
              set added (other_block b) (get_or added (other_block b) 0 - node_weight g u);
        }))

  -- The differences to the perfect weights are compared as signed numbers.
  unfoldable pub add_to_smaller_block : Bipartition → ℕ → Option Bipartition
  add_to_smaller_block s u = set_block s u (
      if ltb (weight_of s 0 + perfectly_balanced_block_weight 1)
        (weight_of s 1 + perfectly_balanced_block_weight 0)
      then 0
      else 1)

  -- The body of the loop of RandomBipartitioner, with the random index for the node.
  unfoldable pub random_step : ℕ → ℕ → Bipartition → Option Bipartition
  random_step choice u s =
      if ltb (weight_of s choice + node_weight g u) (perfectly_balanced_block_weight choice)
      then set_block s u choice
      else add_to_smaller_block s u

  -- bipartition_impl of RandomBipartitioner, for the first `count` nodes.
  abbrev pub random_loop : (ℕ → ℕ) → ℕ → Option Bipartition
  random_loop random zero = some (unassigned g)
  random_loop random (suc count) =
      random_loop random count >>= λ s. random_step (random count % 2) count s

  unfoldable pub random_bipartition : (ℕ → ℕ) → Option Bipartition
  random_bipartition random = random_loop random (n g)
