-- ===== src/Partition/Tests.antt =====
-- A path of three nodes in two blocks, and the theorems there.
use mathlib.Core.List.{Perm}
use mathlib.Core.List.Perm
use ka_min_par.Prelude.{
  ℕ, zero, suc, ◌≤◌, ◌<◌, ◌≡◌, ◌≢◌, ◌==◌, if◌then◌else◌, refl, some, List, [], ◌∷◌, arith, get_or,
}
use ka_min_par.Prelude.Loops.{range}
use ka_min_par.Graph.{node_weight}
use ka_min_par.Graph.Tests.{path}
use ka_min_par.Partition.{
  PartitionedGraph, block, block_weight, invalid_block_id, init_block_weights, set_block,
}
use ka_min_par.Partition.BlockWeights.{
  weight_of_block, IsPartition, HasBlockWeights, visited, init_block_weights-HasBlockWeights,
}
use ka_min_par.Partition.SetBlock.{set_block_correct}

-- Nodes 0 and 1 in block 0, node 2 in block 1.
abbrev pub halves : PartitionedGraph
halves = record {
  graph = path;
  k = 2;
  partition = 0 ∷ 0 ∷ 1 ∷ [];
  block_weights = 5 ∷ 4 ∷ [];
  final_k = 1 ∷ 1 ∷ [];
}

abbrev pub uninitialized : PartitionedGraph
uninitialized = record halves { block_weights = 0 ∷ 0 ∷ [] }

halves-assigned :
    (u : ℕ)
    → get_or halves.partition u invalid_block_id ≢ invalid_block_id
    → get_or halves.partition u invalid_block_id < 2
halves-assigned zero h = omega arith
halves-assigned (suc zero) h = omega arith
halves-assigned (suc (suc zero)) h = omega arith
halves-assigned (suc (suc (suc u))) h = absurd (h refl)

pub halves-IsPartition : IsPartition halves
halves-IsPartition = record { few = omega arith; sized = refl; assigned = halves-assigned }

uninitialized-IsPartition : IsPartition uninitialized
uninitialized-IsPartition = record { few = omega arith; sized = refl; assigned = halves-assigned }

halves-weights : (b : ℕ) → b < 2 → block_weight halves b ≡ weight_of_block halves b
halves-weights zero h = refl
halves-weights (suc zero) h = refl
halves-weights (suc (suc b)) h = absurd (omega arith)

pub halves-HasBlockWeights : HasBlockWeights halves
halves-HasBlockWeights = record { cells = refl; weights = halves-weights }

-- One thread visits node 1, another the nodes 0 and 2.
abbrev pub two_threads : List (List ℕ)
two_threads = (1 ∷ []) ∷ (2 ∷ 0 ∷ []) ∷ []

pub two_threads-cover : Perm (visited two_threads) (range 3)
two_threads-cover = Perm.swap 2 1 (0 ∷ [])

init_block_weights-HasBlockWeights_example :
    (q : PartitionedGraph) × (init_block_weights uninitialized two_threads ≡ some q)
    × HasBlockWeights q
init_block_weights-HasBlockWeights_example =
    init_block_weights-HasBlockWeights uninitialized uninitialized-IsPartition two_threads
      two_threads-cover refl

set_block_correct_example :
    (q : PartitionedGraph) × (set_block halves 1 1 ≡ some q)
    × ((x : ℕ) → block q x ≡ (if 1 == x then 1 else block halves x))
    × IsPartition q
    × HasBlockWeights q
    × ((if block halves 1 == invalid_block_id then 0 else node_weight path 1)
        ≤ block_weight halves (block halves 1))
set_block_correct_example =
    set_block_correct halves 1 1 halves-IsPartition halves-HasBlockWeights (omega arith)
      (omega arith) (λ e. absurd (omega (arith, e)))

set_block_runs :
    set_block halves 1 1
    ≡ some (record halves { partition = 0 ∷ 1 ∷ 1 ∷ []; block_weights = 2 ∷ 7 ∷ [] })
unfolding set_block
set_block_runs = refl
