-- ===== src/Isolated/Tests.antt =====
-- Isolated nodes of a path and of a graph with a node without edges.
use ka_min_par.Prelude.{◌<◌, ◌≤◌, ◌≡◌, ◌⊎◌, refl, some, [], ◌∷◌, arith}
use ka_min_par.Partition.{PartitionedGraph, block}
use ka_min_par.Partition.BlockWeights.{HasBlockWeights}
use ka_min_par.Partition.Tests.{halves, halves-IsPartition, two_threads, two_threads-cover}
use ka_min_par.Isolated.{find_isolated_nodes_info, revert_isolated_nodes_removal}
use ka_min_par.Isolated.Info.{find_isolated_nodes_info_correct}
use ka_min_par.Isolated.Revert.{revert_isolated_nodes_removal_correct}

-- Node 1 of three nodes has no edges, and weight 4.
find_isolated_nodes_info_correct_example :
    find_isolated_nodes_info (0 ∷ 1 ∷ 1 ∷ 2 ∷ []) (3 ∷ 4 ∷ 5 ∷ []) two_threads ≡ some (1, 4)
find_isolated_nodes_info_correct_example =
    find_isolated_nodes_info_correct (0 ∷ 1 ∷ 1 ∷ 2 ∷ []) (3 ∷ 4 ∷ 5 ∷ []) two_threads refl
      two_threads-cover

-- The last node is given a block again.
revert_isolated_nodes_removal_correct_example :
    (q : PartitionedGraph) × (revert_isolated_nodes_removal halves 1 (λ _. 5) two_threads ≡ some q)
    × HasBlockWeights q
    × (((2 < 2) × (block q 2 ≡ block halves 2)) ⊎ ((2 ≤ 2) × (block q 2 < 2)))
revert_isolated_nodes_removal_correct_example =
    revert_isolated_nodes_removal_correct halves 1 (λ _. 5) (omega arith) (omega arith)
      (omega arith) halves-IsPartition.assigned two_threads 2 two_threads-cover (omega arith)
