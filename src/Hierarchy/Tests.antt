-- ===== src/Hierarchy/Tests.antt =====
-- A path of three nodes whose first two nodes are contracted, and the theorem there.
use ka_min_par.Prelude.{
  ℕ, zero, suc, ◌<◌, ◌≡◌, ◌≢◌, refl, false, some, List, [], ◌∷◌, arith, get_or,
}
use ka_min_par.Graph.{Graph}
use ka_min_par.Graph.Tests.{path}
use ka_min_par.Partition.{PartitionedGraph, block, invalid_block_id}
use ka_min_par.Partition.BlockWeights.{IsPartition, HasBlockWeights}
use ka_min_par.Hierarchy.{Hierarchy, coarsest_graph, take_coarse_graph, pop_and_project}
use ka_min_par.Hierarchy.Project.{pop_and_project-take_coarse_graph}

abbrev coarse : Graph
coarse = record {
  nodes = 0 ∷ 1 ∷ 2 ∷ [];
  edges = 1 ∷ 0 ∷ [];
  node_weights = 5 ∷ 4 ∷ [];
  edge_weights = 7 ∷ 7 ∷ [];
  total_node_weight = 9;
  total_edge_weight = 14;
  max_node_weight = 5;
  sorted = false;
  buckets = [];
  number_of_buckets = 1;
}

abbrev coarse_halves : PartitionedGraph
coarse_halves = record {
  graph = coarse;
  k = 2;
  partition = 0 ∷ 1 ∷ [];
  block_weights = 5 ∷ 4 ∷ [];
  final_k = 1 ∷ 1 ∷ [];
}

coarse_halves-assigned :
    (u : ℕ)
    → get_or coarse_halves.partition u invalid_block_id ≢ invalid_block_id
    → get_or coarse_halves.partition u invalid_block_id < 2
coarse_halves-assigned zero h = omega arith
coarse_halves-assigned (suc zero) h = omega arith
coarse_halves-assigned (suc (suc u)) h = absurd (h refl)

coarse_halves-IsPartition : IsPartition coarse_halves
coarse_halves-IsPartition = record {
  few = omega arith;
  sized = refl;
  assigned = coarse_halves-assigned;
}

abbrev only_finest : Hierarchy
only_finest = record { finest_graph = path; coarse_mappings = []; coarse_graphs = [] }

abbrev two_to_one : List ℕ
two_to_one = 0 ∷ 0 ∷ 1 ∷ []

pop_and_project-take_coarse_graph_example :
    (taken : Hierarchy) × (q : PartitionedGraph) × (take_coarse_graph only_finest coarse two_to_one
      ≡ some taken)
    × (pop_and_project taken coarse_halves ≡ some (only_finest, q))
    × (q.graph ≡ coarsest_graph only_finest)
    × (block q 2 ≡ block coarse_halves (get_or two_to_one 2 0))
    × HasBlockWeights q
pop_and_project-take_coarse_graph_example =
    pop_and_project-take_coarse_graph only_finest coarse_halves two_to_one coarse_halves-IsPartition
      refl 2 (omega arith)
