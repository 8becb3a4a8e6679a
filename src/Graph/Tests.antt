-- ===== src/Graph/Tests.antt =====
-- A path of three nodes with weights, and the theorems there.
use ka_min_par.Prelude.{
  ℕ, zero, suc, ◌+◌, ◌^◌, ◌≤◌, ◌<◌, ◌≡◌, ◌==◌, if◌then◌else◌, refl, true, false, [], ◌∷◌, arith,
  get_or,
}
use ka_min_par.Prelude.Sums.{sum_below}
use ka_min_par.Graph.{Graph, Arrays, node_weight, degree_of, degree_bucket, construct, bucket_size}
use ka_min_par.Graph.Adjacency.{weight_between, IsGraph, IsSymmetric}
use ka_min_par.Graph.Weights.{node_weight-construct}
use ka_min_par.Graph.Validate.{validate_graph}
use ka_min_par.Graph.Validate.Symmetric.{HasNoParallelEdges, validate_graph-weight_between}
use ka_min_par.Graph.Buckets.{bucket_size_sorted}

-- 0 - 1 with weight 5 and 1 - 2 with weight 7.
abbrev pub path_arrays : Arrays
path_arrays = record {
  nodes = 0 ∷ 1 ∷ 3 ∷ 4 ∷ [];
  edges = 1 ∷ 0 ∷ 2 ∷ 1 ∷ [];
  node_weights = 2 ∷ 3 ∷ 4 ∷ [];
  edge_weights = 5 ∷ 5 ∷ 7 ∷ 7 ∷ [];
}

abbrev pub path : Graph
path = record {
  nodes = 0 ∷ 1 ∷ 3 ∷ 4 ∷ [];
  edges = 1 ∷ 0 ∷ 2 ∷ 1 ∷ [];
  node_weights = 2 ∷ 3 ∷ 4 ∷ [];
  edge_weights = 5 ∷ 5 ∷ 7 ∷ 7 ∷ [];
  total_node_weight = 9;
  total_edge_weight = 24;
  max_node_weight = 4;
  sorted = false;
  buckets = [];
  number_of_buckets = 1;
}

path-ascending : (u : ℕ) → u < 3 → get_or path.nodes u 0 ≤ get_or path.nodes (u + 1) 0
path-ascending zero h = omega arith
path-ascending (suc zero) h = omega arith
path-ascending (suc (suc zero)) h = omega arith
path-ascending (suc (suc (suc u))) h = absurd (omega arith)

path-covered : (u : ℕ) → u < 3 → get_or path.nodes (u + 1) 0 ≤ 4
path-covered zero h = omega arith
path-covered (suc zero) h = omega arith
path-covered (suc (suc zero)) h = omega arith
path-covered (suc (suc (suc u))) h = absurd (omega arith)

path-targets : (e : ℕ) → e < 4 → get_or path.edges e 0 < 3
path-targets zero h = omega arith
path-targets (suc zero) h = omega arith
path-targets (suc (suc zero)) h = omega arith
path-targets (suc (suc (suc zero))) h = omega arith
path-targets (suc (suc (suc (suc e)))) h = absurd (omega arith)

pub path-IsGraph : IsGraph path
path-IsGraph = record { ascending = path-ascending; covered = path-covered; targets = path-targets }

pub path-IsSymmetric : IsSymmetric path
path-IsSymmetric zero zero p q = refl
path-IsSymmetric zero (suc zero) p q = refl
path-IsSymmetric zero (suc (suc zero)) p q = refl
path-IsSymmetric (suc zero) zero p q = refl
path-IsSymmetric (suc zero) (suc zero) p q = refl
path-IsSymmetric (suc zero) (suc (suc zero)) p q = refl
path-IsSymmetric (suc (suc zero)) zero p q = refl
path-IsSymmetric (suc (suc zero)) (suc zero) p q = refl
path-IsSymmetric (suc (suc zero)) (suc (suc zero)) p q = refl
path-IsSymmetric (suc (suc (suc u))) v p q = absurd (omega arith)
path-IsSymmetric zero (suc (suc (suc v))) p q = absurd (omega arith)
path-IsSymmetric (suc zero) (suc (suc (suc v))) p q = absurd (omega arith)
path-IsSymmetric (suc (suc zero)) (suc (suc (suc v))) p q = absurd (omega arith)

path-node_weights_positive : (j : ℕ) → j < 3 → 0 < get_or path_arrays.node_weights j 0
path-node_weights_positive zero h = omega arith
path-node_weights_positive (suc zero) h = omega arith
path-node_weights_positive (suc (suc zero)) h = omega arith
path-node_weights_positive (suc (suc (suc j))) h = absurd (omega arith)

path-degrees_fit : (u : ℕ) → u < 3 → degree_of path_arrays.nodes u < 2 ^ 32
path-degrees_fit zero h = omega arith
path-degrees_fit (suc zero) h = omega arith
path-degrees_fit (suc (suc zero)) h = omega arith
path-degrees_fit (suc (suc (suc u))) h = absurd (omega arith)

node_weight-construct_example : node_weight (construct path_arrays false) 1 ≡ 3
node_weight-construct_example =
    node_weight-construct path_arrays false 1 refl path-node_weights_positive (omega arith)

bucket_size_sorted_example :
    bucket_size (construct path_arrays true) 2
    ≡ sum_below 3 (λ u. if degree_bucket (degree_of path_arrays.nodes u) == 2 then 1 else 0)
bucket_size_sorted_example = bucket_size_sorted path_arrays 2 (omega arith) path-degrees_fit

path-HasNoParallelEdges : HasNoParallelEdges path
path-HasNoParallelEdges zero i j p q r = absurd (omega arith)
path-HasNoParallelEdges (suc zero) zero (suc zero) p q r = λ e. absurd (omega (arith, e))
path-HasNoParallelEdges (suc zero) zero (suc (suc j)) p q r = absurd (omega arith)
path-HasNoParallelEdges (suc zero) (suc i) j p q r = absurd (omega arith)
path-HasNoParallelEdges (suc zero) i zero p q r = absurd (omega arith)
path-HasNoParallelEdges (suc (suc zero)) i j p q r = absurd (omega arith)
path-HasNoParallelEdges (suc (suc (suc u))) i j p q r = absurd (omega arith)

path-is_valid : validate_graph path ≡ true
unfolding validate_graph
path-is_valid = refl

validate_graph-weight_between_example : weight_between path 1 2 ≡ weight_between path 2 1
validate_graph-weight_between_example =
    validate_graph-weight_between path 1 2 path-is_valid path-HasNoParallelEdges (omega arith)
      (omega arith)
