-- ===== src/Graph.antt =====
-- The static graph of kaminpar/datastructure/graph.h and graph.cc: an adjacency array with node and
-- edge weights. Ids and weights are numbers without their width: weights are not negative, and the
-- totals are assumed to fit their types.
pub mod Weights
pub mod Adjacency
pub mod Buckets
pub mod Validate
pub mod Tests
use ka_min_par.Prelude.Histogram.{add_at}
use ka_min_par.Math.{floor_log2}
use ka_min_par.Prelude.{
  partial_sum, ℕ, zero, suc, ◌+◌, ◌-◌, ◌*◌, ◌/◌, ◌%◌, ◌^◌, ◌<◌, ◌≤◌, ◌≡◌, Bool, true, false, not,
  ◌&&◌, List, [], ◌∷◌, ltb, leb, ◌==◌, if◌then◌else◌, length, get_or, set, replicate, max,
}
use ka_min_par.Prelude.Loops.{for_below, for_between}
use ka_min_par.Prelude.Sums.{sum_below}

pub record Graph : Type 0 where
  pub nodes : List ℕ
  pub edges : List ℕ
  pub node_weights : List ℕ
  pub edge_weights : List ℕ
  pub total_node_weight : ℕ
  pub total_edge_weight : ℕ
  pub max_node_weight : ℕ
  pub sorted : Bool
  pub buckets : List ℕ
  pub number_of_buckets : ℕ

-- The members of a graph that the constructors compute the others from.
pub record Arrays : Type 0 where
  pub nodes : List ℕ
  pub edges : List ℕ
  pub node_weights : List ℕ
  pub edge_weights : List ℕ

abbrev pub is_empty {ℓ} : {A : Type ℓ} → List A → Bool
is_empty [] = true
is_empty (_ ∷ _) = false

-- std::accumulate(begin, end, 0)
abbrev pub accumulate : List ℕ → ℕ
accumulate [] = 0
accumulate (x ∷ xs) = x + accumulate xs

-- *std::max_element(begin, end) of a vector that is not empty
abbrev pub max_element : List ℕ → ℕ
max_element [] = 0
max_element (x ∷ xs) = max x (max_element xs)

-- n()
abbrev pub node_count : List ℕ → ℕ
node_count nodes = length nodes - 1

abbrev pub total_node_weight_of : List ℕ → List ℕ → ℕ
total_node_weight_of nodes weights =
    if is_empty weights then node_count nodes else accumulate weights

abbrev pub max_node_weight_of : List ℕ → ℕ
max_node_weight_of weights = if is_empty weights then 1 else max_element weights

abbrev pub total_edge_weight_of : List ℕ → List ℕ → ℕ
total_edge_weight_of edges weights = if is_empty weights then length edges else accumulate weights

module _ (g : Graph) where
  abbrev pub n : ℕ
  n = length g.nodes - 1

  abbrev pub m : ℕ
  m = length g.edges

  abbrev pub is_node_weighted : Bool
  is_node_weighted = not (n == g.total_node_weight)

  abbrev pub is_edge_weighted : Bool
  is_edge_weighted = not (m == g.total_edge_weight)

  abbrev pub node_weight : ℕ → ℕ
  node_weight u = if is_node_weighted then get_or g.node_weights u 0 else 1

  abbrev pub edge_weight : ℕ → ℕ
  edge_weight e = if is_edge_weighted then get_or g.edge_weights e 0 else 1

  abbrev pub edge_target : ℕ → ℕ
  edge_target e = get_or g.edges e 0

  abbrev pub first_edge : ℕ → ℕ
  first_edge u = get_or g.nodes u 0

  abbrev pub first_invalid_edge : ℕ → ℕ
  first_invalid_edge u = get_or g.nodes (u + 1) 0

  abbrev pub degree : ℕ → ℕ
  degree u = get_or g.nodes (u + 1) 0 - get_or g.nodes u 0

-- update_total_node_weight
unfoldable pub update_total_node_weight : Graph → Graph
update_total_node_weight g = record g {
  total_node_weight = total_node_weight_of g.nodes g.node_weights;
  max_node_weight = max_node_weight_of g.node_weights;
}

-- degree_bucket
unfoldable pub degree_bucket : ℕ → ℕ
degree_bucket d = if d == 0 then 0 else floor_log2 32 d + 1

-- lowest_degree_in_bucket: `(1u << bucket) >> 1u` on 32 bits. A shift by 32 or more, which the
-- language leaves undefined, gives 0 here.
unfoldable pub lowest_degree_in_bucket : ℕ → ℕ
lowest_degree_in_bucket bucket = 2 ^ bucket % 2 ^ 32 / 2

-- kNumberOfDegreeBuckets
abbrev pub number_of_degree_buckets : ℕ
number_of_degree_buckets = 33

-- degree, from the offsets
abbrev pub degree_of : List ℕ → ℕ → ℕ
degree_of nodes u = get_or nodes (u + 1) 0 - get_or nodes u 0

-- `++_buckets[degree_bucket(degree(u)) + 1]` for each node
unfoldable pub count_degrees : List ℕ → List ℕ → List ℕ
count_degrees nodes buckets =
    for_below (node_count nodes)
      (λ u counts. add_at counts (degree_bucket (degree_of nodes u) + 1) 1) buckets

-- The last index with an entry other than 0, counting from `i`; `found` where there is none.
abbrev pub last_nonzero : List ℕ → ℕ → ℕ → ℕ
last_nonzero [] i found = found
last_nonzero (x ∷ xs) i found = last_nonzero xs (i + 1) (if x == 0 then found else i)

abbrev pub no_buckets : List ℕ
no_buckets = replicate (number_of_degree_buckets + 1) 0

-- The buckets of init_degree_buckets before and after the last line, and their number. A sorted
-- graph without nodes, where the search for a bucket that is not empty runs off the array, gets 0.
unfoldable pub init_degree_buckets : Bool → List ℕ → List ℕ × ℕ
init_degree_buckets sorted nodes =
    let counts =
      if sorted then count_degrees nodes no_buckets else set no_buckets 1 (node_count nodes) in
    (partial_sum 0 counts, if sorted then last_nonzero counts 0 0 else 1)

-- Graph::Graph
unfoldable pub construct : Arrays → Bool → Graph
construct a sorted =
    let (buckets, number) = init_degree_buckets sorted a.nodes in
    record {
      nodes = a.nodes;
      edges = a.edges;
      node_weights = a.node_weights;
      edge_weights = a.edge_weights;
      total_node_weight = total_node_weight_of a.nodes a.node_weights;
      total_edge_weight = total_edge_weight_of a.edges a.edge_weights;
      max_node_weight = max_node_weight_of a.node_weights;
      sorted = sorted;
      buckets = buckets;
      number_of_buckets = number;
    }

-- bucket_size and first_node_in_bucket
abbrev pub first_node_in_bucket : Graph → ℕ → ℕ
first_node_in_bucket g b = get_or g.buckets b 0

abbrev pub bucket_size : Graph → ℕ → ℕ
bucket_size g b = get_or g.buckets (b + 1) 0 - get_or g.buckets b 0
