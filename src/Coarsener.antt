-- ===== src/Coarsener.antt =====
-- The clustering of InitialCoarsener (kaminpar/initial_partitioning/initial_coarsener.h and .cc):
-- label propagation, in which a node joins the cluster that it has most edge weight to, if the
-- cluster does not become too heavy. The random bits are an argument, by node and cluster. A failed
-- assertion, or an access out of range, is the fault `none`.
pub mod Rating
pub mod Pick
pub mod Join
pub mod Handle
pub mod Propagation
mod Tests
use ka_min_par.Prelude.{
  ◌^◌, ℕ, zero, suc, ◌+◌, ◌-◌, ◌*◌, ◌/◌, ◌%◌, ◌++◌, Bool, true, false, not, ◌&&◌, ◌||◌, Option,
  none, some, List, [], ◌∷◌, ltb, leb, ◌==◌, if◌then◌else◌, length, get_or, set, min, assert, ◌>>=◌,
}
use ka_min_par.Prelude.Loops.{for_each, for_below}
use ka_min_par.FastResetArray.{FastResetArray, set_entry}
use ka_min_par.FastResetArray
use ka_min_par.Graph.{
  Graph, n, node_weight, edge_weight, edge_target, first_edge, is_node_weighted, bucket_size,
  first_node_in_bucket,
}
use ka_min_par.Chunks.{iota, chunk_offsets, chunk_nodes}
use ka_min_par.Graph.Validate.{degree_at}

-- `weight` is a bit-field of 30 bits: the residue modulo 2^30 that stands for it in two's complement.
pub record Cluster : Type 0 where
  pub locked : Bool
  pub weight : ℕ
  pub leader : ℕ

pub record Coarsener : Type 0 where
  pub clustering : List Cluster
  pub rating_map : FastResetArray ℕ
  pub current_num_moves : ℕ
  pub precomputed_clustering : Bool
  pub interleaved_locked : Bool

-- What a bit-field of 30 bits keeps of a number.
abbrev pub narrow : ℕ → ℕ
narrow weight = weight % 2 ^ 30

-- `weight + added <= limit`, for the weight of a bit-field.
abbrev pub has_room : ℕ → ℕ → ℕ → Bool
has_room weight added limit =
    leb (weight + added) (if ltb weight (2 ^ 29) then limit else limit + 2 ^ 30)

abbrev pub is_zero : ℕ → Bool
is_zero x = x == 0

abbrev pub cluster_at : List Cluster → ℕ → Cluster
cluster_at c u = get_or c u (record { locked = false; weight = 0; leader = 0 })

abbrev pub leader_of : Coarsener → ℕ → ℕ
leader_of s u = (cluster_at s.clustering u).leader

abbrev pub weight_at : Coarsener → ℕ → ℕ
weight_at s u = (cluster_at s.clustering u).weight

abbrev pub is_locked : Coarsener → ℕ → Bool
is_locked s u = (cluster_at s.clustering u).locked

-- kChunkSize
abbrev pub chunk_size : ℕ
chunk_size = 256

abbrev pub rating : FastResetArray ℕ → ℕ → ℕ
rating r key = FastResetArray.get 0 is_zero r key

-- `_rating_map[key] += weight`
unfoldable pub add_rating : FastResetArray ℕ → ℕ → ℕ → Option (FastResetArray ℕ)
add_rating r key weight = set_entry 0 is_zero r key (rating r key + weight)

abbrev pub reset_clusters : ℕ → (ℕ → ℕ) → List Cluster → List Cluster
reset_clusters count weights clustering =
    for_below count
      (λ u c. set c u (record { locked = false; leader = u; weight = narrow (weights u) }))
      clustering

-- reset_current_clustering(n, node_weights)
unfoldable pub reset_weighted : ℕ → List ℕ → Coarsener → Option Coarsener
reset_weighted count node_weights s = assert (leb count (length s.clustering)) (
    assert (leb count (length node_weights)) (
      some (record s {
        current_num_moves = 0;
        clustering = reset_clusters count (λ u. get_or node_weights u 0) s.clustering;
      })))

unfoldable pub reset_current_clustering_unweighted : ℕ → ℕ → Coarsener → Option Coarsener
reset_current_clustering_unweighted count unit_node_weight s =
    assert (leb count (length s.clustering)) (
      some (record s {
        current_num_moves = 0;
        clustering = reset_clusters count (λ _. unit_node_weight) s.clustering;
      }))

-- What handle_node writes when `u` joins the cluster `best`.
abbrev pub join : List Cluster → ℕ → ℕ → ℕ → List Cluster
join c u best u_weight =
    let led = set c u (record (cluster_at c u) { leader = best }) in
    let locked = set led best (record (cluster_at led best) { locked = true }) in
    set locked best (record (cluster_at locked best) {
      weight = narrow ((cluster_at locked best).weight + u_weight);
    })

module _ (g : Graph) where
  -- reset_current_clustering; the division of an empty graph's weight by 0 is a fault.
  unfoldable pub reset_current_clustering : Coarsener → Option Coarsener
  reset_current_clustering s =
      if is_node_weighted g
      then reset_weighted (n g) g.node_weights s
      else assert (ltb 0 (n g))
          (reset_current_clustering_unweighted (n g) (g.total_node_weight / n g) s)

  -- The nodes of a bucket in the order of perform_label_propagation: shuffled chunks, then the rest.
  abbrev pub bucket_order : ℕ → (List ℕ → List ℕ) → (ℕ → List ℕ) → List ℕ
  bucket_order bucket shuffle permutation =
      let size = bucket_size g bucket in
      let first_node = first_node_in_bucket g bucket in
      let last_chunk_size = size % chunk_size in
      chunk_nodes permutation (shuffle (chunk_offsets first_node chunk_size (size / chunk_size)))
      ++ iota (first_node + size - last_chunk_size) last_chunk_size

  -- The nodes of the first `count` buckets.
  abbrev pub visit_order : ℕ → (List ℕ → List ℕ) → (ℕ → List ℕ) → List ℕ
  visit_order zero shuffle permutation = []
  visit_order (suc bucket) shuffle permutation =
      visit_order bucket shuffle permutation ++ bucket_order bucket shuffle permutation

module _ (g : Graph) (coin : ℕ → ℕ → Bool) where
  -- The loop of pick_cluster over `count` neighbors, from edge `e` on.
  abbrev pub rate_neighbors : Coarsener → ℕ → ℕ → FastResetArray ℕ → Option (FastResetArray ℕ)
  rate_neighbors s e zero r = some r
  rate_neighbors s e (suc count) r =
      add_rating r (leader_of s (edge_target g e)) (edge_weight g e) >>= λ rated.
      rate_neighbors s (e + 1) count rated

  -- The choice for one rated cluster.
  abbrev pub is_better : Coarsener → ℕ → ℕ → ℕ → ℕ → ℕ → ℕ → Bool
  is_better s u u_weight max_cluster_weight best_gain cluster gain =
      (ltb best_gain gain || (gain == best_gain && coin u cluster))
      && has_room (weight_at s cluster) u_weight max_cluster_weight

  -- The loop of pick_cluster_from_rating_map over the used entries: the best cluster, and the cells.
  -- For a used entry whose rating is 0 when it is visited, operator[] adds to the list that the loop
  -- runs over, which is a fault.
  abbrev pub pick_best : Coarsener → ℕ → ℕ → ℕ → List ℕ → ℕ → ℕ → List ℕ → Option (ℕ × List ℕ)
  pick_best s u u_weight max_cluster_weight [] best best_gain cells = some (best, cells)
  pick_best s u u_weight max_cluster_weight (cluster ∷ used) best best_gain cells =
      let gain = get_or cells cluster 0 in
      let better = is_better s u u_weight max_cluster_weight best_gain cluster gain in
      let rest =
        pick_best s u u_weight max_cluster_weight used (if better then cluster else best)
          (if better then gain else best_gain) (set cells cluster 0) in
      assert (not (gain == 0)) rest

  unfoldable pub pick_cluster_from_rating_map :
      Coarsener → FastResetArray ℕ → ℕ → ℕ → ℕ → Option (ℕ × FastResetArray ℕ)
  pick_cluster_from_rating_map s r u u_weight max_cluster_weight =
      pick_best s u u_weight max_cluster_weight r.used_entries u 0 r.cells >>= λ picked.
      some (picked.0, record { cells = picked.1; used_entries = [] })

  unfoldable pub pick_cluster : Coarsener → ℕ → ℕ → ℕ → Option (ℕ × FastResetArray ℕ)
  pick_cluster s u u_weight max_cluster_weight = assert (length s.rating_map.used_entries == 0) (
      rate_neighbors s (first_edge g u) (degree_at g u) s.rating_map >>= λ r.
      pick_cluster_from_rating_map s r u u_weight max_cluster_weight)

  unfoldable pub handle_node : Coarsener → ℕ → ℕ → Option Coarsener
  handle_node s u max_cluster_weight =
      let u_weight = node_weight g u in
      if is_locked s u
      then some s
      else pick_cluster s u u_weight max_cluster_weight >>= λ picked. some (
          if picked.0 == u then record s { rating_map = picked.1 } else record s {
            clustering = join s.clustering u picked.0 u_weight;
            rating_map = picked.1;
            current_num_moves = s.current_num_moves + 1;
          })

  -- A loop over nodes that are handled.
  abbrev pub handle_nodes : Coarsener → List ℕ → ℕ → Option Coarsener
  handle_nodes s [] max_cluster_weight = some s
  handle_nodes s (u ∷ nodes) max_cluster_weight =
      handle_node s u max_cluster_weight >>= λ t. handle_nodes t nodes max_cluster_weight

  -- interleaved_visit_neighbor
  unfoldable pub interleaved_visit_neighbor : Coarsener → ℕ → ℕ → Option Coarsener
  interleaved_visit_neighbor s c_v weight =
      if s.interleaved_locked
      then some s
      else add_rating s.rating_map (leader_of s c_v) weight >>= λ r.
          some (record s { rating_map = r })

  -- interleaved_handle_node
  unfoldable pub interleaved_handle_node : Coarsener → ℕ → ℕ → ℕ → Option Coarsener
  interleaved_handle_node s c_u c_u_weight interleaved_max_cluster_weight =
      (if s.interleaved_locked
        then some s
        else pick_cluster_from_rating_map s s.rating_map c_u c_u_weight
            interleaved_max_cluster_weight
          >>= λ picked. some (
              if picked.0 == c_u then record s { rating_map = picked.1 } else record s {
                clustering = join s.clustering c_u picked.0 c_u_weight;
                rating_map = picked.1;
                current_num_moves = s.current_num_moves + 1;
              }))
      >>= λ handled. some (record handled { interleaved_locked = is_locked handled (c_u + 1) })

  -- perform_label_propagation, with floor_log2 of the threshold for large degrees as `max_bucket`.
  unfoldable pub perform_label_propagation :
      (List ℕ → List ℕ) → (ℕ → List ℕ) → ℕ → ℕ → Coarsener → Option Coarsener
  perform_label_propagation shuffle permutation max_bucket max_cluster_weight s =
      reset_current_clustering g s >>= λ fresh.
      handle_nodes fresh (visit_order g (min max_bucket g.number_of_buckets) shuffle permutation)
        max_cluster_weight
      >>= λ t. some (record t { precomputed_clustering = true })
