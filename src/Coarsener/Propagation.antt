-- ===== src/Coarsener/Propagation.antt =====
-- Label propagation as a whole: the fresh clustering, and the nodes that are visited.
use ka_min_par.Prelude.{
  get_or-set, get_or-set, get_or-set, get_or-set, get_or-set, ◌^◌, get_or-set, ℕ, zero, suc, ◌+◌,
  ◌-◌, ◌*◌, ◌/◌, ◌%◌, ◌≤◌, ◌<◌, ◌≡◌, refl, sym, ◌∙◌, ap, inl, inr, Bool, true, false, some, List,
  arith, ltb, leb, ◌==◌, ==_refl, if◌then◌else◌, Bool-cases, length, get_or, length-set, get_or-set,
  min,
}
use native.Mathlib.Nat.{div_self}
use ka_min_par.Prelude.Sums.{sum_below_congr, sum_below_pick, sum_below_zero}
use ka_min_par.FastResetArray.Laws.{is_listed}
use ka_min_par.Graph.{
  edge_weight, m, Graph, n, node_weight, is_node_weighted, bucket_size, first_node_in_bucket,
}
use ka_min_par.Graph.Adjacency.{IsGraph}
use ka_min_par.Chunks.{
  iota, chunk_offsets, chunk_nodes, IsDistinct, IsShuffle, IsPermutation, is_listed-append,
  IsDistinct-append, listed-iota, iota-IsDistinct,
}
use ka_min_par.Chunks.Visit.{visit_correct}
use ka_min_par.Coarsener.{
  Cluster, Coarsener, cluster_at, leader_of, weight_at, is_locked, chunk_size, narrow,
  reset_clusters, reset_weighted, reset_current_clustering_unweighted, reset_current_clustering,
  bucket_order, visit_order, perform_label_propagation,
}
use ka_min_par.Coarsener.Rating.{IsClean}
use ka_min_par.Coarsener.Join.{IsClustering}
use ka_min_par.Coarsener.Handle.{handle_nodes_correct}

length-reset_clusters :
    (count : ℕ) (weights : ℕ → ℕ) (c : List Cluster)
    → length (reset_clusters count weights c) ≡ length c
length-reset_clusters zero weights c = refl
length-reset_clusters (suc u) weights c =
    length-set (reset_clusters u weights c) u
      (record { locked = false; leader = u; weight = narrow (weights u) })
    ∙ length-reset_clusters u weights c

at-reset_clusters :
    (count : ℕ) (weights : ℕ → ℕ) (c : List Cluster) (x : ℕ)
    → count ≤ length c
    → x < count
    → cluster_at (reset_clusters count weights c) x
      ≡ record { locked = false; leader = x; weight = narrow (weights x) }
at-reset_clusters zero weights c x h p = absurd (omega arith)
at-reset_clusters (suc u) weights c x h p =
    get_or-set (reset_clusters u weights c) u x
      (record { locked = false; leader = u; weight = narrow (weights u) })
      (record { locked = false; weight = 0; leader = 0 })
      (omega (arith, length-reset_clusters u weights c))
    ∙ elim (Bool-cases (u == x)) [
      | inl here ↦
          let e : u ≡ x = ground arith in
          rw here (ap (λ y. record { locked = false; leader = y; weight = narrow (weights y) }) e)
      | inr there ↦ rw there (at-reset_clusters u weights c x (omega arith) (ground arith))
    ]

module _ (g : Graph) where
  -- The buckets are intervals of nodes, one after the other.
  pub record IsBucketed : Type 0 where
    pub ascending :
        (b : ℕ)
        → b < g.number_of_buckets
        → first_node_in_bucket g b ≤ first_node_in_bucket g (b + 1)
    pub covered : (b : ℕ) → b < g.number_of_buckets → first_node_in_bucket g (b + 1) ≤ n g

module _ (g : Graph) (limit : ℕ) where
  same_weight :
      (x y : ℕ) → (if y == x then node_weight g y else 0) ≡ (if y == x then node_weight g x else 0)
  same_weight x y = elim (Bool-cases (y == x)) [
    | inl here ↦ let e : y ≡ x = ground arith in rw here (ap (node_weight g) e)
    | inr there ↦ rw there refl
  ]

  -- Every node in a cluster of its own.
  fresh-IsClustering :
      (s : Coarsener) (weights : ℕ → ℕ)
      → n g ≤ length s.clustering
      → n g ≤ length s.rating_map.cells
      → IsClean (length s.rating_map.cells) s.rating_map
      → ((x : ℕ) → x < n g → node_weight g x < 2 ^ 29)
      → ((x : ℕ) → x < n g → weights x ≡ node_weight g x)
      → IsClustering g limit (record s {
        current_num_moves = 0;
        clustering = reset_clusters (n g) weights s.clustering;
      })
  fresh-IsClustering s weights enough ratable clean small same =
      let t = record s {
        current_num_moves = 0;
        clustering = reset_clusters (n g) weights s.clustering;
      } in
      let at : (x : ℕ)
          → x < n g
          → cluster_at t.clustering x
            ≡ record { locked = false; leader = x; weight = narrow (weights x) } =
        λ x p. at-reset_clusters (n g) weights s.clustering x enough p in
      let leads : (x : ℕ) → x < n g → leader_of t x ≡ x =
        λ x p. ap (λ (c : Cluster). c.leader) (at x p) in
      let unlocked : (x : ℕ) → x < n g → is_locked t x ≡ false =
        λ x p. ap (λ (c : Cluster). c.locked) (at x p) in
      let weighs : (x : ℕ) → x < n g → weight_at t x ≡ node_weight g x =
        λ x p. omega (arith, ap (λ (c : Cluster). c.weight) (at x p), same x p, small x p) in
      record {
        enough = omega (arith, enough, length-reset_clusters (n g) weights s.clustering);
        ratable = ratable;
        clean = clean;
        in_range = λ x p. omega (arith, leads x p);
        leaders = λ x p. ap (leader_of t) (leads x p);
        alone = λ x y p l q e. sym (leads y q) ∙ e;
        locked_leads = λ x p l. leads x p;
        weights = λ x p l.
            weighs x p
            ∙ sym (
                sum_below_congr (n g) (λ y. if leader_of t y == x then node_weight g y else 0)
                  (λ y. if y == x then node_weight g x else 0)
                  (λ y q.
                    ap (λ z. if z == x then node_weight g y else 0) (leads y q) ∙ same_weight x y)
                ∙ sum_below_pick (n g) x (node_weight g x) p);
        light = λ x p l. inr (weighs x p);
        moves = sym (
            sum_below_congr (n g) (λ x. if leader_of t x == x then 0 else 1) (λ _. 0)
              (λ x p. rw (leads x p, ==_refl x) refl)
            ∙ sum_below_zero (n g));
      }

  -- A graph without node weights has nodes of weight 1.
  unit_weight : 0 < n g → is_node_weighted g ≡ false → g.total_node_weight / n g ≡ 1
  unit_weight h e =
      let total : g.total_node_weight ≡ n g = ground arith in ap (λ t. t / n g) total ∙ div_self h

  -- reset_current_clustering of a graph with nodes succeeds.
  reset_current_clustering_correct :
      (s : Coarsener)
      → 0 < n g
      → (is_node_weighted g ≡ true → n g ≤ length g.node_weights)
      → n g ≤ length s.clustering
      → n g ≤ length s.rating_map.cells
      → IsClean (length s.rating_map.cells) s.rating_map
      → ((x : ℕ) → x < n g → node_weight g x < 2 ^ 29)
      → (t : Coarsener) × (reset_current_clustering g s ≡ some t)
        × IsClustering g limit t
        × ((x : ℕ) → x < n g → leader_of t x ≡ x)
  unfolding reset_current_clustering reset_weighted reset_current_clustering_unweighted
  reset_current_clustering_correct s some_nodes weighed enough ratable clean small =
      let has_room : leb (n g) (length s.clustering) ≡ true = ground arith in
      let leads : (weights : ℕ → ℕ) (x : ℕ)
          → x < n g
          → leader_of
              (record s {
                current_num_moves = 0;
                clustering = reset_clusters (n g) weights s.clustering;
              })
              x
            ≡ x =
        λ weights x p.
          ap (λ (c : Cluster). c.leader)
            (at-reset_clusters (n g) weights s.clustering x enough p) in
      elim (Bool-cases (is_node_weighted g)) [
        | inl weighted ↦
            let given : leb (n g) (length g.node_weights) ≡ true =
              ground (arith, weighed weighted) in
            (
              record s {
                current_num_moves = 0;
                clustering = reset_clusters (n g) (λ u. get_or g.node_weights u 0) s.clustering;
              },
              rw (weighted, has_room, given) refl,
              fresh-IsClustering s (λ u. get_or g.node_weights u 0) enough ratable clean small
                  (λ x p. rw weighted refl),
              leads (λ u. get_or g.node_weights u 0),
            )
        | inr unweighted ↦
            let nonempty : ltb 0 (n g) ≡ true = ground arith in
            (
              record s {
                current_num_moves = 0;
                clustering = reset_clusters (n g) (λ _. g.total_node_weight / n g) s.clustering;
              },
              rw (unweighted, nonempty, has_room) refl,
              fresh-IsClustering s (λ _. g.total_node_weight / n g) enough ratable clean small
                  (λ x p. rw unweighted (unit_weight some_nodes unweighted)),
              leads (λ _. g.total_node_weight / n g),
            )
      ]

  module _ (shuffle : List ℕ → List ℕ) (permutation : ℕ → List ℕ) (shuffled : IsShuffle shuffle)
      (permuted : (offset : ℕ) → IsPermutation chunk_size (permutation offset)) where
    -- A bucket's nodes are visited once.
    bucket_order_correct :
        (b : ℕ)
        → first_node_in_bucket g b ≤ first_node_in_bucket g (b + 1)
        → IsDistinct (bucket_order g b shuffle permutation)
          × ((x : ℕ)
              → is_listed (bucket_order g b shuffle permutation) x ≡ true
              → (first_node_in_bucket g b ≤ x) × (x < first_node_in_bucket g (b + 1)))
    bucket_order_correct b h =
        let size = bucket_size g b in
        let first_node = first_node_in_bucket g b in
        let chunks =
          chunk_nodes permutation
            (shuffle (chunk_offsets first_node chunk_size (size / chunk_size))) in
        let (d, inside) =
          visit_correct first_node chunk_size permutation permuted shuffle (size / chunk_size)
            (omega arith) shuffled in
        let start = first_node + size - size % chunk_size in
        let rest = iota start (size % chunk_size) in
        let split : size / chunk_size * chunk_size + size % chunk_size ≡ size = omega arith in
        let whole : first_node + size ≡ first_node_in_bucket g (b + 1) = omega (arith, h) in
        (
          IsDistinct-append chunks rest d (iota-IsDistinct start (size % chunk_size)) (λ x q.
              elim (Bool-cases (is_listed rest x)) [
                | inr no_ ↦ no_
                | inl found ↦ absurd (
                    omega (arith, inside x q, listed-iota start (size % chunk_size) x found, split))
              ]),
          λ x q. elim (is_listed-append chunks rest x q) [
            | inl early ↦ omega (arith, inside x early, split, whole)
            | inr late ↦ omega (arith, listed-iota start (size % chunk_size) x late, split, whole)
          ],
        )

    visit_order_correct :
        (count : ℕ)
        → IsBucketed g
        → count ≤ g.number_of_buckets
        → IsDistinct (visit_order g count shuffle permutation)
          × ((x : ℕ)
              → is_listed (visit_order g count shuffle permutation) x ≡ true
              → (x < n g) × (x < first_node_in_bucket g count))
    visit_order_correct zero v h = (tt, λ x q. absurd cc)
    visit_order_correct (suc b) v h =
        let (d, inside) = visit_order_correct b v (omega (arith, h)) in
        let up : first_node_in_bucket g b ≤ first_node_in_bucket g (b + 1) =
          v.ascending b (omega (arith, h)) in
        let end : first_node_in_bucket g (b + 1) ≤ n g = v.covered b (omega (arith, h)) in
        let next : first_node_in_bucket g (b + 1) ≡ first_node_in_bucket g (suc b) =
          ap (first_node_in_bucket g) (omega arith) in
        let (e, inside') = bucket_order_correct b up in
        let before = visit_order g b shuffle permutation in
        let now = bucket_order g b shuffle permutation in
        (
          IsDistinct-append before now d e (λ x q. elim (Bool-cases (is_listed now x)) [
            | inr no_ ↦ no_
            | inl found ↦ absurd (omega (arith, inside x q, inside' x found))
          ]),
          λ x q. elim (is_listed-append before now x q) [
            | inl early ↦ omega (arith, inside x early, up, next)
            | inr late ↦ omega (arith, inside' x late, end, next)
          ],
        )

  -- Label propagation on a graph with nodes succeeds, whatever the random bits, the shuffles and the
  -- permutations are, if no edge has weight 0 and the limit and the node weights are below 2^29, which
  -- is what the bit-field of a cluster's weight can hold: the result is a clustering with right cluster
  -- weights, which are within the limit or that of one node, and it is marked as computed.
  pub perform_label_propagation_correct :
      (coin : ℕ → ℕ → Bool) (shuffle : List ℕ → List ℕ) (permutation : ℕ → List ℕ) (max_bucket : ℕ)
      (s : Coarsener)
      → IsGraph g
      → IsBucketed g
      → IsShuffle shuffle
      → ((offset : ℕ) → IsPermutation chunk_size (permutation offset))
      → 0 < n g
      → (is_node_weighted g ≡ true → n g ≤ length g.node_weights)
      → n g ≤ length s.clustering
      → n g ≤ length s.rating_map.cells
      → IsClean (length s.rating_map.cells) s.rating_map
      → limit < 2 ^ 29
      → ((x : ℕ) → x < n g → node_weight g x < 2 ^ 29)
      → ((e : ℕ) → e < m g → 0 < edge_weight g e)
      → (t : Coarsener) × (perform_label_propagation g coin shuffle permutation max_bucket limit s
          ≡ some t)
        × IsClustering g limit t
        × (t.precomputed_clustering ≡ true)
  unfolding perform_label_propagation
  perform_label_propagation_correct coin shuffle permutation max_bucket s graph bucketed shuffled
        permuted some_nodes weighed enough ratable clean bound small heavy =
      let (fresh, made, v, own) =
        reset_current_clustering_correct s some_nodes weighed enough ratable clean small in
      let count = min max_bucket g.number_of_buckets in
      let (d, inside) =
        visit_order_correct shuffle permutation shuffled permuted count bucketed (omega arith) in
      let (t, handled, w) =
        handle_nodes_correct g coin limit graph bound small heavy fresh
          (visit_order g count shuffle permutation) v d
          (λ x l. ((inside x l).0, own x (inside x l).0)) in
      (
        record t { precomputed_clustering = true },
        rw (made, handled) refl,
        record {
          enough = w.enough;
          ratable = w.ratable;
          clean = w.clean;
          in_range = w.in_range;
          leaders = w.leaders;
          alone = w.alone;
          locked_leads = w.locked_leads;
          weights = w.weights;
          light = w.light;
          moves = w.moves;
        },
        refl,
      )
