-- ===== src/Refiner/Gain.antt =====
-- The gain of a node is the change of the cut when the node moves to the other block.
use ka_min_par.Prelude.{
  ℕ, zero, suc, ◌+◌, ◌-◌, ◌≤◌, ◌<◌, ◌≡◌, ◌≢◌, refl, sym, ◌∙◌, ap, inl, inr, true, false, not, some,
  List, arith, ◌==◌, ==_refl, if◌then◌else◌, Bool-cases, length, get_or, set, ltb, length-set,
  get_or-set,
}
use ka_min_par.Prelude.Sums.{sum_below, sum_below_congr, sum_below_add, triangle_changed}
use ka_min_par.Prelude.Loops.{for_below, for_below_sum}
use ka_min_par.Prelude.Int.{ℤ}
use ka_min_par.Graph.{Graph, n, first_edge, first_invalid_edge, edge_target, edge_weight}
use ka_min_par.Graph.Adjacency.{IsGraph, IsSymmetric, weight_between, sum_neighbors}
use ka_min_par.Partition.{PartitionedGraph, block, set_block}
use ka_min_par.Partition.BlockWeights.{IsPartition, HasBlockWeights}
use ka_min_par.Partition.SetBlock.{moved, block-moved, set_block-moved}
use ka_min_par.Metrics.EdgeCut.{cut_between, cut_weight}
use ka_min_par.Refiner.{◌+ℤ◌}
use ka_min_par.Refiner.Moves.{
  weighted_degree, external_degree, init_weighted_degrees, compute_gain_from_scratch,
}

degrees_below :
    (g : Graph) (degrees : List ℕ) (count x : ℕ)
    → count ≤ length degrees
    → (length (for_below count (λ u l. set l u (weighted_degree g u)) degrees) ≡ length degrees)
      × (get_or (for_below count (λ u l. set l u (weighted_degree g u)) degrees) x 0
          ≡ (if ltb x count then weighted_degree g x else get_or degrees x 0))
degrees_below g degrees zero x h =
    let none_yet : ltb x 0 ≡ false = ground arith in (refl, rw none_yet refl)
degrees_below g degrees (suc u) x h =
    let before = for_below u (λ y l. set l y (weighted_degree g y)) degrees in
    let (sized, at) = degrees_below g degrees u x (omega arith) in
    (
      length-set before u (weighted_degree g u) ∙ sized,
      get_or-set before u x (weighted_degree g u) 0 (omega (arith, sized))
          ∙ elim (Bool-cases (u == x)) [
            | inl here ↦
                let e : u ≡ x = ground arith in
                let below : ltb x (suc u) ≡ true = ground arith in
                rw (here, below) (ap (weighted_degree g) e)
            | inr there ↦ let same : ltb x (suc u) ≡ ltb x u = ground arith in rw (there, same) at
          ],
    )

-- init_weighted_degrees finds the weighted degree of every node.
get_or-init_weighted_degrees :
    (g : Graph) (degrees : List ℕ) (u : ℕ)
    → n g ≤ length degrees
    → u < n g
    → get_or (init_weighted_degrees g degrees) u 0 ≡ weighted_degree g u
unfolding init_weighted_degrees
get_or-init_weighted_degrees g degrees u enough node =
    let at = (degrees_below g degrees (n g) u enough).1 in
    let below : ltb u (n g) ≡ true = ground arith in rw below at at

module _ (p : PartitionedGraph) (u : ℕ) (graph : IsGraph p.graph) (sym' : IsSymmetric p.graph)
    (node : u < n p.graph) where
  -- The weight of the edges of `u`, and of those to the other block.
  weighted_degree_sum :
      weighted_degree p.graph u ≡ sum_below (n p.graph) (λ x. weight_between p.graph u x)
  weighted_degree_sum =
      let d = first_invalid_edge p.graph u - first_edge p.graph u in
      omega (
        arith,
        for_below_sum d (λ i. edge_weight p.graph (first_edge p.graph u + i)) 0,
        sum_neighbors p.graph u (λ _. true) graph node,
      )

  external_degree_sum : external_degree p u ≡ sum_below (n p.graph) (cut_between p u)
  external_degree_sum =
      let g = p.graph in
      let d = first_invalid_edge g u - first_edge g u in
      let across = λ (x : ℕ). not (block p x == block p u) in
      let e = λ (i : ℕ). first_edge g u + i in
      omega (
        arith,
        for_below_sum d
            (λ i. if block p (edge_target g (e i)) == block p u then 0 else edge_weight g (e i)) 0,
        sum_below_congr d
            (λ i. if block p (edge_target g (e i)) == block p u then 0 else edge_weight g (e i))
            (λ i. if across (edge_target g (e i)) then edge_weight g (e i) else 0)
            (λ i q. ground arith),
        sum_neighbors g u across graph node,
        sum_below_congr (n g) (λ x. if across x then weight_between g u x else 0) (cut_between p u)
            (λ x q. ground arith),
      )

  module _ (v : IsPartition p) (hw : HasBlockWeights p) (two : p.k ≡ 2)
      (assigned : (x : ℕ) → x < n p.graph → block p x < 2)
      (no_loop : weight_between p.graph u u ≡ 0) where
    abbrev to : ℕ
    to = 1 - block p u

    other : to ≢ block p u
    other = omega (arith, assigned u node)

    inside : to < p.k
    inside = omega (arith, two)

    abbrev after : PartitionedGraph
    after = moved p u to v hw node inside other

    at-after : (x : ℕ) → block after x ≡ (if u == x then to else block p x)
    at-after x = block-moved p u to v hw node inside other x

    at-after_node : block after u ≡ to
    at-after_node = rw (==_refl u) at (at-after u)

    at-after_other : (x : ℕ) → x ≢ u → block after x ≡ block p x
    at-after_other x h = let no_ : (u == x) ≡ false = ground arith in rw no_ at (at-after x)

    kept : (i j : ℕ) → i ≢ u → j ≢ u → cut_between after i j ≡ cut_between p i j
    kept i j h k = rw (at-after_other i h, at-after_other j k) refl

    -- An edge of the node is cut either before or after.
    either :
        (x : ℕ)
        → x < n p.graph
        → cut_between after u x + cut_between p u x ≡ weight_between p.graph u x
    either x h = elim (Bool-cases (u == x)) [
      | inl self ↦
          let e : u ≡ x = ground arith in
          rw (← e, ==_refl (block after u), ==_refl (block p u)) (sym no_loop)
      | inr apart ↦
          let old = at-after_other x (ground arith) in
          rw (at-after_node, old) (ground (arith, assigned x h, assigned u node))
    ]

    symmetric :
        (q : PartitionedGraph)
        → q.graph ≡ p.graph
        → (i j : ℕ) → i < n p.graph
        → j < n p.graph
        → (if block q i == block q j then 0 else weight_between p.graph i j)
          ≡ (if block q j == block q i then 0 else weight_between p.graph j i)
    symmetric q same i j hi hj = ground (arith, sym' i j hi hj)

    cut_after :
        cut_weight after + external_degree p u + external_degree p u
        ≡ cut_weight p + weighted_degree p.graph u
    cut_after = omega (
      arith,
      triangle_changed (n p.graph) u (cut_between after) (cut_between p) node (symmetric after refl)
          (λ i h. rw (==_refl (block after i)) refl) (symmetric p refl)
          (λ i h. rw (==_refl (block p i)) refl) (λ i j hi hj h k. kept i j h k),
      external_degree_sum,
      weighted_degree_sum,
      sum_below_add (n p.graph) (cut_between after u) (cut_between p u),
      sum_below_congr (n p.graph) (λ x. cut_between after u x + cut_between p u x)
          (λ x. weight_between p.graph u x) either,
    )

    -- In a bipartition of a symmetric graph, moving a node without a loop to the other block changes
    -- the cut by the gain that compute_gain_from_scratch finds with the weighted degrees that
    -- init_weighted_degrees computes.
    pub compute_gain_from_scratch_correct :
        (degrees : List ℕ)
        → n p.graph ≤ length degrees
        → (q : PartitionedGraph) × (set_block p u (1 - block p u) ≡ some q)
          × (ℤ.pos (cut_weight q)
              ≡ ℤ.pos (cut_weight p)
                +ℤ compute_gain_from_scratch p (init_weighted_degrees p.graph degrees) u)
    unfolding compute_gain_from_scratch
    compute_gain_from_scratch_correct degrees enough = (
      after,
      set_block-moved p u to v hw node inside other,
      ground (arith, get_or-init_weighted_degrees p.graph degrees u enough node, cut_after),
    )
