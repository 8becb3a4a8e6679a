-- ===== src/Metrics/EdgeCut.antt =====
-- The edge cut is the weight of the edges between blocks, each counted once, for every schedule of
-- the parallel version.
use mathlib.Core.List.{Perm}
use ka_min_par.Prelude.{
  ℕ, zero, suc, ◌+◌, ◌-◌, ◌*◌, ◌/◌, ◌%◌, ◌≤◌, ◌<◌, ◌≡◌, refl, ◌∙◌, ap, not, some, List, [], ◌∷◌,
  arith, ◌==◌, if◌then◌else◌,
}
use ka_min_par.Prelude.Sums.{sum_below, sum_below_congr, sum_square_symmetric}
use ka_min_par.Prelude.Loops.{
  for_below, for_below_sum, for_each, sum_list, sum_list-append, sum_list-perm, sum_list-range,
  range,
}
use ka_min_par.Graph.{n, first_edge, first_invalid_edge, edge_target, edge_weight}
use ka_min_par.Graph.Adjacency.{IsGraph, IsSymmetric, weight_between, sum_neighbors}
use ka_min_par.Partition.{PartitionedGraph, block}
use ka_min_par.Partition.BlockWeights.{visited}
use ka_min_par.Metrics.{
  max_edge_weight, add_cut_of, halve_cut, edge_cut_seq, edge_cut_par, combine_cuts,
}

module _ (p : PartitionedGraph) where
  -- The weight between `u` and `v`, if they are in different blocks.
  abbrev pub cut_between : ℕ → ℕ → ℕ
  cut_between u v = if block p u == block p v then 0 else weight_between p.graph u v

  -- The weight of the edges between different blocks: each pair of nodes is looked at once.
  abbrev pub cut_weight : ℕ
  cut_weight = sum_below (n p.graph) (λ u. sum_below u (cut_between u))

  module _ (v : IsGraph p.graph) where
    add_cut_of-eq :
        (u cut : ℕ)
        → u < n p.graph
        → add_cut_of p u cut ≡ cut + sum_below (n p.graph) (cut_between u)
    unfolding add_cut_of
    add_cut_of-eq u cut h =
        let g = p.graph in
        let d = first_invalid_edge g u - first_edge g u in
        let across = λ (x : ℕ). not (block p u == block p x) in
        let e = λ (i : ℕ). first_edge g u + i in
        omega (
          arith,
          for_below_sum d
              (λ i. if block p u == block p (edge_target g (e i)) then 0 else edge_weight g (e i))
              cut,
          sum_below_congr d
              (λ i. if block p u == block p (edge_target g (e i)) then 0 else edge_weight g (e i))
              (λ i. if across (edge_target g (e i)) then edge_weight g (e i) else 0)
              (λ i q. ground arith),
          sum_neighbors g u across v h,
          sum_below_congr (n g) (λ x. if across x then weight_between g u x else 0) (cut_between u)
              (λ x q. ground arith),
        )

    total_cut : ℕ
    total_cut = sum_below (n p.graph) (λ u. sum_below (n p.graph) (cut_between u))

    loop-eq-total_cut :
        (k : ℕ)
        → k ≤ n p.graph
        → for_below k (add_cut_of p) 0 ≡ sum_below k (λ u. sum_below (n p.graph) (cut_between u))
    loop-eq-total_cut zero h = refl
    loop-eq-total_cut (suc k) h = omega (
      arith,
      add_cut_of-eq k (for_below k (add_cut_of p) 0) (omega arith),
      loop-eq-total_cut k (omega arith),
    )

    total_cut-eq : IsSymmetric p.graph → total_cut ≡ 2 * cut_weight
    unfolding total_cut
    total_cut-eq sym' =
        sum_square_symmetric (n p.graph) cut_between (λ i j hi hj. ground (arith, sym' i j hi hj))
          (λ i hi. ground arith)

    halve_cut-double : (c d : ℕ) → d ≡ 2 * c → c ≤ max_edge_weight → halve_cut d ≡ some c
    unfolding halve_cut
    halve_cut-double c d e h =
        let half : d / 2 ≡ c = omega arith in
        let even : d % 2 ≡ 0 = omega arith in rw (half, even) (ground arith)

    -- In a graph with every edge in both directions the sequential edge cut is the weight of the
    -- edges between different blocks, if that fits an EdgeWeight.
    pub edge_cut_seq_correct :
        IsSymmetric p.graph → cut_weight ≤ max_edge_weight → edge_cut_seq p ≡ some cut_weight
    unfolding edge_cut_seq total_cut
    edge_cut_seq_correct sym' h =
        halve_cut-double cut_weight (for_below (n p.graph) (add_cut_of p) 0)
          (loop-eq-total_cut (n p.graph) (omega arith) ∙ total_cut-eq sym') h

  -- The inner loop adds an amount that depends on the node alone.
  cut_of : ℕ → ℕ
  cut_of u = sum_below (first_invalid_edge p.graph u - first_edge p.graph u) (λ i.
      if block p u == block p (edge_target p.graph (first_edge p.graph u + i))
      then 0
      else edge_weight p.graph (first_edge p.graph u + i))

  add_cut_of-cut_of : (u cut : ℕ) → add_cut_of p u cut ≡ cut + cut_of u
  unfolding add_cut_of cut_of
  add_cut_of-cut_of u cut =
      for_below_sum (first_invalid_edge p.graph u - first_edge p.graph u)
        (λ i.
          if block p u == block p (edge_target p.graph (first_edge p.graph u + i))
          then 0
          else edge_weight p.graph (first_edge p.graph u + i))
        cut

  for_each-cut_of : (l : List ℕ) (cut : ℕ) → for_each l (add_cut_of p) cut ≡ cut + sum_list l cut_of
  for_each-cut_of [] cut = omega arith
  for_each-cut_of (u ∷ l) cut =
      omega (arith, for_each-cut_of l (add_cut_of p u cut), add_cut_of-cut_of u cut)

  for_below-cut_of : (k : ℕ) → for_below k (add_cut_of p) 0 ≡ sum_below k cut_of
  for_below-cut_of zero = refl
  for_below-cut_of (suc k) =
      omega (arith, add_cut_of-cut_of k (for_below k (add_cut_of p) 0), for_below-cut_of k)

  combine_cuts-visited :
      (threads : List (List ℕ)) → combine_cuts p threads ≡ sum_list (visited threads) cut_of
  combine_cuts-visited [] = refl
  combine_cuts-visited (l ∷ threads) = omega (
    arith,
    for_each-cut_of l 0,
    combine_cuts-visited threads,
    sum_list-append l (visited threads) cut_of,
  )

  -- Whatever nodes each thread visits, in whatever order: if they are together the nodes of the
  -- graph, each once, then the parallel edge cut is the sequential one.
  pub edge_cut_par-edge_cut_seq :
      (threads : List (List ℕ))
      → Perm (visited threads) (range (n p.graph))
      → edge_cut_par p threads ≡ edge_cut_seq p
  unfolding edge_cut_par edge_cut_seq
  edge_cut_par-edge_cut_seq threads same =
      let sums : combine_cuts p threads ≡ for_below (n p.graph) (add_cut_of p) 0 = omega (
        arith,
        combine_cuts-visited threads,
        sum_list-perm cut_of same,
        sum_list-range (n p.graph) cut_of,
        for_below-cut_of (n p.graph),
      ) in
      ap halve_cut sums
