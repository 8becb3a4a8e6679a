-- ===== src/Graph/Adjacency.antt =====
-- Well-formed graphs, and the weight between two nodes.
use ka_min_par.Prelude.{ℕ, ◌+◌, ◌-◌, ◌≤◌, ◌<◌, ◌≡◌, Bool, arith, ◌==◌, if◌then◌else◌}
use ka_min_par.Prelude.Sums.{sum_below, sum_below_group}
use ka_min_par.Graph.{Graph, n, m, first_edge, first_invalid_edge, edge_target, edge_weight}

module _ (g : Graph) where
  -- The offsets ascend up to the number of edges, and edges lead to nodes.
  pub record IsGraph : Type 0 where
    pub ascending : (u : ℕ) → u < n g → first_edge g u ≤ first_invalid_edge g u
    pub covered : (u : ℕ) → u < n g → first_invalid_edge g u ≤ m g
    pub targets : (e : ℕ) → e < m g → edge_target g e < n g

  -- The weight of all edges from `u` to `v`.
  abbrev pub weight_between : ℕ → ℕ → ℕ
  weight_between u v = sum_below (first_invalid_edge g u - first_edge g u) (λ i.
      if edge_target g (first_edge g u + i) == v then edge_weight g (first_edge g u + i) else 0)

  -- Edges come in both directions, with the same weight.
  abbrev pub IsSymmetric : Type 0
  IsSymmetric = (u v : ℕ) → u < n g → v < n g → weight_between u v ≡ weight_between v u

  -- The edges of `u` to targets that pass a test, by target.
  pub sum_neighbors :
      (u : ℕ) (p : ℕ → Bool)
      → IsGraph
      → u < n g
      → sum_below (first_invalid_edge g u - first_edge g u) (λ i.
        if p (edge_target g (first_edge g u + i)) then edge_weight g (first_edge g u + i) else 0)
        ≡ sum_below (n g) (λ v. if p v then weight_between u v else 0)
  sum_neighbors u p v h =
      sum_below_group (first_invalid_edge g u - first_edge g u) (n g)
        (λ i. edge_target g (first_edge g u + i)) (λ i. edge_weight g (first_edge g u + i)) p
        (λ i q. v.targets (first_edge g u + i) (omega (arith, v.covered u h)))
