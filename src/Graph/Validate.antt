-- ===== src/Graph/Validate.antt =====
-- validate_graph of kaminpar/algorithm/graph_utils.cc, a failed assertion being `false`, and what a
-- graph that passes is good for.
pub mod Symmetric
use ka_min_par.Prelude.{
  ℕ, zero, suc, ◌+◌, ◌-◌, Bool, true, false, ◌&&◌, ltb, leb, ◌==◌, if◌then◌else◌,
}
use ka_min_par.Graph.{Graph, n, first_edge, first_invalid_edge, edge_target, edge_weight}

-- A test of the numbers from `i` on, `count` of them, in order.
abbrev pub all_from : ℕ → ℕ → (ℕ → Bool) → Bool
all_from zero i test = true
all_from (suc count) i test = test i && all_from count (i + 1) test

module _ (g : Graph) where
  abbrev pub degree_at : ℕ → ℕ
  degree_at u = first_invalid_edge g u - first_edge g u

  -- The loop over `count` neighbors from edge `e_prime` on, up to the first edge back to `u`.
  unfoldable pub find_reverse : ℕ → ℕ → ℕ → ℕ → Bool
  find_reverse u weight zero e_prime = false
  find_reverse u weight (suc count) e_prime =
      let rest = find_reverse u weight count (e_prime + 1) in
      ltb (edge_target g e_prime) (n g)
      && (if u == edge_target g e_prime then weight == edge_weight g e_prime else rest)

  unfoldable pub validate_edge : ℕ → ℕ → Bool
  unfolding find_reverse
  validate_edge u e =
      let v = edge_target g e in
      ltb v (n g) && find_reverse u (edge_weight g e) (degree_at v) (first_edge g v)

  unfoldable pub validate_graph : Bool
  unfolding validate_edge
  validate_graph =
      all_from (n g) 0 (λ u. leb (first_edge g u) (first_invalid_edge g u))
      && all_from (n g) 0 (λ u. all_from (degree_at u) (first_edge g u) (validate_edge u))
