-- ===== src/Graph/Weights.antt =====
-- A graph without stored weights has unit weights, and a graph of positive weights gives them back.
use ka_min_par.Prelude.{
  sym, ℕ, zero, suc, ◌≤◌, ◌<◌, ◌≡◌, inl, inr, Bool, not, List, [], ◌∷◌, arith, ◌==◌, if◌then◌else◌,
  Bool-cases, length, get_or,
}
use ka_min_par.Graph.{Arrays, is_empty, accumulate, node_count, construct, node_weight, edge_weight}

-- Positive weights add up to at least their number, and to their number only if all are 1.
length-le-accumulate :
    (ws : List ℕ) → ((i : ℕ) → i < length ws → 0 < get_or ws i 0) → length ws ≤ accumulate ws
length-le-accumulate [] h = omega arith
length-le-accumulate (w ∷ ws) h =
    omega (arith, h 0 (omega arith), length-le-accumulate ws (λ i p. h (suc i) (omega arith)))

all_one :
    (ws : List ℕ) (i : ℕ)
    → ((j : ℕ) → j < length ws → 0 < get_or ws j 0)
    → accumulate ws ≡ length ws
    → i < length ws
    → get_or ws i 0 ≡ 1
all_one [] i h e p = absurd (omega arith)
all_one (w ∷ ws) zero h e p =
    omega (arith, h 0 (omega arith), length-le-accumulate ws (λ i q. h (suc i) (omega arith)))
all_one (w ∷ ws) (suc i) h e p =
    let rest = length-le-accumulate ws (λ j q. h (suc j) (omega arith)) in
    all_one ws i (λ j q. h (suc j) (omega arith)) (omega (arith, h 0 (omega arith), rest))
      (omega arith)

-- The test of the total against the number is a test for stored weights, if they are positive.
weight_or_one :
    (ws : List ℕ) (count u : ℕ)
    → length ws ≡ count
    → ((j : ℕ) → j < length ws → 0 < get_or ws j 0)
    → u < count
    → (if not (count == (if is_empty ws then count else accumulate ws)) then get_or ws u 0 else 1)
      ≡ get_or ws u 0
weight_or_one [] count u e h p = absurd (omega arith)
weight_or_one (w ∷ ws) count u e h p = elim (Bool-cases (count == accumulate (w ∷ ws))) [
  | inl unit ↦ rw unit (sym (all_one (w ∷ ws) u h (ground arith) (omega arith)))
  | inr stored ↦ rw stored
]

-- node_weight of a graph with a positive weight for each node is the stored weight.
pub node_weight-construct :
    (a : Arrays) (sorted : Bool) (u : ℕ)
    → length a.node_weights ≡ node_count a.nodes
    → ((j : ℕ) → j < length a.node_weights → 0 < get_or a.node_weights j 0)
    → u < node_count a.nodes
    → node_weight (construct a sorted) u ≡ get_or a.node_weights u 0
unfolding construct
node_weight-construct a sorted u size positive p =
    weight_or_one a.node_weights (node_count a.nodes) u size positive p

-- edge_weight of a graph with a positive weight for each edge is the stored weight.
pub edge_weight-construct :
    (a : Arrays) (sorted : Bool) (e : ℕ)
    → length a.edge_weights ≡ length a.edges
    → ((j : ℕ) → j < length a.edge_weights → 0 < get_or a.edge_weights j 0)
    → e < length a.edges
    → edge_weight (construct a sorted) e ≡ get_or a.edge_weights e 0
unfolding construct
edge_weight-construct a sorted e size positive p =
    weight_or_one a.edge_weights (length a.edges) e size positive p
