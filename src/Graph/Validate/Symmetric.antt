-- ===== src/Graph/Validate/Symmetric.antt =====
-- A graph that passes validate_graph has each edge in both directions.
use ka_min_par.Prelude.{
  ℕ, zero, suc, ◌+◌, ◌<◌, ◌≡◌, ◌≢◌, sym, ◌∙◌, inl, inr, ◌⊎◌, Bool, true, arith, ◌==◌, if◌then◌else◌,
  Bool-cases,
}
use ka_min_par.Prelude.Sums.{sum_below_congr, sum_below_zero, sum_below_pick}
use ka_min_par.Graph.{Graph, n, first_edge, edge_target, edge_weight}
use ka_min_par.Graph.Adjacency.{weight_between}
use ka_min_par.Graph.Validate.{all_from, degree_at, find_reverse, validate_edge, validate_graph}

all_from-true :
    (count i j : ℕ) (test : ℕ → Bool)
    → all_from count i test ≡ true
    → j < count
    → test (i + j) ≡ true
all_from-true zero i j test h p = absurd (omega arith)
all_from-true (suc count) i zero test h p =
    let e : i + 0 ≡ i = omega arith in rw e (ground (arith, h))
all_from-true (suc count) i (suc j) test h p =
    let rest = all_from-true count (i + 1) j test (ground (arith, h)) (omega arith) in
    let e : i + 1 + j ≡ i + suc j = omega arith in rw (← e) rest

-- A value is met, or it is not.
search_value :
    (count v : ℕ) (f : ℕ → ℕ)
    → ((i : ℕ) × (i < count) × (f i ≡ v)) ⊎ ((i : ℕ) → i < count → f i ≢ v)
search_value zero v f = inr (λ i p e. absurd (omega (arith, p)))
search_value (suc count) v f = elim (Bool-cases (f count == v)) [
  | inl here ↦ inl (count, omega arith, ground arith)
  | inr other ↦ elim (search_value count v f) [
    | inl (i, p, e) ↦ inl (i, omega arith, e)
    | inr none_before ↦ inr (λ i p. ground (arith, none_before i))
  ]
]

module _ (g : Graph) where
  -- No two edges of a node have the same target.
  abbrev pub HasNoParallelEdges : Type 0
  HasNoParallelEdges =
      (u i j : ℕ)
      → u < n g
      → i < j
      → j < degree_at g u
      → edge_target g (first_edge g u + i) ≢ edge_target g (first_edge g u + j)

  find_reverse-true :
      (u weight count e : ℕ)
      → find_reverse g u weight count e ≡ true
      → (i : ℕ) × (i < count) × (edge_target g (e + i) ≡ u) × (edge_weight g (e + i) ≡ weight)
  unfolding find_reverse
  find_reverse-true u weight zero e h = absurd (ground (arith, h))
  find_reverse-true u weight (suc count) e h = elim (Bool-cases (u == edge_target g e)) [
    | inl here ↦
        let same : e + 0 ≡ e = omega arith in
        (0, omega arith, rw same (ground arith), rw same (ground arith))
    | inr other ↦
        let (i, p, t, w) = find_reverse-true u weight count (e + 1) (ground arith) in
        let same : e + 1 + i ≡ e + suc i = omega arith in
        (suc i, omega arith, rw (← same) t, rw (← same) w)
  ]

  -- Each edge of a valid graph has an edge back, with the same weight.
  reverse_edge :
      (u i : ℕ)
      → validate_graph g ≡ true
      → u < n g
      → i < degree_at g u
      → (edge_target g (first_edge g u + i) < n g)
        × ((j : ℕ) × (j < degree_at g (edge_target g (first_edge g u + i)))
            × (edge_target g (first_edge g (edge_target g (first_edge g u + i)) + j) ≡ u)
            × (edge_weight g (first_edge g (edge_target g (first_edge g u + i)) + j)
                ≡ edge_weight g (first_edge g u + i)))
  unfolding validate_graph validate_edge
  reverse_edge u i h p q =
      let row =
        all_from-true (n g) 0 u (λ x. all_from (degree_at g x) (first_edge g x) (validate_edge g x))
          (ground (arith, h)) p in
      let start : 0 + u ≡ u = omega arith in
      let edge =
        all_from-true (degree_at g u) (first_edge g u) i (validate_edge g u) (rw start at row) q in
      (
        ground (arith, edge),
        find_reverse-true u (edge_weight g (first_edge g u + i))
            (degree_at g (edge_target g (first_edge g u + i)))
            (first_edge g (edge_target g (first_edge g u + i))) (ground (arith, edge)),
      )

  reverse_to :
      (u v i : ℕ)
      → validate_graph g ≡ true
      → u < n g
      → i < degree_at g u
      → edge_target g (first_edge g u + i) ≡ v
      → (j : ℕ) × (j < degree_at g v)
        × (edge_target g (first_edge g v + j) ≡ u)
        × (edge_weight g (first_edge g v + j) ≡ edge_weight g (first_edge g u + i))
  reverse_to u v i h p q e = rw (← e) ((reverse_edge u i h p q).1)

  no_weight :
      (u v : ℕ)
      → ((i : ℕ) → i < degree_at g u → edge_target g (first_edge g u + i) ≢ v)
      → weight_between g u v ≡ 0
  no_weight u v h =
      sum_below_congr (degree_at g u)
        (λ i.
          if edge_target g (first_edge g u + i) == v then edge_weight g (first_edge g u + i) else 0)
        (λ _. 0) (λ i p. ground (arith, h i p))
      ∙ sum_below_zero (degree_at g u)

  -- Without parallel edges the weight between two nodes is that of their edge.
  weight_of_edge :
      (u v i : ℕ)
      → HasNoParallelEdges
      → u < n g
      → i < degree_at g u
      → edge_target g (first_edge g u + i) ≡ v
      → weight_between g u v ≡ edge_weight g (first_edge g u + i)
  weight_of_edge u v i single p q e =
      sum_below_congr (degree_at g u)
        (λ j.
          if edge_target g (first_edge g u + j) == v then edge_weight g (first_edge g u + j) else 0)
        (λ j. if j == i then edge_weight g (first_edge g u + i) else 0)
        (λ j r. elim (Bool-cases (j == i)) [
          | inl same ↦ let is : j ≡ i = ground arith in rw (same, is) (ground (arith, e))
          | inr other ↦ rw other (ground (arith, single u i j p, single u j i p, e))
        ])
      ∙ sum_below_pick (degree_at g u) i (edge_weight g (first_edge g u + i)) q

  -- In a graph without parallel edges that passes validate_graph, the edges between two nodes have
  -- the same weight in both directions.
  pub validate_graph-weight_between :
      (u v : ℕ)
      → validate_graph g ≡ true
      → HasNoParallelEdges
      → u < n g
      → v < n g
      → weight_between g u v ≡ weight_between g v u
  validate_graph-weight_between u v h single p q =
      let from = λ (x i : ℕ). edge_target g (first_edge g x + i) in
      elim (search_value (degree_at g u) v (from u)) [
        | inl (i, r, e) ↦
            let (j, s, back, w) = reverse_to u v i h p r e in
            weight_of_edge u v i single p r e ∙ (sym w ∙ sym (weight_of_edge v u j single q s back))
        | inr none_there ↦ elim (search_value (degree_at g v) u (from v)) [
          | inl (j, s, e) ↦
              let (i, r, there, _) = reverse_to v u j h q s e in absurd (none_there i r there)
          | inr none_back ↦ no_weight u v none_there ∙ sym (no_weight v u none_back)
        ]
      ]
