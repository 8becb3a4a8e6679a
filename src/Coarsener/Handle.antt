-- ===== src/Coarsener/Handle.antt =====
-- Nodes that are handled one after the other: no fault, and the clustering stays one.
use ka_min_par.Prelude.{
  ◌^◌, ℕ, ◌+◌, ◌<◌, ◌≡◌, ◌≢◌, refl, ◌∙◌, ap, inl, inr, Bool, true, some, List, [], ◌∷◌, arith, ◌==◌,
  ==_refl, Bool-cases, length,
}
use ka_min_par.FastResetArray.{FastResetArray}
use ka_min_par.Graph.{edge_weight, m, Graph, n, node_weight, first_edge, edge_target}
use ka_min_par.Graph.Adjacency.{IsGraph}
use ka_min_par.Graph.Validate.{degree_at}
use ka_min_par.Coarsener.{Coarsener, leader_of, is_locked, handle_node, handle_nodes}
use ka_min_par.Chunks.{IsDistinct}
use ka_min_par.Coarsener.Rating.{IsClean}
use ka_min_par.FastResetArray.Laws.{is_listed}
use ka_min_par.Coarsener.Pick.{pick_cluster_correct}
use ka_min_par.Coarsener.Join.{IsClustering, joined, joined-IsClustering, leader-joined_other}

module _ (g : Graph) (coin : ℕ → ℕ → Bool) (limit : ℕ) (graph : IsGraph g) (bound : limit < 2 ^ 29)
    (light : (x : ℕ) → x < n g → node_weight g x < 2 ^ 29)
    (heavy : (e : ℕ) → e < m g → 0 < edge_weight g e) where
  -- A clustering stays one with other clean ratings.
  rated-IsClustering :
      (s : Coarsener) (r : FastResetArray ℕ)
      → IsClustering g limit s
      → IsClean (length s.rating_map.cells) r
      → IsClustering g limit (record s { rating_map = r })
  rated-IsClustering s r v clean = record {
    enough = v.enough;
    ratable = omega (arith, v.ratable, clean.sized);
    clean = record { sized = refl; unused = clean.unused; zeros = clean.zeros };
    in_range = v.in_range;
    leaders = v.leaders;
    alone = v.alone;
    locked_leads = v.locked_leads;
    weights = v.weights;
    light = v.light;
    moves = v.moves;
  }

  abbrev Handled : Coarsener → ℕ → Type 0
  Handled s u =
      (t : Coarsener) × (handle_node g coin s u limit ≡ some t)
      × IsClustering g limit t
      × ((x : ℕ) → x ≢ u → leader_of t x ≡ leader_of s x)

  -- A node of its own cluster is handled: no fault, and no other node changes its leader.
  pub handle_node_correct :
      (s : Coarsener) (u : ℕ)
      → IsClustering g limit s
      → u < n g
      → leader_of s u ≡ u
      → (t : Coarsener) × (handle_node g coin s u limit ≡ some t)
        × IsClustering g limit t
        × ((x : ℕ) → x ≢ u → leader_of t x ≡ leader_of s x)
  unfolding handle_node
  handle_node_correct s u v node lead = elim (Bool-cases (is_locked s u)) as (λ _. Handled s u) [
    | inl is_locked_ ↦ (s, rw is_locked_ refl, v, λ x h. refl)
    | inr unlocked ↦
        let near : (i : ℕ)
            → i < degree_at g u
            → (leader_of s (edge_target g (first_edge g u + i)) < length s.rating_map.cells)
              × (((leader_of s (edge_target g (first_edge g u + i)) < n g)
                    × (leader_of s (leader_of s (edge_target g (first_edge g u + i)))
                        ≡ leader_of s (edge_target g (first_edge g u + i))))
                  × (0 < edge_weight g (first_edge g u + i))) =
          λ i p.
            (let v' = edge_target g (first_edge g u + i) in
              let edge : first_edge g u + i < m g = omega (arith, p, graph.covered u node) in
              let there = graph.targets (first_edge g u + i) edge in
              let inside = v.in_range v' there in
              (omega (arith, inside, v.ratable), ((inside, v.leaders v' there), heavy _ edge))) in
        let (best, r, made, clean, which) =
          pick_cluster_correct g coin s u (node_weight g u) limit (length s.rating_map.cells)
            (λ x. (x < n g) × (leader_of s x ≡ x)) v.clean near
            (λ x p. elim (v.light x p.0 p.1) [
              | inl within ↦ omega (arith, within, bound)
              | inr alone ↦ omega (arith, alone, light x p.0)
            ]) in
        elim (Bool-cases (best == u)) as (λ _. Handled s u) [
          | inl same ↦ (
            record s { rating_map = r },
            rw (unlocked, made, same) refl,
            rated-IsClustering s r v clean,
            λ x h. refl,
          )
          | inr other ↦
              let apart : best ≢ u = ground arith in
              elim which as (λ _. Handled s u) [
                | inl e ↦ absurd (apart e)
                | inr p ↦
                    let ((inside, leads), room) = p in
                    (
                      joined g limit s u best r v clean node lead unlocked inside leads apart room
                          bound,
                      rw (unlocked, made, other) refl,
                      joined-IsClustering g limit s u best r v clean node lead unlocked inside leads
                          apart room bound,
                      λ x h.
                          leader-joined_other g limit s u best r v clean node lead unlocked inside
                            leads apart room bound x h,
                    )
              ]
        ]
  ]

  -- Distinct nodes of clusters of their own are handled one after the other without a fault.
  pub handle_nodes_correct :
      (s : Coarsener) (nodes : List ℕ)
      → IsClustering g limit s
      → IsDistinct nodes
      → ((x : ℕ) → is_listed nodes x ≡ true → (x < n g) × (leader_of s x ≡ x))
      → (t : Coarsener) × (handle_nodes g coin s nodes limit ≡ some t) × IsClustering g limit t
  handle_nodes_correct s [] v d own = (s, refl, v)
  handle_nodes_correct s (u ∷ nodes) v d own =
      let (node, lead) = own u (ground (arith, ==_refl u)) in
      let (t, made, w, kept) = handle_node_correct s u v node lead in
      let (z, rest, last) = handle_nodes_correct t nodes w d.1 (λ x l.
        (let (inside, self) = own x (ground (arith, l)) in
          (inside, kept x (λ e. ground (arith, d.0, ap (is_listed nodes) e, l)) ∙ self))) in
      (z, rw (made, rest) refl, last)
