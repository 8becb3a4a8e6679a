-- ===== src/Refiner/Marks.antt =====
-- What a step of the search does to the marks: it marks one node that was not marked.
use ka_min_par.Prelude.{
  bind_some, assert-some, ℕ, zero, suc, ◌+◌, ◌-◌, ◌*◌, ◌<◌, ◌≡◌, refl, sym, ◌∙◌, ap, inl, inr, Bool,
  false, not, Option, none, some, arith, ltb, ◌==◌, if◌then◌else◌, Bool-cases, get_or,
}
use ka_min_par.Prelude.Int.{ℤ, minus, eqb_ℤ}
use ka_min_par.BinaryHeap.{BinaryHeap, pop, peek_id, peek_key}
use ka_min_par.Bipartition.Greedy.{gain_comparator}
use ka_min_par.Marker.{Marker, get, mark}
use ka_min_par.Graph.{Graph, n, edge_weight, edge_target, first_edge}
use ka_min_par.Graph.Validate.{degree_at}
use ka_min_par.Partition.{PartitionedGraph, block, set_block}
use ka_min_par.Metrics.{edge_cut_seq}
use ka_min_par.Refiner.{◌+ℤ◌, Options, Round, queue_of, with_queue, is_accepted}
use ka_min_par.Refiner.Moves.{
  update_queue, update_neighbor, update_neighbors, active_block, move_best, accept, step,
}

-- The graph and the marks of a round.
abbrev pub parts : Round → Graph × Marker
parts r = (r.p.graph, r.marker)

parts-with_queue : (r : Round) (b : ℕ) (q : BinaryHeap ℤ) → parts (with_queue r b q) ≡ parts r
parts-with_queue r b q = elim (Bool-cases (b == 0)) [
  | inl here ↦ rw here refl
  | inr there ↦ rw there refl
]

abbrev parts_of : Option Round → Graph × Marker → Graph × Marker
parts_of none otherwise = otherwise
parts_of (some t) otherwise = parts t

parts-update_neighbor :
    (to e : ℕ) (r t : Round) → update_neighbor to e r ≡ some t → parts t ≡ parts r
unfolding update_neighbor
parts-update_neighbor to e r t h =
    let v = edge_target r.p.graph e in
    elim (Bool-cases (get 1 r.marker v 0)) [
      | inl marked ↦ sym (ap (λ o. parts_of o (parts r)) (rw marked at h))
      | inr fresh ↦
          let (q, made, last) =
            bind_some
              (update_queue (queue_of r (block r.p v)) v (get_or r.weighted_degrees v 0) (
                if to == block r.p v
                then ℤ.pos (2 * edge_weight r.p.graph e)
                else minus 0 (2 * edge_weight r.p.graph e)))
              (λ q. some (with_queue r (block r.p v) q)) t (rw fresh at h) in
          sym (ap (λ o. parts_of o (parts r)) last) ∙ parts-with_queue r (block r.p v) q
    ]

parts-update_neighbors :
    (to e count : ℕ) (r t : Round) → update_neighbors to e count r ≡ some t → parts t ≡ parts r
parts-update_neighbors to e zero r t h = sym (ap (λ o. parts_of o (parts r)) h)
parts-update_neighbors to e (suc count) r t h =
    let (s, made, rest) =
      bind_some (update_neighbor to e r) (λ s. update_neighbors to (e + 1) count s) t h in
    parts-update_neighbors to (e + 1) count s t rest ∙ parts-update_neighbor to e r s made

parts-accept : (r : Round) → parts (accept r) ≡ parts r
unfolding accept
parts-accept r = elim (Bool-cases (is_accepted r)) [
  | inl yes_ ↦ rw yes_ refl
  | inr no_ ↦ rw no_ refl
]

abbrev graph_or : Graph → Option PartitionedGraph → Graph
graph_or g none = g
graph_or g (some q) = q.graph

set_block-some :
    (p q : PartitionedGraph) (u b : ℕ)
    → set_block p u b ≡ some q
    → (u < n p.graph) × (q.graph ≡ p.graph)
unfolding set_block
set_block-some p q u b h =
    let (node, rest) = assert-some (ltb u (n p.graph)) _ q h in
    let (inside, more) = assert-some (ltb b p.k) _ q rest in
    let (other, last) = assert-some (not (b == block p u)) _ q more in
    (ground (arith, node), sym (ap (graph_or p.graph) last))

abbrev moved_of : Graph × Marker → Option (ℕ × Round) → ℕ × (Graph × Marker)
moved_of otherwise none = (0, otherwise)
moved_of otherwise (some m) = (m.0, parts m.1)

-- The node moved is one of the graph, and is marked now but was not.
move_best-some :
    (o : Options) (cut from : ℕ) (r : Round) (moved : ℕ × Round)
    → move_best o cut from r ≡ some moved
    → (moved.0 < n r.p.graph)
      × (get 1 r.marker moved.0 0 ≡ false)
      × (parts moved.1 ≡ (r.p.graph, mark 1 r.marker moved.0 0))
unfolding move_best
move_best-some o cut from r moved h =
    let (u, found, h1) = bind_some (peek_id (queue_of r from)) _ moved h in
    let (delta, key_, h2) = bind_some (peek_key (queue_of r from)) _ moved h1 in
    let (fresh, h3) = assert-some (not (get 1 r.marker u 0)) _ moved h2 in
    let (here, h4) = assert-some (from == block r.p u) _ moved h3 in
    let (popped, gone, h5) = bind_some (pop (queue_of r from)) _ moved h4 in
    let (p, placed, h6) = bind_some (set_block r.p u (1 - from)) _ moved h5 in
    let (new_cut, counted, h7) = bind_some (edge_cut_seq p) _ moved h6 in
    let (right, h8) =
      assert-some (eqb_ℤ (ℤ.pos cut +ℤ (r.current_delta +ℤ delta)) (ℤ.pos new_cut)) _ moved h7 in
    let (node, same) = set_block-some r.p p u (1 - from) placed in
    let e = sym (ap (moved_of (parts r)) h8) in
    let is_u : moved.0 ≡ u = ap (λ (m : ℕ × (Graph × Marker)). m.0) e in
    (
      omega (arith, node, is_u),
      rw is_u (ground (arith, fresh)),
      ap (λ (m : ℕ × (Graph × Marker)). m.1) e
          ∙ ap (λ g. (g, mark 1 r.marker u 0)) same
          ∙ ap (λ x. (r.p.graph, mark 1 r.marker x 0)) (sym is_u),
    )

-- A step marks one node that was not marked, and keeps the graph.
pub step-some :
    (o : Options) (coin : Bool) (cut : ℕ) (r t : Round)
    → step o coin cut r ≡ some t
    → (u : ℕ) × (u < n r.p.graph)
      × (get 1 r.marker u 0 ≡ false)
      × (parts t ≡ (r.p.graph, mark 1 r.marker u 0))
unfolding step
step-some o coin cut r t h =
    let (from, selected, h1) = bind_some (active_block o r coin) _ t h in
    let (moved, made, h2) = bind_some (move_best o cut from r) _ t h1 in
    let (s, updated, h3) =
      bind_some
        (update_neighbors (1 - from) (first_edge r.p.graph moved.0) (degree_at r.p.graph moved.0)
          moved.1)
        _ t h2 in
    let (node, fresh, now) = move_best-some o cut from r moved made in
    (
      moved.0,
      node,
      fresh,
      sym (ap (λ x. parts_of x (parts r)) h3)
          ∙ parts-accept s
          ∙ parts-update_neighbors (1 - from) (first_edge r.p.graph moved.0)
              (degree_at r.p.graph moved.0) moved.1 s updated
          ∙ now,
    )
