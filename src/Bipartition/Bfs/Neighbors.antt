-- ===== src/Bipartition/Bfs/Neighbors.antt =====
-- The assignment of a node, and the visit of its neighbors.
use ka_min_par.Prelude.{
  ℕ, zero, suc, ◌+◌, ◌-◌, ◌≤◌, ◌<◌, ◌≡◌, refl, ◌∙◌, inl, inr, Bool, true, false, ◌&&◌, ◌||◌, some,
  arith, leb, ◌==◌, if◌then◌else◌, Bool-cases, length,
}
use ka_min_par.Graph.{Graph, n, m, node_weight, edge_target, first_edge}
use ka_min_par.Graph.Adjacency.{IsGraph}
use ka_min_par.Graph.Validate.{degree_at}
use ka_min_par.Partition.{invalid_block_id}
use ka_min_par.Marker.{get, mark_tracked}
use ka_min_par.Bipartition.{Bipartition, block_of, weight_of}
use ka_min_par.Bipartition.Weights.{IsBipartition, Assigns, set_block-Assigns}
use ka_min_par.Bipartition.Bfs.{
  Growth, block_queue, marks, mark_assigned, push_neighbor, push_neighbors, assign_node,
}
use ka_min_par.Bipartition.Bfs.Marks.{get-mark_tracked}
use ka_min_par.Bipartition.Bfs.Queues.{IsFrontier, IsFrontier-congr}
use ka_min_par.Bipartition.Bfs.Invariant.{
  IsMarks, mark_tracked-IsMarks, taken_nodes, IsGrowth, push_active-IsGrowth,
}

module _ (g : Graph) (v : IsGraph g) (perfect max_block_weight : ℕ → ℕ) where
  push_neighbor-IsGrowth :
      (e : ℕ) (s : Growth)
      → IsGrowth g s
      → e < m g
      → (t : Growth) × (push_neighbor g perfect max_block_weight e s ≡ some t)
        × IsGrowth g t
        × (taken_nodes t ≡ taken_nodes s)
  unfolding push_neighbor
  push_neighbor-IsGrowth e s w h =
      let u = edge_target g e in
      elim (Bool-cases (get marks s.marker u mark_assigned || get marks s.marker u s.active)) [
        | inl seen ↦ (s, rw seen refl, w, refl)
        | inr fresh ↦
            let free : get marks s.marker u s.active ≡ false = ground arith in
            let (t, pushed, x, heads, not_empty) =
              push_active-IsGrowth g s u w (v.targets e h) free in
            (t, rw fresh pushed, x, heads)
      ]

  push_neighbors-IsGrowth :
      (count e : ℕ) (s : Growth)
      → IsGrowth g s
      → e + count ≤ m g
      → (t : Growth) × (push_neighbors g perfect max_block_weight e count s ≡ some t)
        × IsGrowth g t
        × (taken_nodes t ≡ taken_nodes s)
  unfolding push_neighbors
  push_neighbors-IsGrowth zero e s w h = (s, refl, w, refl)
  push_neighbors-IsGrowth (suc count) e s w h =
      let (r, one, x, heads) = push_neighbor-IsGrowth e s w (omega arith) in
      let (t, more, y, rest) = push_neighbors-IsGrowth count (e + 1) r x (omega arith) in
      (t, rw one more, y, rest ∙ heads)

  -- The variables after a node that is not assigned has left its queue.
  pub record IsPopped (u : ℕ) (s : Growth) : Type 0 where
    pub node : u < n g
    pub unassigned : get marks s.marker u mark_assigned ≡ false
    pub base : IsBipartition g s.base
    pub taken :
        (x : ℕ) → x < n g → get marks s.marker x mark_assigned ≡ true → block_of s.base x < 2
    pub free :
        (x : ℕ)
        → x < n g
        → get marks s.marker x mark_assigned ≡ false
        → block_of s.base x ≡ invalid_block_id
    pub marked : IsMarks (n g) s.marker
    pub known : s.active < 2
    pub frontier :
        (b : ℕ) (more : ℕ → Bool)
        → b < 2
        → more u ≡ true
        → ((x : ℕ) → more x ≡ false → get marks s.marker x mark_assigned ≡ false)
        → IsFrontier (n g) (block_queue s b) (λ x. get marks s.marker x b) more

  -- The state in front of the loop over the neighbors.
  assigned-IsGrowth :
      (u active : ℕ) (s : Growth) (base : Bipartition)
      → IsPopped u s
      → active < 2
      → Assigns g s.base u active base
      → IsGrowth g (record s {
        base = base;
        marker = mark_tracked marks s.marker u mark_assigned;
        active = active;
      })
  assigned-IsGrowth u active s base p known a =
      let inside : u < length s.marker.cells = omega (arith, p.node, p.marked.cells) in
      let now : (x k : ℕ)
          → k < 3
          → get marks (mark_tracked marks s.marker u mark_assigned) x k
            ≡ ((u == x && mark_assigned == k) || get marks s.marker x k) =
        λ x k q.
          get-mark_tracked marks s.marker p.marked.valid u mark_assigned inside (omega arith) x k
            q in
      let done : (x : ℕ)
          → get marks (mark_tracked marks s.marker u mark_assigned) x mark_assigned
            ≡ (u == x || get marks s.marker x mark_assigned) =
        λ x. now x mark_assigned (omega arith) ∙ ground arith in
      record {
        base = a.valid;
        taken = λ x h e. ground (arith, a.blocks x, done x, p.taken x h);
        free = λ x h e. ground (arith, a.blocks x, done x, p.free x h);
        marked = mark_tracked-IsMarks (n g) s.marker p.marked u p.node;
        known = known;
        frontier = λ b h.
            let kept : (x : ℕ)
                → get marks (mark_tracked marks s.marker u mark_assigned) x b
                  ≡ get marks s.marker x b =
              λ x. now x b (omega arith) ∙ ground arith in
            let grows : (x : ℕ)
                → get marks (mark_tracked marks s.marker u mark_assigned) x mark_assigned ≡ false
                → get marks s.marker x mark_assigned ≡ false =
              λ x e. ground (arith, done x) in
            IsFrontier-congr (n g) (block_queue s b) _ _
              (p.frontier b
                (λ x. get marks (mark_tracked marks s.marker u mark_assigned) x mark_assigned) h
                (done u ∙ ground arith) grows)
              (λ x. get marks (mark_tracked marks s.marker u mark_assigned) x b)
              (λ x. get marks (mark_tracked marks s.marker u mark_assigned) x mark_assigned) kept
              (λ x e. e);
      }

  pub assign_node-IsGrowth :
      (u : ℕ) (s : Growth)
      → IsPopped u s
      → (t : Growth) × (assign_node g perfect max_block_weight u s ≡ some t)
        × IsGrowth g t
        × (taken_nodes t ≡ taken_nodes s)
  unfolding assign_node
  assign_node-IsGrowth u s p =
      let active =
        if leb (weight_of s.base s.active + node_weight g u) (max_block_weight s.active)
        then s.active
        else 1 - s.active in
      let known : active < 2 = ground (arith, p.known) in
      let (base, assigned, a) =
        set_block-Assigns g perfect s.base u active p.base p.node known
          (p.free u p.node p.unassigned) in
      let (t, visited, w, heads) =
        push_neighbors-IsGrowth (degree_at g u) (first_edge g u) _
          (assigned-IsGrowth u active s base p known a)
          (omega (arith, v.ascending u p.node, v.covered u p.node)) in
      (t, rw assigned visited, w, heads)
