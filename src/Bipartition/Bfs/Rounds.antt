-- ===== src/Bipartition/Bfs/Rounds.antt =====
-- The loop of the breadth-first bipartitioner ends with all nodes assigned.
use ka_min_par.Prelude.{
  ℕ, zero, suc, ◌+◌, ◌*◌, ◌≤◌, ◌<◌, ◌≡◌, refl, sym, inl, inr, Bool, true, false, some, arith, ltb,
  ◌==◌, Bool-cases,
}
use mathlib.Core.Path.{subst}
use ka_min_par.Graph.{Graph, n}
use ka_min_par.Graph.Adjacency.{IsGraph}
use ka_min_par.Marker.{get, first_unmarked_element}
use ka_min_par.Queue.{empty}
use ka_min_par.Bipartition.Bfs.{
  Strategy, alternating, lighter, sequential, longer_queue, shorter_queue, Growth, block_queue,
  with_block_queue, marks, mark_assigned, select, take_next, grow_step, grow_blocks,
}
use ka_min_par.Bipartition.Bfs.Queues.{IsFrontier, pop_head-IsFrontier, IsFrontier-congr, count-le}
use ka_min_par.Bipartition.Bfs.Invariant.{
  taken_nodes, taken_nodes-with_block_queue, block_queue-with_block_queue, IsGrowth,
  push_active-IsGrowth,
}
use ka_min_par.Bipartition.Bfs.Neighbors.{assign_node-IsGrowth}

select-lt :
    (g : Graph) (perfect max_block_weight : ℕ → ℕ) (strategy : Strategy) (s : Growth)
    → s.active < 2
    → select g perfect max_block_weight strategy s < 2
unfolding select
select-lt g perfect max_block_weight alternating s h = omega arith
select-lt g perfect max_block_weight lighter s h = ground arith
select-lt g perfect max_block_weight sequential s h = ground arith
select-lt g perfect max_block_weight longer_queue s h = ground arith
select-lt g perfect max_block_weight shorter_queue s h = ground arith

module _ (g : Graph) (v : IsGraph g) (perfect max_block_weight : ℕ → ℕ) (strategy : Strategy) where
  take_next-IsGrowth :
      (s : Growth)
      → IsGrowth g s
      → empty 0 (block_queue s s.active) ≡ false
      → (t : Growth) × (take_next g perfect max_block_weight strategy s ≡ some t)
        × IsGrowth g t
        × (taken_nodes t ≡ suc (taken_nodes s))
  unfolding take_next
  take_next-IsGrowth s w h =
      let a = s.active in
      let (q, u, first, popped, node, queued, head, tail, rest) =
        pop_head-IsFrontier (n g) (block_queue s a) _ _ (w.frontier a w.known) h in
      let after = with_block_queue s a q in
      let heads : taken_nodes after ≡ 1 + taken_nodes s =
        taken_nodes-with_block_queue s a q 1 (omega (arith, head)) in
      let frontier : (b : ℕ) (more : ℕ → Bool)
          → b < 2
          → more u ≡ true
          → ((x : ℕ) → more x ≡ false → get marks s.marker x mark_assigned ≡ false)
          → IsFrontier (n g) (block_queue after b) (λ x. get marks s.marker x b) more =
        λ b more p done grows.
          subst (λ r. IsFrontier (n g) r (λ x. get marks s.marker x b) more)
            (sym (block_queue-with_block_queue s a b q w.known p))
            (elim (Bool-cases (a == b)) [
              | inl here ↦
                  let same : a ≡ b = ground arith in rw (here, ← same) (rest more done grows)
              | inr other ↦ rw other (
                  IsFrontier-congr (n g) (block_queue s b) _ _ (w.frontier b p)
                    (λ x. get marks s.marker x b) more (λ x. refl) grows)
            ]) in
      elim (Bool-cases (get marks s.marker u mark_assigned)) [
        | inl assigned ↦ (
          record after { active = select g perfect max_block_weight strategy after },
          rw (first, popped, assigned) refl,
          record {
            base = w.base;
            taken = w.taken;
            free = w.free;
            marked = w.marked;
            known = select-lt g perfect max_block_weight strategy after w.known;
            frontier =
                λ b p. frontier b (λ x. get marks s.marker x mark_assigned) p assigned (λ x e. e);
          },
          omega (arith, heads),
        )
        | inr waiting ↦
            let (t, done, x, same) =
              assign_node-IsGrowth g v perfect max_block_weight u after (record {
                node = node;
                unassigned = waiting;
                base = w.base;
                taken = w.taken;
                free = w.free;
                marked = w.marked;
                known = w.known;
                frontier = frontier;
              }) in
            (
              record t { active = select g perfect max_block_weight strategy t },
              rw (first, popped, waiting, done) refl,
              record {
                base = x.base;
                taken = x.taken;
                free = x.free;
                marked = x.marked;
                known = select-lt g perfect max_block_weight strategy t x.known;
                frontier = x.frontier;
              },
              omega (arith, same, heads),
            )
      ]

  -- A round takes one node from a queue. The branch that waits for the other block is never taken:
  -- a node that is marked for a block and not assigned is in the queue of the block.
  pub grow_step-IsGrowth :
      (s : Growth)
      → IsGrowth g s
      → first_unmarked_element marks s.marker mark_assigned < n g
      → (t : Growth) × (grow_step g perfect max_block_weight strategy s ≡ some t)
        × IsGrowth g t
        × (taken_nodes t ≡ suc (taken_nodes s))
  unfolding grow_step
  grow_step-IsGrowth s w h =
      let u = first_unmarked_element marks s.marker mark_assigned in
      let free = w.marked.first.unmarked (omega (arith, w.marked.cells)) in
      elim (Bool-cases (empty 0 (block_queue s s.active))) [
        | inl none_left ↦ elim (Bool-cases (get marks s.marker u s.active)) [
          | inl queued ↦
              let (i, low, high, found) = (w.frontier s.active w.known).waiting u h queued free in
              absurd (ground arith)
          | inr fresh ↦
              let (r, pushed, x, same, not_empty) = push_active-IsGrowth g s u w h fresh in
              let (t, taken, y, one) = take_next-IsGrowth r x not_empty in
              (t, rw (none_left, fresh, pushed) taken, y, omega (arith, one, same))
        ]
        | inr some_left ↦
            let (t, taken, y, one) = take_next-IsGrowth s w some_left in
            (t, rw some_left taken, y, one)
      ]

  -- No more nodes are taken than were pushed: each node once for each block.
  taken_nodes-bound : (s : Growth) → IsGrowth g s → taken_nodes s ≤ 2 * n g
  taken_nodes-bound s w =
      let first = w.frontier 0 (omega arith) in
      let second = w.frontier 1 (omega arith) in
      omega (
        arith,
        first.ordered,
        first.counted,
        second.ordered,
        second.counted,
        count-le (n g) (λ x. get marks s.marker x 0),
        count-le (n g) (λ x. get marks s.marker x 1),
      )

  pub grow_blocks-IsGrowth :
      (fuel : ℕ) (s : Growth)
      → IsGrowth g s
      → 2 * n g < taken_nodes s + fuel
      → (t : Growth) × (grow_blocks g perfect max_block_weight fuel strategy s ≡ some t)
        × IsGrowth g t
        × (n g ≤ first_unmarked_element marks t.marker mark_assigned)
  unfolding grow_blocks
  grow_blocks-IsGrowth zero s w h = absurd (omega (arith, taken_nodes-bound s w))
  grow_blocks-IsGrowth (suc fuel) s w h =
      let u = first_unmarked_element marks s.marker mark_assigned in
      elim (Bool-cases (ltb u (n g))) [
        | inl more ↦
            let (r, one, x, taken) = grow_step-IsGrowth s w (ground arith) in
            let (t, others, y, all) = grow_blocks-IsGrowth fuel r x (omega (arith, taken)) in
            (t, rw (more, one) others, y, all)
        | inr done ↦ (s, rw done refl, w, ground arith)
      ]
