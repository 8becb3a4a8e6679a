-- ===== src/Bipartition/Bfs.antt =====
-- BfsBipartitioner of kaminpar/initial_partitioning/bfs_bipartitioner.h: two blocks grow from two
-- start nodes, each along its queue, and a strategy selects the block that takes the next node.
pub mod Marks
pub mod Queues
pub mod Invariant
pub mod Neighbors
pub mod Rounds
pub mod Start
mod Tests
use ka_min_par.Prelude.{
  ℕ, zero, suc, ◌+◌, ◌-◌, ◌*◌, Bool, true, false, not, ◌||◌, Option, none, some, List, ltb, leb,
  ◌==◌, if◌then◌else◌, length, assert, ◌>>=◌,
}
use ka_min_par.Graph.{Graph, n, node_weight, edge_target, first_edge}
use ka_min_par.Graph.Validate.{degree_at}
use ka_min_par.Marker.{Marker, get, mark, mark_tracked, first_unmarked_element, reset}
use ka_min_par.Queue.{Queue, empty, size, front, pop_head, push_tail, clear}
use ka_min_par.Bipartition.{Bipartition, block_of, weight_of, other_block, unassigned, set_block}

-- The template's block_selection_strategy.
pub data Strategy : Type 0 where
  alternating : Strategy
  lighter : Strategy
  sequential : Strategy
  longer_queue : Strategy
  shorter_queue : Strategy

-- kMarkAssigned, and the number of marks of an element
abbrev pub mark_assigned : ℕ
mark_assigned = 2

abbrev pub marks : ℕ
marks = 3

-- The members of the base class, of the memory context, and the active block.
pub record Growth : Type 0 where
  pub base : Bipartition
  pub first_queue : Queue ℕ
  pub second_queue : Queue ℕ
  pub marker : Marker
  pub active : ℕ

-- `_queues[b]`
abbrev pub block_queue : Growth → ℕ → Queue ℕ
block_queue s b = if b == 0 then s.first_queue else s.second_queue

abbrev pub with_block_queue : Growth → ℕ → Queue ℕ → Growth
with_block_queue s b q = record s {
  first_queue = if b == 0 then q else s.first_queue;
  second_queue = if b == 0 then s.second_queue else q;
}

-- A node is pushed to the queue of the active block and marked for it.
unfoldable pub push_active : ℕ → Growth → Option Growth
push_active v s = push_tail 0 (block_queue s s.active) v >>= λ q.
    some (record (with_block_queue s s.active q) { marker = mark marks s.marker v s.active })

module _ (g : Graph) (perfect max_block_weight : ℕ → ℕ) where
  -- operator() of the strategies
  unfoldable pub select : Strategy → Growth → ℕ
  select alternating s = 1 - s.active
  select lighter s = if ltb (weight_of s.base 0) (weight_of s.base 1) then 0 else 1
  select sequential s = if ltb (weight_of s.base 0) (perfect 0) then 0 else 1
  select longer_queue s = if ltb (size 0 s.first_queue) (size 0 s.second_queue) then 1 else 0
  select shorter_queue s = if ltb (size 0 s.first_queue) (size 0 s.second_queue) then 0 else 1

  -- The body of the loop over the neighbors, for the edge `e`.
  unfoldable pub push_neighbor : ℕ → Growth → Option Growth
  push_neighbor e s =
      let v = edge_target g e in
      if get marks s.marker v mark_assigned || get marks s.marker v s.active
      then some s
      else push_active v s

  unfoldable pub push_neighbors : ℕ → ℕ → Growth → Option Growth
  push_neighbors e zero s = some s
  push_neighbors e (suc count) s = push_neighbor e s >>= λ t. push_neighbors (e + 1) count t

  -- `u` goes to the active block, or to the other one if it does not fit.
  unfoldable pub assign_node : ℕ → Growth → Option Growth
  assign_node u s =
      let assignment_allowed =
        leb (weight_of s.base s.active + node_weight g u) (max_block_weight s.active) in
      let active = if assignment_allowed then s.active else 1 - s.active in
      set_block g perfect s.base u active >>= λ base.
      push_neighbors (first_edge g u) (degree_at g u) (record s {
        base = base;
        marker = mark_tracked marks s.marker u mark_assigned;
        active = active;
      })

  -- The next node of the active queue, which may have been assigned since it was pushed.
  unfoldable pub take_next : Strategy → Growth → Option Growth
  take_next strategy s = front 0 (block_queue s s.active) >>= λ u.
      pop_head 0 (block_queue s s.active) >>= λ q.
      let popped = with_block_queue s s.active q in
      (if get marks s.marker u mark_assigned then some popped else assign_node u popped) >>= λ t.
      some (record t { active = select strategy t })

  -- The body of the loop. An empty queue gets the first node that is not assigned; if that node waits
  -- for the active block already, the loop goes on with the other one.
  unfoldable pub grow_step : Strategy → Growth → Option Growth
  grow_step strategy s =
      let u = first_unmarked_element marks s.marker mark_assigned in
      if empty 0 (block_queue s s.active)
      then if get marks s.marker u s.active
        then some (record s { active = 1 - s.active })
        else push_active u s >>= take_next strategy
      else take_next strategy s

  -- The loop, with at most `fuel` tests.
  unfoldable pub grow_blocks : ℕ → Strategy → Growth → Option Growth
  grow_blocks zero strategy s = none
  grow_blocks (suc fuel) strategy s =
      let more = grow_step strategy s >>= grow_blocks fuel strategy in
      if ltb (first_unmarked_element marks s.marker mark_assigned) (n g) then more else some s

  -- bipartition_impl from two start nodes, with the queues and the marker of the memory context. Each
  -- round takes one node from a queue, and each node is in each queue at most once.
  unfoldable pub bfs_bipartition : Strategy → ℕ → ℕ → Queue ℕ → Queue ℕ → Marker → Option Growth
  bfs_bipartition strategy start_a start_b first_queue second_queue marker =
      push_tail 0 first_queue start_a >>= λ qa. push_tail 0 second_queue start_b >>= λ qb.
      grow_blocks (2 * n g + 1) strategy (record {
        base = unassigned g;
        first_queue = qa;
        second_queue = qb;
        marker = mark_tracked marks (mark_tracked marks marker start_a 0) start_b 1;
        active = 0;
      })
      >>= λ s. some (record s {
        first_queue = clear 0 s.first_queue;
        second_queue = clear 0 s.second_queue;
        marker = reset marks s.marker;
      })
