-- ===== src/Furthest.antt =====
-- find_furthest_away_node of kaminpar/algorithm/graph_utils.cc: a breadth-first search from a node,
-- level by level. A failed assertion, or a full queue, is the fault `none`.
pub mod Levels
pub mod Reach
mod Tests
use ka_min_par.Prelude.{
  ℕ, zero, suc, ◌+◌, ◌-◌, ◌^◌, Bool, Option, none, some, ltb, ◌==◌, if◌then◌else◌, assert, ◌>>=◌,
}
use ka_min_par.Graph.{Graph, n, edge_target, first_edge}
use ka_min_par.Graph.Validate.{degree_at}
use ka_min_par.Marker.{Marker, get, mark_tracked, first_unmarked_element, reset}
use ka_min_par.Queue.{Queue, empty, front, pop_head, push_tail, clear}

-- The variables of the search.
pub record Scan : Type 0 where
  pub queue : Queue ℕ
  pub marker : Marker
  pub current_distance : ℕ
  pub last_node : ℕ
  pub remaining_nodes_in_level : ℕ
  pub nodes_in_next_level : ℕ

-- std::numeric_limits<NodeID>::max()
abbrev pub infinity : ℕ
infinity = 2 ^ 32 - 1

module _ (g : Graph) where
  -- The body of the loop over the neighbors, for the edge `e`.
  unfoldable pub reach_neighbor : ℕ → Scan → Option Scan
  reach_neighbor e s =
      let v = edge_target g e in
      if get 1 s.marker v 0
      then some s
      else push_tail 0 s.queue v >>= λ q. some (record s {
        queue = q;
        marker = mark_tracked 1 s.marker v 0;
        nodes_in_next_level = s.nodes_in_next_level + 1;
      })

  unfoldable pub reach_neighbors : ℕ → ℕ → Scan → Option Scan
  reach_neighbors e zero s = some s
  reach_neighbors e (suc count) s = reach_neighbor e s >>= λ t. reach_neighbors (e + 1) count t

  -- The count of the nodes in a level, which ends with its last node.
  unfoldable pub leave_node : Scan → Option Scan
  leave_node s =
      let remaining = s.remaining_nodes_in_level - 1 in
      assert (ltb 0 s.remaining_nodes_in_level) (
        some (
          if remaining == 0
          then record s {
            current_distance = s.current_distance + 1;
            remaining_nodes_in_level = s.nodes_in_next_level;
            nodes_in_next_level = 0;
          }
          else record s { remaining_nodes_in_level = remaining }))

  -- The body of the loop.
  unfoldable pub scan_node : Scan → Option Scan
  scan_node s = front 0 s.queue >>= λ u. pop_head 0 s.queue >>= λ q.
      reach_neighbors (first_edge g u) (degree_at g u) (record s { queue = q; last_node = u })
      >>= leave_node

  -- The loop, with at most `fuel` tests.
  unfoldable pub scan_nodes : ℕ → Scan → Option Scan
  scan_nodes zero s = none
  scan_nodes (suc fuel) s =
      let more = scan_node s >>= scan_nodes fuel in if empty 0 s.queue then some s else more

  -- The node and its distance, with the queue and the marker as they are left. Each node is taken
  -- from the queue at most once.
  unfoldable pub find_furthest_away_node : ℕ → Queue ℕ → Marker → Option (ℕ × ℕ × Queue ℕ × Marker)
  find_furthest_away_node start_node queue marker = push_tail 0 queue start_node >>= λ q.
      scan_nodes (n g + 1) (record {
        queue = q;
        marker = mark_tracked 1 marker start_node 0;
        current_distance = 0;
        last_node = start_node;
        remaining_nodes_in_level = 1;
        nodes_in_next_level = 0;
      })
      >>= λ s. assert (ltb 0 s.current_distance) (
          let unreached = first_unmarked_element 1 s.marker 0 in
          let disconnected = ltb unreached (n g) in
          some (
            if disconnected then unreached else s.last_node,
            if disconnected then infinity else s.current_distance - 1,
            clear 0 s.queue,
            reset 1 s.marker,
          ))
