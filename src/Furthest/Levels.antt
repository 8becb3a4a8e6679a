-- ===== src/Furthest/Levels.antt =====
-- The visit of the neighbors of a node, and the count of the levels.
use ka_min_par.Prelude.{
  ℕ, zero, suc, ◌+◌, ◌-◌, ◌≤◌, ◌<◌, ◌≡◌, ◌⊎◌, refl, sym, ◌∙◌, inl, inr, Bool, true, ◌||◌, some,
  arith, lt→ltb, ◌==◌, ==_refl, Bool-cases, length,
}
use mathlib.Core.Path.{subst}
use ka_min_par.Graph.{Graph, n, m, edge_target, first_edge, first_invalid_edge}
use ka_min_par.Graph.Adjacency.{IsGraph}
use ka_min_par.Marker.{Marker, get, mark_tracked, first_unmarked_element}
use ka_min_par.Marker.Laws.{IsMarker}
use ka_min_par.Bipartition.Bfs.Marks.{
  IsFirst, get-mark_tracked, mark_tracked-IsMarker, length-mark_tracked, mark_tracked-IsFirst,
  length-first_unmarked-mark_tracked,
}
use ka_min_par.Bipartition.Bfs.Queues.{IsFrontier, push_tail-IsFrontier}
use ka_min_par.Furthest.{Scan, reach_neighbor, reach_neighbors, leave_node}

-- Marks for `n` nodes, with the first node that was not reached.
pub record IsReached (n : ℕ) (m : Marker) : Type 0 where
  pub valid : IsMarker 1 m
  pub cells : n ≤ length m.cells
  pub sized : length m.first_unmarked ≡ 1
  pub first : IsFirst 1 0 m (first_unmarked_element 1 m 0)

pub mark_tracked-IsReached :
    (n : ℕ) (m : Marker) (u : ℕ) → IsReached n m → u < n → IsReached n (mark_tracked 1 m u 0)
mark_tracked-IsReached n m u v node =
    let inside : u < length m.cells = omega (arith, v.cells) in
    record {
      valid = mark_tracked-IsMarker 1 m v.valid u 0 inside (omega arith);
      cells = omega (arith, v.cells, length-mark_tracked 1 m v.valid u 0 inside (omega arith));
      sized = length-first_unmarked-mark_tracked 1 m u 0 ∙ v.sized;
      first =
          mark_tracked-IsFirst 1 m v.valid u 0 inside (omega arith) (first_unmarked_element 1 m 0)
            (omega (arith, v.sized)) refl v.first;
    }

-- The nodes that edges lead to from `start`.
pub data Reachable (g : Graph) (start : ℕ) : ℕ → Type 0 where
  here : {u : ℕ} → start ≡ u → Reachable g start u
  along :
      {u v : ℕ} (e : ℕ)
      → Reachable g start u
      → u < n g
      → first_edge g u ≤ e
      → e < first_invalid_edge g u
      → edge_target g e ≡ v
      → Reachable g start v

-- What holds of the queue and the marks, after the nodes that pass `expanded` were taken from the
-- queue; `popped` nodes of the level are not counted off yet.
pub record IsScan (g : Graph) (start popped : ℕ) (expanded : ℕ → Bool) (s : Scan) : Type 0 where
  pub frontier : IsFrontier (n g) s.queue (λ x. get 1 s.marker x 0) expanded
  pub marked : IsReached (n g) s.marker
  pub reachable : (x : ℕ) → get 1 s.marker x 0 ≡ true → Reachable g start x
  pub last : s.last_node < n g
  pub last_reachable : Reachable g start s.last_node
  pub counted :
      s.remaining_nodes_in_level + s.nodes_in_next_level ≡ popped + (s.queue.tail - s.queue.head)

-- The level has a node left, unless the last level is through.
abbrev pub Progress : Scan → Type 0
Progress s =
    (0 < s.remaining_nodes_in_level) ⊎ ((s.nodes_in_next_level ≡ 0) × (0 < s.current_distance))

-- What the visit of neighbors leaves alone: it adds marks.
pub record Extends (s t : Scan) : Type 0 where
  pub head : t.queue.head ≡ s.queue.head
  pub level : t.remaining_nodes_in_level ≡ s.remaining_nodes_in_level
  pub kept : (x : ℕ) → get 1 s.marker x 0 ≡ true → get 1 t.marker x 0 ≡ true

module _ (g : Graph) (v : IsGraph g) (start : ℕ) (expanded : ℕ → Bool) where
  reach_neighbor-IsScan :
      (e : ℕ) (s : Scan)
      → IsScan g start 1 expanded s
      → e < m g
      → Reachable g start (edge_target g e)
      → (t : Scan) × (reach_neighbor g e s ≡ some t)
        × IsScan g start 1 expanded t
        × Extends s t
        × (get 1 t.marker (edge_target g e) 0 ≡ true)
  unfolding reach_neighbor
  reach_neighbor-IsScan e s w h found =
      let u = edge_target g e in
      let node = v.targets e h in
      elim (Bool-cases (get 1 s.marker u 0)) [
        | inl seen ↦
            (s, rw seen refl, w, record { head = refl; level = refl; kept = λ x p. p }, seen)
        | inr fresh ↦
            let more = mark_tracked 1 s.marker u 0 in
            let now : (x : ℕ) → get 1 more x 0 ≡ (u == x || get 1 s.marker x 0) = λ x.
              get-mark_tracked 1 s.marker w.marked.valid u 0 (omega (arith, w.marked.cells))
                (omega arith) x 0 (omega arith)
              ∙ ground arith in
            let (q, pushed, frontier, head, longer, tail) =
              push_tail-IsFrontier (n g) s.queue _ _ w.frontier u (λ x. get 1 more x 0) node fresh
                now in
            (
              record s {
                queue = q;
                marker = more;
                nodes_in_next_level = s.nodes_in_next_level + 1;
              },
              rw (fresh, pushed) refl,
              record {
                frontier = frontier;
                marked = mark_tracked-IsReached (n g) s.marker u w.marked node;
                reachable = λ x p. elim (Bool-cases (u == x)) [
                  | inl same ↦ let e' : u ≡ x = ground arith in subst (Reachable g start) e' found
                  | inr other ↦ w.reachable x (sym (now x ∙ rw other refl) ∙ p)
                ];
                last = w.last;
                last_reachable = w.last_reachable;
                counted = omega (arith, w.counted, head, tail, w.frontier.ordered);
              },
              record { head = head; level = refl; kept = λ x p. now x ∙ rw p (ground arith) },
              now u ∙ rw (==_refl u) refl,
            )
      ]

  pub reach_neighbors-IsScan :
      (count e : ℕ) (s : Scan)
      → IsScan g start 1 expanded s
      → e + count ≤ m g
      → ((i : ℕ) → e ≤ i → i < e + count → Reachable g start (edge_target g i))
      → (t : Scan) × (reach_neighbors g e count s ≡ some t)
        × IsScan g start 1 expanded t
        × Extends s t
        × ((i : ℕ) → e ≤ i → i < e + count → get 1 t.marker (edge_target g i) 0 ≡ true)
  unfolding reach_neighbors
  reach_neighbors-IsScan zero e s w h found = (
    s,
    refl,
    w,
    record { head = refl; level = refl; kept = λ x p. p },
    λ i p q. absurd (omega arith),
  )
  reach_neighbors-IsScan (suc count) e s w h found =
      let (r, one, x, extends, here_) =
        reach_neighbor-IsScan e s w (omega arith) (found e (omega arith) (omega arith)) in
      let (t, more, y, others, rest) =
        reach_neighbors-IsScan count (e + 1) r x (omega arith)
          (λ i p q. found i (omega arith) (omega arith)) in
      (
        t,
        rw one more,
        y,
        record {
          head = others.head ∙ extends.head;
          level = others.level ∙ extends.level;
          kept = λ u p. others.kept u (extends.kept u p);
        },
        λ i p q. elim (Bool-cases (e == i)) [
          | inl same ↦
              let e' : e ≡ i = ground arith in rw (← e') (others.kept (edge_target g e) here_)
          | inr other ↦ rest i (ground arith) (omega arith)
        ],
      )

  pub leave_node-IsScan :
      (s : Scan)
      → IsScan g start 1 expanded s
      → 0 < s.remaining_nodes_in_level
      → (t : Scan) × (leave_node g s ≡ some t)
        × IsScan g start 0 expanded t
        × Progress t
        × (t.queue.head ≡ s.queue.head)
        × (t.marker ≡ s.marker)
  unfolding leave_node
  leave_node-IsScan s w h =
      let some_left = lt→ltb 0 s.remaining_nodes_in_level h in
      elim (Bool-cases (s.remaining_nodes_in_level - 1 == 0)) [
        | inl last ↦ (
          record s {
            current_distance = s.current_distance + 1;
            remaining_nodes_in_level = s.nodes_in_next_level;
            nodes_in_next_level = 0;
          },
          rw (some_left, last) refl,
          record {
            frontier = w.frontier;
            marked = w.marked;
            reachable = w.reachable;
            last = w.last;
            last_reachable = w.last_reachable;
            counted =
                let one : s.remaining_nodes_in_level - 1 ≡ 0 = ground arith in
                omega (arith, w.counted, one);
          },
          inr (refl, omega arith),
          refl,
          refl,
        )
        | inr more ↦ (
          record s { remaining_nodes_in_level = s.remaining_nodes_in_level - 1 },
          rw (some_left, more) refl,
          record {
            frontier = w.frontier;
            marked = w.marked;
            reachable = w.reachable;
            last = w.last;
            last_reachable = w.last_reachable;
            counted = omega (arith, w.counted);
          },
          inl (ground arith),
          refl,
          refl,
        )
      ]
