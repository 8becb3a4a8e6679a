-- ===== src/Furthest/Reach.antt =====
-- The search ends, and tells whether all nodes can be reached from the start node.
use ka_min_par.Prelude.{
  ℕ, zero, suc, ◌+◌, ◌-◌, ◌≤◌, ◌<◌, ◌≡◌, ◌⊎◌, refl, sym, ◌∙◌, inl, inr, Bool, true, false, ◌||◌,
  some, arith, ltb, lt→ltb, ◌==◌, ==_refl, Bool-cases,
}
use ka_min_par.Graph.{Graph, n, edge_target, first_edge, first_invalid_edge}
use ka_min_par.Graph.Adjacency.{IsGraph}
use ka_min_par.Graph.Validate.{degree_at}
use ka_min_par.Marker.{Marker, get, mark_tracked, first_unmarked_element, reset}
use ka_min_par.Queue.{Queue, empty, clear}
use ka_min_par.Bipartition.Bfs.Marks.{get-mark_tracked}
use ka_min_par.Bipartition.Bfs.Queues.{pop_head-IsFrontier, count-le}
use ka_min_par.Bipartition.Bfs.Start.{IsCleared, IsCleared-push}
use ka_min_par.Furthest.{Scan, infinity, scan_node, scan_nodes, find_furthest_away_node}
use ka_min_par.Furthest.Levels.{
  IsReached, mark_tracked-IsReached, Reachable, IsScan, Progress, reach_neighbors-IsScan,
  leave_node-IsScan,
}

-- A marker without marks, for `n` nodes.
pub record IsNew (n : ℕ) (m : Marker) : Type 0 where
  pub reached : IsReached n m
  pub none_marked : (x : ℕ) → get 1 m x 0 ≡ false

module _ (g : Graph) (v : IsGraph g) (start : ℕ) where
  -- Between the rounds: the neighbors of the nodes that were taken from the queue are marked.
  record IsBetween (expanded : ℕ → Bool) (s : Scan) : Type 0 where
    scan : IsScan g start 0 expanded s
    progress : Progress s
    started : get 1 s.marker start 0 ≡ true
    closed :
        (x e : ℕ)
        → expanded x ≡ true
        → first_edge g x ≤ e
        → e < first_invalid_edge g x
        → get 1 s.marker (edge_target g e) 0 ≡ true

  -- A round takes one node from the queue.
  scan_node-IsBetween :
      (expanded : ℕ → Bool) (s : Scan)
      → IsBetween expanded s
      → empty 0 s.queue ≡ false
      → (t : Scan) × (more : ℕ → Bool) × (scan_node g s ≡ some t)
        × IsBetween more t
        × (t.queue.head ≡ suc s.queue.head)
  unfolding scan_node
  scan_node-IsBetween expanded s b h =
      let w = b.scan in
      let (q, u, first, popped, node, queued, head, tail, rest) =
        pop_head-IsFrontier (n g) s.queue _ _ w.frontier h in
      let more : ℕ → Bool = λ x. u == x || expanded x in
      let not_empty : s.queue.head < s.queue.tail = ground (arith, w.frontier.ordered) in
      let level : 0 < s.remaining_nodes_in_level = elim b.progress [
        | inl left ↦ left
        | inr through ↦ omega (arith, w.counted, through.0)
      ] in
      let found : Reachable g start u = w.reachable u queued in
      let taken : IsScan g start 1 more (record s { queue = q; last_node = u }) = record {
        frontier = rest more (rw (==_refl u) refl) (λ x e. ground arith);
        marked = w.marked;
        reachable = w.reachable;
        last = node;
        last_reachable = found;
        counted = omega (arith, w.counted, head, tail);
      } in
      let ascending = v.ascending u node in
      let (r, reached, x, extends, targets) =
        reach_neighbors-IsScan g v start more (degree_at g u) (first_edge g u) _ taken
          (omega (arith, v.covered u node, ascending))
          (λ i p q. Reachable.along i found node p (omega arith) refl) in
      let (t, left, y, progress, same, marks) =
        leave_node-IsScan g v start more r x (omega (arith, extends.level)) in
      (
        t,
        more,
        rw (first, popped, reached) left,
        record {
          scan = y;
          progress = progress;
          started = rw marks (extends.kept start b.started);
          closed = λ x e p low high. rw marks (elim (Bool-cases (u == x)) [
            | inl here ↦
                let e' : u ≡ x = ground arith in
                targets e (rw e' low) (rw e' (omega (arith, ascending)))
            | inr other ↦ extends.kept _ (b.closed x e (sym (rw other refl) ∙ p) low high)
          ]);
        },
        omega (arith, same, extends.head, head),
      )

  scan_nodes-IsBetween :
      (fuel : ℕ) (expanded : ℕ → Bool) (s : Scan)
      → IsBetween expanded s
      → n g < s.queue.head + fuel
      → (t : Scan) × (all : ℕ → Bool) × (scan_nodes g fuel s ≡ some t)
        × IsBetween all t
        × (empty 0 t.queue ≡ true)
  unfolding scan_nodes
  scan_nodes-IsBetween zero expanded s b h =
      let queue = b.scan.frontier in
      absurd (omega (arith, queue.ordered, queue.counted, count-le (n g) (λ x. get 1 s.marker x 0)))
  scan_nodes-IsBetween (suc fuel) expanded s b h = elim (Bool-cases (empty 0 s.queue)) [
    | inl none_left ↦ (s, expanded, rw none_left refl, b, none_left)
    | inr some_left ↦
        let (r, more, one, x, head) = scan_node-IsBetween expanded s b some_left in
        let (t, all, others, y, last) = scan_nodes-IsBetween fuel more r x (omega (arith, head)) in
        (t, all, rw (some_left, one) others, y, last)
  ]

  -- With an empty queue, all nodes that can be reached are marked.
  Reachable-marked :
      (all : ℕ → Bool) (s : Scan)
      → IsBetween all s
      → empty 0 s.queue ≡ true
      → {x : ℕ} → Reachable g start x
      → get 1 s.marker x 0 ≡ true
  Reachable-marked all s b h (Reachable.here e) = rw (← e) b.started
  Reachable-marked all s b h (Reachable.along {u} e path node low high target) =
      let marked = Reachable-marked all s b h path in
      let expanded : all u ≡ true = elim (Bool-cases (all u)) [
        | inl done ↦ done
        | inr waiting ↦
            let (i, from, below, found) = b.scan.frontier.waiting u node marked waiting in
            absurd (ground arith)
      ] in
      rw (← target) (b.closed u e expanded low high)

  -- From a node of a well-formed graph, with a cleared queue that has room for all nodes and a marker
  -- without marks, the search ends within its fuel and meets no failed assertion. It returns a node
  -- of the graph: one that cannot be reached from the start, with the distance infinity, or else a
  -- node that can be reached, and then every node can.
  pub find_furthest_away_node_correct :
      (queue : Queue ℕ) (marker : Marker) (x : ℕ)
      → start < n g
      → IsCleared (n g) queue
      → IsNew (n g) marker
      → x < n g
      → (node distance : ℕ) × (q : Queue ℕ) × (marks : Marker) × (find_furthest_away_node g start
            queue marker
          ≡ some (node, distance, q, marks))
        × (node < n g)
        × (((distance ≡ infinity) × (¬ (Reachable g start node)))
            ⊎ (Reachable g start node × Reachable g start x))
  unfolding find_furthest_away_node
  find_furthest_away_node_correct queue marker x inside cleared fresh node =
      let old = fresh.reached in
      let first = mark_tracked 1 marker start 0 in
      let now : (u : ℕ) → get 1 first u 0 ≡ (start == u) = λ u.
        get-mark_tracked 1 marker old.valid start 0 (omega (arith, old.cells)) (omega arith) u 0
          (omega arith)
        ∙ rw (fresh.none_marked u) (ground arith) in
      let (q, pushed, frontier, one) =
        IsCleared-push (n g) queue start (λ u. get 1 first u 0) cleared inside now in
      let s : Scan = record {
        queue = q;
        marker = first;
        current_distance = 0;
        last_node = start;
        remaining_nodes_in_level = 1;
        nodes_in_next_level = 0;
      } in
      let began : IsBetween (λ u. false) s = record {
        scan = record {
          frontier = frontier;
          marked = mark_tracked-IsReached (n g) marker start old inside;
          reachable = λ u p. let e : start ≡ u = ground (arith, now u) in Reachable.here e;
          last = inside;
          last_reachable = Reachable.here refl;
          counted = omega (arith, one);
        };
        progress = inl (omega arith);
        started = now start ∙ ==_refl start;
        closed = λ u e p. absurd cc;
      } in
      let (t, all, scanned, b, none_left) =
        scan_nodes-IsBetween (n g + 1) (λ u. false) s began (omega arith) in
      let w = b.scan in
      let size : t.queue.tail - t.queue.head ≡ 0 = ground arith in
      let far : ltb 0 t.current_distance ≡ true = elim b.progress [
        | inl left ↦ absurd (omega (arith, w.counted, size))
        | inr through ↦ lt→ltb 0 t.current_distance through.1
      ] in
      let unreached = first_unmarked_element 1 t.marker 0 in
      let q_end = clear 0 t.queue in
      let m_end = reset 1 t.marker in
      elim (Bool-cases (ltb unreached (n g))) [
        | inl some_unreached ↦
            let below : unreached < n g = ground arith in
            let unmarked = w.marked.first.unmarked (omega (arith, w.marked.cells)) in
            (
              unreached,
              infinity,
              q_end,
              m_end,
              rw (pushed, scanned, far, some_unreached) refl,
              below,
              inl (refl, λ path. let marked = Reachable-marked all t b none_left path in absurd cc),
            )
        | inr all_reached ↦
            let marked = w.marked.first.below x (ground arith) in
            (
              t.last_node,
              t.current_distance - 1,
              q_end,
              m_end,
              rw (pushed, scanned, far, all_reached) refl,
              w.last,
              inr (w.last_reachable, w.reachable x marked),
            )
      ]
