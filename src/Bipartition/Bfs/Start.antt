-- ===== src/Bipartition/Bfs/Start.antt =====
-- The breadth-first bipartitioner from its two start nodes.
use ka_min_par.Prelude.{
  suc, ℕ, ◌+◌, ◌*◌, ◌≤◌, ◌<◌, ◌≡◌, refl, ◌∙◌, inl, inr, Bool, false, ◌&&◌, ◌||◌, some, arith, ◌==◌,
  Bool-cases, length, get_or-replicate,
}
use ka_min_par.Graph.{Graph, n}
use ka_min_par.Graph.Adjacency.{IsGraph}
use ka_min_par.Partition.{invalid_block_id}
use ka_min_par.Marker.{Marker, get, mark_tracked, first_unmarked_element, reset}
use ka_min_par.Marker.Laws.{IsMarker}
use ka_min_par.Queue.{Queue, push_tail, clear}
use ka_min_par.Bipartition.{block_of, unassigned}
use ka_min_par.Bipartition.Weights.{IsBipartition}
use ka_min_par.Bipartition.Random.{unassigned-IsBipartition}
use ka_min_par.Bipartition.Bfs.{Strategy, Growth, marks, mark_assigned, bfs_bipartition}
use ka_min_par.Bipartition.Bfs.Marks.{
  get-mark_tracked, mark_tracked-IsMarker, length-mark_tracked, first_unmarked_element-mark_tracked,
  length-first_unmarked-mark_tracked,
}
use ka_min_par.Bipartition.Bfs.Queues.{IsFrontier, push_tail-IsFrontier, IsFrontier-congr}
use ka_min_par.Bipartition.Bfs.Invariant.{IsMarks, IsGrowth}
use ka_min_par.Bipartition.Bfs.Rounds.{grow_blocks-IsGrowth}

-- A marker without marks, for `n` nodes.
pub record IsUnmarked (n : ℕ) (m : Marker) : Type 0 where
  pub valid : IsMarker marks m
  pub cells : n ≤ length m.cells
  pub sized : length m.first_unmarked ≡ marks
  pub none_marked : (x j : ℕ) → j < marks → get marks m x j ≡ false
  pub starts : first_unmarked_element marks m mark_assigned ≡ 0

-- A queue that was cleared, with room for `n` nodes.
pub record IsCleared (n : ℕ) (q : Queue ℕ) : Type 0 where
  pub head : q.head ≡ 0
  pub tail : q.tail ≡ 0
  pub room : n ≤ length q.cells

-- The queue of a block with its start node.
pub IsCleared-push :
    (n : ℕ) (q : Queue ℕ) (start : ℕ) (marked : ℕ → Bool)
    → IsCleared n q
    → start < n
    → ((x : ℕ) → marked x ≡ (start == x))
    → (r : Queue ℕ) × (push_tail 0 q start ≡ some r)
      × IsFrontier n r marked (λ x. false)
      × (r.tail ≡ suc r.head)
IsCleared-push n q start marked v h e =
    let empty : IsFrontier n q (λ x. false) (λ x. false) = record {
      ordered = omega (arith, v.head);
      room = v.room;
      counted = omega (arith, v.tail);
      nodes = λ i p r. absurd (omega (arith, v.tail));
      waiting = λ u p m. absurd cc;
    } in
    let (r, pushed, frontier, head, some_left, end) =
      push_tail-IsFrontier n q _ _ empty start marked h refl (λ x. e x ∙ ground arith) in
    (r, pushed, frontier, omega (arith, head, end, v.head, v.tail))

module _ (n : ℕ) (m : Marker) (v : IsUnmarked n m) (a b : ℕ) (a_node : a < n) (b_node : b < n) where
  abbrev start_marks : Marker
  start_marks = mark_tracked marks (mark_tracked marks m a 0) b 1

  get-start_marks :
      (x j : ℕ) → j < 3 → get marks start_marks x j ≡ ((b == x && 1 == j) || (a == x && 0 == j))
  get-start_marks x j h =
      let inside : a < length m.cells = omega (arith, v.cells) in
      let first = mark_tracked-IsMarker marks m v.valid a 0 inside (omega arith) in
      let size = length-mark_tracked marks m v.valid a 0 inside (omega arith) in
      get-mark_tracked marks (mark_tracked marks m a 0) first b 1 (omega (arith, size, v.cells))
        (omega arith) x j h
      ∙ rw (get-mark_tracked marks m v.valid a 0 inside (omega arith) x j h, v.none_marked x j h)
          (ground arith)

  start_marks-IsMarks : IsMarks n start_marks
  start_marks-IsMarks =
      let inside : a < length m.cells = omega (arith, v.cells) in
      let first = mark_tracked-IsMarker marks m v.valid a 0 inside (omega arith) in
      let size = length-mark_tracked marks m v.valid a 0 inside (omega arith) in
      let fits : b < length (mark_tracked marks m a 0).cells = omega (arith, size, v.cells) in
      let starts : first_unmarked_element marks start_marks mark_assigned ≡ 0 =
        first_unmarked_element-mark_tracked marks (mark_tracked marks m a 0) b 1 mark_assigned
          (omega arith)
        ∙ first_unmarked_element-mark_tracked marks m a 0 mark_assigned (omega arith)
        ∙ v.starts in
      record {
        valid = mark_tracked-IsMarker marks (mark_tracked marks m a 0) first b 1 fits (omega arith);
        cells = omega (
          arith,
          size,
          length-mark_tracked marks (mark_tracked marks m a 0) first b 1 fits (omega arith),
          v.cells,
        );
        sized =
            length-first_unmarked-mark_tracked marks (mark_tracked marks m a 0) b 1
            ∙ length-first_unmarked-mark_tracked marks m a 0
            ∙ v.sized;
        first = rw starts (record {
          below = λ x p. absurd (omega arith);
          unmarked = λ p. get-start_marks 0 mark_assigned (omega arith) ∙ ground arith;
        });
      }

module _ (g : Graph) (v : IsGraph g) (perfect max_block_weight : ℕ → ℕ) where
  -- Whatever the strategy and the two start nodes are, the breadth-first bipartitioner ends within
  -- its fuel and meets no failed assertion or full queue; every node is in one of the two blocks and
  -- the block weights are right. The graph is well formed, the queues are cleared, with room for all
  -- nodes, and the marker has no marks.
  pub bfs_bipartition_correct :
      (strategy : Strategy) (start_a start_b : ℕ) (first_queue second_queue : Queue ℕ)
      (marker : Marker) (x : ℕ)
      → start_a < n g
      → start_b < n g
      → IsCleared (n g) first_queue
      → IsCleared (n g) second_queue
      → IsUnmarked (n g) marker
      → x < n g
      → (t : Growth) × (bfs_bipartition g perfect max_block_weight strategy start_a start_b
            first_queue second_queue marker
          ≡ some t)
        × IsBipartition g t.base
        × (block_of t.base x < 2)
  unfolding bfs_bipartition
  bfs_bipartition_correct strategy a b first second m x a_node b_node qa_clear qb_clear fresh node =
      let marker = start_marks (n g) m fresh a b a_node b_node in
      let now = get-start_marks (n g) m fresh a b a_node b_node in
      let free : (u : ℕ) → get marks marker u mark_assigned ≡ false =
        λ u. now u mark_assigned (omega arith) ∙ ground arith in
      let (qa, pushed_a, frontier_a, one_a) =
        IsCleared-push (n g) first a (λ u. get marks marker u 0) qa_clear a_node
          (λ u. now u 0 (omega arith) ∙ ground arith) in
      let (qb, pushed_b, frontier_b, one_b) =
        IsCleared-push (n g) second b (λ u. get marks marker u 1) qb_clear b_node
          (λ u. now u 1 (omega arith) ∙ ground arith) in
      let s : Growth = record {
        base = unassigned g;
        first_queue = qa;
        second_queue = qb;
        marker = marker;
        active = 0;
      } in
      let started : IsGrowth g s = record {
        base = unassigned-IsBipartition g;
        taken = λ u p e. let no_ = free u in absurd cc;
        free = λ u p e. get_or-replicate (n g) u invalid_block_id;
        marked = start_marks-IsMarks (n g) m fresh a b a_node b_node;
        known = omega arith;
        frontier = λ c p. elim (Bool-cases (c == 0)) [
          | inl zero_ ↦
              let same : c ≡ 0 = ground arith in
              rw same (
                IsFrontier-congr (n g) qa _ _ frontier_a (λ u. get marks marker u 0)
                  (λ u. get marks marker u mark_assigned) (λ u. refl) (λ u e. refl))
          | inr one_ ↦
              let same : c ≡ 1 = ground arith in
              rw same (
                IsFrontier-congr (n g) qb _ _ frontier_b (λ u. get marks marker u 1)
                  (λ u. get marks marker u mark_assigned) (λ u. refl) (λ u e. refl))
        ];
      } in
      let (t, grown, w, all) =
        grow_blocks-IsGrowth g v perfect max_block_weight strategy (2 * n g + 1) s started
          (omega arith) in
      let assigned = w.marked.first.below x (omega arith) in
      (
        record t {
          first_queue = clear 0 t.first_queue;
          second_queue = clear 0 t.second_queue;
          marker = reset marks t.marker;
        },
        rw (pushed_a, pushed_b, grown) refl,
        w.base,
        w.taken x node assigned,
      )
