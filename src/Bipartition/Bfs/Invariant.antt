-- ===== src/Bipartition/Bfs/Invariant.antt =====
-- What holds of the two queues, the marks and the blocks between the steps.
use ka_min_par.Prelude.{
  ℕ, zero, suc, ◌+◌, ◌≤◌, ◌<◌, ◌≡◌, refl, sym, ◌∙◌, ap, inl, inr, Bool, true, false, ◌&&◌, ◌||◌,
  some, arith, ◌==◌, ==_refl, if◌then◌else◌, Bool-cases, length, length-set,
}
use mathlib.Core.Path.{subst}
use ka_min_par.Graph.{Graph, n}
use ka_min_par.Partition.{invalid_block_id}
use ka_min_par.Marker.{Marker, get, mark, mark_tracked, first_unmarked_element}
use ka_min_par.Marker.Laws.{IsMarker}
use ka_min_par.Queue.{Queue, empty}
use ka_min_par.Bipartition.{block_of}
use ka_min_par.Bipartition.Weights.{IsBipartition}
use ka_min_par.Bipartition.Bfs.{
  Growth, block_queue, with_block_queue, marks, mark_assigned, push_active,
}
use ka_min_par.Bipartition.Bfs.Marks.{
  IsFirst, get-mark, mark-IsMarker, length-mark, mark-IsFirst, mark_tracked-IsMarker,
  length-mark_tracked, mark_tracked-IsFirst,
}
use ka_min_par.Bipartition.Bfs.Queues.{IsFrontier, push_tail-IsFrontier, IsFrontier-congr}

-- Marks for `n` nodes, with the first node that is not assigned.
pub record IsMarks (n : ℕ) (m : Marker) : Type 0 where
  pub valid : IsMarker marks m
  pub cells : n ≤ length m.cells
  pub sized : length m.first_unmarked ≡ marks
  pub first : IsFirst marks mark_assigned m (first_unmarked_element marks m mark_assigned)

module _ (n : ℕ) (m : Marker) (v : IsMarks n m) (u : ℕ) (node : u < n) where
  pub mark-IsMarks : (b : ℕ) → b < 2 → IsMarks n (mark marks m u b)
  mark-IsMarks b known =
      let inside : u < length m.cells = omega (arith, v.cells) in
      let other : (b == mark_assigned) ≡ false = ground arith in
      let kept =
        mark-IsFirst marks m v.valid u b inside (omega arith) mark_assigned
          (first_unmarked_element marks m mark_assigned) (omega arith) other v.first in
      record {
        valid = mark-IsMarker marks m v.valid u b inside (omega arith);
        cells = omega (arith, v.cells, length-mark marks m v.valid u b inside (omega arith));
        sized = unfold mark in v.sized;
        first = record {
          below = unfold mark in kept.below;
          unmarked = unfold mark in kept.unmarked;
        };
      }

  pub mark_tracked-IsMarks : IsMarks n (mark_tracked marks m u mark_assigned)
  mark_tracked-IsMarks =
      let inside : u < length m.cells = omega (arith, v.cells) in
      record {
        valid = mark_tracked-IsMarker marks m v.valid u mark_assigned inside (omega arith);
        cells = omega (
          arith,
          v.cells,
          length-mark_tracked marks m v.valid u mark_assigned inside (omega arith),
        );
        sized = unfold mark_tracked mark in length-set m.first_unmarked mark_assigned _ ∙ v.sized;
        first =
            mark_tracked-IsFirst marks m v.valid u mark_assigned inside (omega arith)
              (first_unmarked_element marks m mark_assigned) (omega (arith, v.sized)) refl v.first;
      }

pub block_queue-with_block_queue :
    (s : Growth) (a b : ℕ) (q : Queue ℕ)
    → a < 2
    → b < 2
    → block_queue (with_block_queue s a q) b ≡ (if a == b then q else block_queue s b)
block_queue-with_block_queue s zero zero q h k = refl
block_queue-with_block_queue s zero (suc b) q h k = ground arith
block_queue-with_block_queue s (suc a) zero q h k = ground arith
block_queue-with_block_queue s (suc a) (suc b) q h k = ground arith

-- The number of nodes that were taken from the queues.
abbrev pub taken_nodes : Growth → ℕ
taken_nodes s = s.first_queue.head + s.second_queue.head

pub taken_nodes-with_block_queue :
    (s : Growth) (a : ℕ) (q : Queue ℕ) (k : ℕ)
    → q.head ≡ k + (block_queue s a).head
    → taken_nodes (with_block_queue s a q) ≡ k + taken_nodes s
taken_nodes-with_block_queue s a q k e = elim (Bool-cases (a == 0)) [
  | inl first ↦ let head = rw first at e in rw first (omega (arith, head))
  | inr second ↦ let head = rw second at e in rw second (omega (arith, head))
]

module _ (g : Graph) where
  pub record IsGrowth (s : Growth) : Type 0 where
    pub base : IsBipartition g s.base
    pub taken :
        (x : ℕ) → x < n g → get marks s.marker x mark_assigned ≡ true → block_of s.base x < 2
    pub free :
        (x : ℕ)
        → x < n g
        → get marks s.marker x mark_assigned ≡ false
        → block_of s.base x ≡ invalid_block_id
    pub marked : IsMarks (n g) s.marker
    pub known : s.active < 2
    pub frontier :
        (b : ℕ)
        → b < 2
        → IsFrontier
            (n g)
            (block_queue s b)
            (λ x. get marks s.marker x b)
            (λ x. get marks s.marker x mark_assigned)

  -- A node that is not marked for the active block is pushed, and what holds between the steps
  -- still holds.
  pub push_active-IsGrowth :
      (s : Growth) (v : ℕ)
      → IsGrowth s
      → v < n g
      → get marks s.marker v s.active ≡ false
      → (t : Growth) × (push_active v s ≡ some t)
        × IsGrowth t
        × (taken_nodes t ≡ taken_nodes s)
        × (empty 0 (block_queue t t.active) ≡ false)
  unfolding push_active
  push_active-IsGrowth s v w node fresh =
      let a = s.active in
      let m = s.marker in
      let inside : v < length m.cells = omega (arith, w.marked.cells) in
      let known = w.known in
      let now : (x k : ℕ)
          → k < 3
          → get marks (mark marks m v a) x k ≡ ((v == x && a == k) || get marks m x k) =
        λ x k p. get-mark marks m w.marked.valid v a inside (omega arith) x k p in
      let assigned_now : (x : ℕ)
          → get marks (mark marks m v a) x mark_assigned ≡ get marks m x mark_assigned =
        λ x. now x mark_assigned (omega arith) ∙ ground arith in
      let (q, pushed, queue, head, not_empty, end) =
        push_tail-IsFrontier (n g) (block_queue s a) (λ x. get marks m x a)
          (λ x. get marks m x mark_assigned) (w.frontier a known) v
          (λ x. get marks (mark marks m v a) x a) node fresh
          (λ x. now x a (omega arith) ∙ ground arith) in
      let heads : taken_nodes (with_block_queue s a q) ≡ 0 + taken_nodes s =
        taken_nodes-with_block_queue s a q 0 (omega (arith, head)) in
      let same_queue : block_queue (with_block_queue s a q) a ≡ q =
        block_queue-with_block_queue s a a q known known
        ∙ ap (λ t. if t then q else block_queue s a) (==_refl a) in
      (
        record (with_block_queue s a q) { marker = mark marks m v a },
        rw pushed refl,
        record {
          base = w.base;
          taken = λ x p e. w.taken x p (sym (assigned_now x) ∙ e);
          free = λ x p e. w.free x p (sym (assigned_now x) ∙ e);
          marked = mark-IsMarks (n g) m w.marked v node a known;
          known = known;
          frontier = λ b p.
              let test : ℕ → Bool = λ x. get marks (mark marks m v a) x b in
              let done : ℕ → Bool = λ x. get marks (mark marks m v a) x mark_assigned in
              let grows : (x : ℕ) → done x ≡ false → get marks m x mark_assigned ≡ false =
                λ x e. sym (assigned_now x) ∙ e in
              subst (λ r. IsFrontier (n g) r test done)
                (sym (block_queue-with_block_queue s a b q known p))
                (elim (Bool-cases (a == b)) [
                  | inl here ↦
                      let same : a ≡ b = ground arith in
                      rw here (
                        IsFrontier-congr (n g) q _ _ queue test done
                          (λ x. ap (get marks (mark marks m v a) x) (sym same)) grows)
                  | inr other ↦ rw other (
                      IsFrontier-congr (n g) (block_queue s b) _ _ (w.frontier b p) test done
                        (λ x. now x b (omega arith) ∙ rw other (ground arith)) grows)
                ]);
        },
        omega (arith, heads),
        subst (λ r. empty 0 r ≡ false) (sym same_queue) (ground arith),
      )
