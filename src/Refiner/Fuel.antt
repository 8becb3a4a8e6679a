-- ===== src/Refiner/Fuel.antt =====
-- The local search ends: every move marks a node that was not marked, so that one test more than
-- there are unmarked nodes is enough.
use ka_min_par.Prelude.{
  none, true, Option, Option-cases, ℕ, zero, suc, ◌+◌, ◌≤◌, ◌<◌, ◌≡◌, refl, ap, inl, inr, Bool,
  false, ◌&&◌, ◌||◌, some, arith, ◌==◌, ==_refl, if◌then◌else◌, Bool-cases, length, length-set,
}
use mathlib.Core.Path.{subst}
use ka_min_par.Prelude.Sums.{sum_below, sum_below_update, sum_below_mono, sum_below_one}
use ka_min_par.BinaryHeap.{is_empty}
use ka_min_par.Bipartition.Greedy.{gain_comparator}
use ka_min_par.Marker.{Marker, get, mark}
use ka_min_par.Marker.Laws.{IsMarker, mark_correct}
use ka_min_par.Graph.{Graph, n}
use ka_min_par.Refiner.{Options, Round, should_stop}
use ka_min_par.Refiner.Moves.{step}
use ka_min_par.Refiner.Search.{search}
use ka_min_par.Refiner.Marks.{step-some}

-- The nodes that are not marked.
abbrev pub unmarked : Round → ℕ
unmarked r = sum_below (n r.p.graph) (λ x. if get 1 r.marker x 0 then 0 else 1)

-- Marks for all nodes, in a round whose id fits 32 bits.
pub record IsMarking (r : Round) : Type 0 where
  pub marks : IsMarker 1 r.marker
  pub room : n r.p.graph ≤ length r.marker.cells

abbrev unmarked_in : Graph × Marker → ℕ
unmarked_in s = sum_below (n s.0) (λ x. if get 1 s.1 x 0 then 0 else 1)

length-mark : (m : Marker) (u : ℕ) → length (mark 1 m u 0).cells ≡ length m.cells
unfolding mark
length-mark m u = length-set m.cells u _

-- There is one unmarked node less.
unmarked-mark :
    (g : Graph) (m : Marker) (u : ℕ)
    → IsMarker 1 m
    → n g ≤ length m.cells
    → u < n g
    → get 1 m u 0 ≡ false
    → unmarked_in (g, mark 1 m u 0) + 1 ≡ unmarked_in (g, m)
unmarked-mark g m u v room node fresh =
    let marked : (x : ℕ) → get 1 (mark 1 m u 0) x 0 ≡ ((u == x && 0 == 0) || get 1 m x 0) =
      λ x. (mark_correct 1 m v u 0 (omega arith) (omega arith) x 0 (omega arith)).1 in
    let count : Bool → ℕ = λ b. if b then 0 else 1 in
    let after : count (get 1 (mark 1 m u 0) u 0) ≡ 0 = rw (marked u, ==_refl u) refl in
    let before : count (get 1 m u 0) ≡ 1 = rw fresh refl in
    omega (
      arith,
      sum_below_update (n g) (λ x. count (get 1 (mark 1 m u 0) x 0)) (λ x. count (get 1 m x 0)) u
          node (λ x p q. (let no_ : (u == x) ≡ false = ground arith in rw (marked x, no_) refl)),
      after,
      before,
    )

step-unmarked :
    (o : Options) (coin : Bool) (cut : ℕ) (r t : Round)
    → step o coin cut r ≡ some t
    → IsMarking r
    → (unmarked t + 1 ≡ unmarked r) × IsMarking t
step-unmarked o coin cut r t h v =
    let (u, node, fresh, now) = step-some o coin cut r t h in
    let graph_ : t.p.graph ≡ r.p.graph = ap (λ (s : Graph × Marker). s.0) now in
    let marker_ : t.marker ≡ mark 1 r.marker u 0 = ap (λ (s : Graph × Marker). s.1) now in
    let fewer = unmarked-mark r.p.graph r.marker u v.marks v.room node fresh in
    let same : unmarked t ≡ unmarked_in (r.p.graph, mark 1 r.marker u 0) = ap unmarked_in now in
    (
      omega (arith, fewer, same),
      record {
        marks =
            rw marker_
              (mark_correct 1 r.marker v.marks u 0 (omega (arith, node, v.room)) (omega arith) 0 0
                (omega arith)).0;
        room = rw (graph_, marker_) (omega (arith, v.room, length-mark r.marker u));
      },
    )

-- A run of the loop of the search, from its test before move number `call` in state `r` to its
-- result: the state in which it stops, or `none` where a move fails an assertion. A loop that never
-- stops, or is cut short, has no run.
pub data Run (o : Options) (coin : ℕ → Bool) (cut : ℕ) : ℕ → Round → Option Round → Type 0 where
  emptied :
      {call : ℕ} {r : Round}
      → (is_empty r.queue_0 && is_empty r.queue_1) ≡ true
      → Run o coin cut call r (some r)
  stopped :
      {call : ℕ} {r : Round}
      → (is_empty r.queue_0 && is_empty r.queue_1) ≡ false
      → should_stop o r ≡ true
      → Run o coin cut call r (some r)
  faulted :
      {call : ℕ} {r : Round}
      → (is_empty r.queue_0 && is_empty r.queue_1) ≡ false
      → should_stop o r ≡ false
      → step o (coin call) cut r ≡ none
      → Run o coin cut call r none
  moved :
      {call : ℕ} {r t : Round} {result : Option Round}
      → (is_empty r.queue_0 && is_empty r.queue_1) ≡ false
      → should_stop o r ≡ false
      → step o (coin call) cut r ≡ some t
      → Run o coin cut (call + 1) t result
      → Run o coin cut call r result

-- With one test more than there are unmarked nodes, the loop has a run to the result of `search`.
search-Run :
    (fuel call : ℕ) (o : Options) (coin : ℕ → Bool) (cut : ℕ) (r : Round)
    → IsMarking r
    → unmarked r ≤ fuel
    → Run o coin cut call r (search (suc fuel) call o coin cut r)
unfolding search
search-Run zero call o coin cut r v h =
    elim (Bool-cases (is_empty r.queue_0 && is_empty r.queue_1)) [
      | inl done ↦ rw done (Run.emptied done)
      | inr more ↦ elim (Bool-cases (should_stop o r)) [
        | inl stop ↦ rw (more, stop) (Run.stopped more stop)
        | inr go_on ↦ elim (Option-cases (step o (coin call) cut r)) [
          | inl fault ↦ rw (more, go_on, fault) (Run.faulted more go_on fault)
          | inr made ↦
              let (t, e) = made in
              let (fewer, w) = step-unmarked o (coin call) cut r t e v in
              absurd (omega (arith, fewer, h))
        ]
      ]
    ]
search-Run (suc fuel) call o coin cut r v h =
    elim (Bool-cases (is_empty r.queue_0 && is_empty r.queue_1)) [
      | inl done ↦ rw done (Run.emptied done)
      | inr more ↦ elim (Bool-cases (should_stop o r)) [
        | inl stop ↦ rw (more, stop) (Run.stopped more stop)
        | inr go_on ↦ elim (Option-cases (step o (coin call) cut r)) [
          | inl fault ↦ rw (more, go_on, fault) (Run.faulted more go_on fault)
          | inr made ↦
              let (t, e) = made in
              let (fewer, w) = step-unmarked o (coin call) cut r t e v in
              rw (more, go_on, e)
                (Run.moved more go_on e
                  (search-Run fuel (call + 1) o coin cut t w (omega (arith, fewer, h))))
        ]
      ]
    ]

unmarked_le : (r : Round) → unmarked r ≤ n r.p.graph
unmarked_le r = omega (
  arith,
  sum_below_mono (n r.p.graph) (λ x. if get 1 r.marker x 0 then 0 else 1) (λ _. 1)
      (λ x h. ground arith),
  sum_below_one (n r.p.graph),
)

-- The loop of the search ends by itself, from marks for all nodes and whatever the random bits are:
-- it has a run, by tests and moves of which the last finds both queues empty, finds that the search
-- should stop or fails an assertion, and the tests that round allows are enough for it: what
-- `search` returns is the result of this run.
pub search-round :
    (call : ℕ) (o : Options) (coin : ℕ → Bool) (cut : ℕ) (r : Round)
    → IsMarking r
    → Run o coin cut call r (search (n r.p.graph + 1) call o coin cut r)
search-round call o coin cut r v =
    let one : suc (n r.p.graph) ≡ n r.p.graph + 1 = omega arith in
    subst (λ k. Run o coin cut call r (search k call o coin cut r)) one
      (search-Run (n r.p.graph) call o coin cut r v (unmarked_le r))
