-- ===== src/Refiner/Search.antt =====
-- A round of local search and the rounds of refine (initial_refiner.h). The test for the end of the
-- rounds, `abort`, computes with doubles and is an argument. The assertion on the feasibility of the
-- partition, for which there are doubles too, is left out.
use ka_min_par.Prelude.{
  ℕ, zero, suc, ◌+◌, ◌-◌, Bool, false, not, ◌&&◌, Option, none, some, List, [], ◌∷◌, ◌==◌,
  if◌then◌else◌, assert, ◌>>=◌,
}
use ka_min_par.Prelude.Int.{ℤ, ltb_ℤ, eqb_ℤ}
use ka_min_par.BinaryHeap.{is_empty, clear}
use ka_min_par.Bipartition.Greedy.{gain_comparator}
use ka_min_par.Marker.{reset}
use ka_min_par.Graph.{n}
use ka_min_par.Partition.{PartitionedGraph, block, set_block}
use ka_min_par.Metrics.{edge_cut_seq, total_overload}
use ka_min_par.Refiner.{◌+ℤ◌, Options, Round, should_stop}
use ka_min_par.Refiner.Moves.{init_pq, step}

-- The loop, with `fuel` more tests at most; `call` counts the moves, for the random bits.
unfoldable pub search : ℕ → ℕ → Options → (ℕ → Bool) → ℕ → Round → Option Round
search zero call o coin cut r = none
search (suc fuel) call o coin cut r =
    if is_empty r.queue_0 && is_empty r.queue_1
    then some r
    else (if should_stop o r
        then some r
        else step o (coin call) cut r >>= (λ t. search fuel (call + 1) o coin cut t))

-- The moves since the last accepted cut are taken back.
unfoldable pub rollback : PartitionedGraph → List ℕ → Option PartitionedGraph
rollback p [] = some p
rollback p (u ∷ moves) = set_block p u (1 - block p u) >>= λ q. rollback q moves

-- round, of at most one move for each node: the change of the cut, and the state for the next round.
unfoldable pub round :
    Options → (ℕ → Bool) → (List ℕ → List ℕ) → (ℕ → List ℕ) → Round → Option (ℤ × Round)
round o coin shuffle permutation r = assert (r.p.k == 2) (
    init_pq shuffle permutation (record r { num_steps = 0 }) >>= λ queued.
    edge_cut_seq r.p >>= λ initial_edge_cut.
    let overload = total_overload r.p o.limit in
    search (n r.p.graph + 1) 0 o coin initial_edge_cut (record queued {
      moves = [];
      current_overload = overload;
      accepted_overload = overload;
      current_delta = ℤ.pos 0;
      accepted_delta = ℤ.pos 0;
    })
    >>= λ t. rollback t.p t.moves >>= λ p. edge_cut_seq p >>= λ cut.
        assert (eqb_ℤ (ℤ.pos cut) (ℤ.pos initial_edge_cut +ℤ t.accepted_delta)) (
          some (
            t.accepted_delta,
            record t {
              p = p;
              queue_0 = clear t.queue_0;
              queue_1 = clear t.queue_1;
              marker = reset 1 t.marker;
            },
          )))

-- The loop of refine: `rounds` more rounds at most.
unfoldable pub refine_rounds :
    ℕ
    → Options
    → (ℤ → ℤ → Bool)
    → (ℕ → ℕ → Bool)
    → (List ℕ → List ℕ)
    → (ℕ → List ℕ)
    → ℤ
    → ℤ
    → Round
    → Option (ℤ × Round)
refine_rounds zero o abort coins shuffle permutation prev_edge_cut cur_edge_cut r =
    some (cur_edge_cut, r)
refine_rounds (suc rounds) o abort coins shuffle permutation prev_edge_cut cur_edge_cut r =
    if ltb_ℤ (ℤ.pos 0) cur_edge_cut && not (abort prev_edge_cut cur_edge_cut)
    then round o (coins rounds) shuffle permutation r >>= (λ done.
      refine_rounds rounds o abort coins shuffle permutation cur_edge_cut (cur_edge_cut +ℤ done.0)
        done.1)
    else some (cur_edge_cut, r)

-- refine: whether the cut got smaller, and the state.
unfoldable pub refine :
    ℕ
    → Options
    → (ℤ → ℤ → Bool)
    → (ℕ → ℕ → Bool)
    → (List ℕ → List ℕ)
    → (ℕ → List ℕ)
    → Round
    → Option (Bool × Round)
refine num_iterations o abort coins shuffle permutation r = assert (r.p.k == 2) (
    edge_cut_seq r.p >>= λ initial.
    if initial == 0
    then some (false, r)
    else round o (coins num_iterations) shuffle permutation r >>= (λ done.
      refine_rounds (num_iterations - 1) o abort coins shuffle permutation (ℤ.pos initial)
        (ℤ.pos initial +ℤ done.0) done.1
      >>= λ last. some (ltb_ℤ last.0 (ℤ.pos initial), last.1)))
