-- ===== src/Refiner/Tests.antt =====
-- A bipartition of a path of three nodes is refined.
use ka_min_par.Prelude.{
  ℕ, zero, suc, ◌<◌, ◌≤◌, ◌≡◌, ◌==◌, if◌then◌else◌, refl, Bool, true, false, Option, none, some,
  List, [], ◌∷◌, arith, get_or,
}
use ka_min_par.Prelude.Int.{ℤ}
use ka_min_par.FastResetArray.Laws.{is_listed}
use ka_min_par.Chunks.{iota}
use ka_min_par.Heap.{scan_children, smallest_child, swap}
use ka_min_par.BinaryHeap.{
  BinaryHeap, invalid_id, push, sift_up, peek_key, peek_id, change_priority, clear,
  decrease_priority, forget_ids, increase_priority, key, pop, remove, rise, set_key, sift_down,
  sift_down_loop, sift_up_loop, swap_at,
}
use ka_min_par.Marker.{shift_right, get, mark, reset}
use ka_min_par.Graph.Tests.{path, path-IsGraph, path-IsSymmetric}
use ka_min_par.Partition.{PartitionedGraph, block, set_block}
use ka_min_par.Partition.BlockWeights.{HasBlockWeights}
use ka_min_par.Partition.Tests.{halves, halves-IsPartition, halves-HasBlockWeights}
use ka_min_par.Metrics.{edge_cut_seq, halve_cut, add_cut_of, total_overload}
use ka_min_par.Metrics.EdgeCut.{cut_weight}
use ka_min_par.Refiner.{
  ◌+ℤ◌, Options, Round, max_overload_block, max_gain_block, max_weight_block, is_accepted,
}
use ka_min_par.Refiner.Moves.{
  compute_gain_from_scratch, init_weighted_degrees, init_pq, insert_node, step, active_block,
  move_best, accept, update_neighbor, update_queue,
}
use ka_min_par.Refiner.Search.{search, rollback, refine, round, refine_rounds}
use ka_min_par.Refiner.Gain.{compute_gain_from_scratch_correct}
use ka_min_par.Refiner.Rollback.{IsBipartitioned, flipped, rollback_correct}
use ka_min_par.Refiner.Fuel.{IsMarking, Run, search-round}

halves-below : (x : ℕ) → x < 3 → block halves x < 2
halves-below zero h = omega arith
halves-below (suc zero) h = omega arith
halves-below (suc (suc zero)) h = omega arith
halves-below (suc (suc (suc x))) h = absurd (omega arith)

halves-IsBipartitioned : IsBipartitioned halves
halves-IsBipartitioned = record {
  two = refl;
  partition = halves-IsPartition;
  weights = halves-HasBlockWeights;
  assigned = halves-below;
}

abbrev no_degrees : List ℕ
no_degrees = 0 ∷ 0 ∷ 0 ∷ []

compute_gain_from_scratch_correct_example :
    (q : PartitionedGraph) × (set_block halves 1 1 ≡ some q)
    × (ℤ.pos (cut_weight q)
        ≡ ℤ.pos 7 +ℤ compute_gain_from_scratch halves (init_weighted_degrees path no_degrees) 1)
compute_gain_from_scratch_correct_example =
    compute_gain_from_scratch_correct halves 1 path-IsGraph path-IsSymmetric (omega arith)
      halves-IsPartition halves-HasBlockWeights refl halves-below refl no_degrees (omega arith)

-- The move of node 1 is better by 2.
better_by_two :
    compute_gain_from_scratch halves (init_weighted_degrees path no_degrees) 1 ≡ ℤ.negsuc 1
unfolding compute_gain_from_scratch init_weighted_degrees
better_by_two = refl

-- Node 1 was moved from block 1 to block 0.
abbrev one_moved : List ℕ
one_moved = 1 ∷ []

abbrev accepted : ℕ → ℕ
accepted x = if x == 0 then 0 else 1

one_moved-inside : (x : ℕ) → is_listed one_moved x ≡ true → x < 3
one_moved-inside x h = ground arith

accepted-below : (x : ℕ) → x < 3 → accepted x < 2
accepted-below x h = ground arith

since_accepted : (x : ℕ) → x < 3 → block halves x ≡ flipped accepted one_moved x
since_accepted zero h = refl
since_accepted (suc zero) h = refl
since_accepted (suc (suc zero)) h = refl
since_accepted (suc (suc (suc x))) h = absurd (omega arith)

rollback_correct_example :
    (q : PartitionedGraph) × (rollback halves one_moved ≡ some q)
    × (block q 1 ≡ 1)
    × HasBlockWeights q
    × (q.graph ≡ path)
rollback_correct_example =
    rollback_correct halves one_moved accepted halves-IsBipartitioned (refl, tt) one_moved-inside
      accepted-below since_accepted 1 (omega arith)

abbrev no_nodes : BinaryHeap ℤ
no_nodes = record {
  id_pos = invalid_id ∷ invalid_id ∷ invalid_id ∷ [];
  heap =
      record { id = 0; key = ℤ.pos 0 }
      ∷ record { id = 0; key = ℤ.pos 0 }
      ∷ record { id = 0; key = ℤ.pos 0 }
      ∷ [];
  size = 0;
}

abbrev start : Round
start = record {
  p = halves;
  queue_0 = no_nodes;
  queue_1 = no_nodes;
  marker = record { cells = 0 ∷ 0 ∷ 0 ∷ []; marker_id = 0; first_unmarked = 0 ∷ [] };
  weighted_degrees = 5 ∷ 12 ∷ 7 ∷ [];
  num_steps = 0;
  moves = [];
  accepted_overload = 0;
  current_overload = 0;
  accepted_delta = ℤ.pos 0;
  current_delta = ℤ.pos 0;
}

-- Node 1 is queued, as its move is the best.
abbrev queued : Round
queued = record start {
  queue_0 = record {
    id_pos = invalid_id ∷ 0 ∷ invalid_id ∷ [];
    heap =
        record { id = 1; key = ℤ.negsuc 1 }
        ∷ record { id = 0; key = ℤ.pos 0 }
        ∷ record { id = 0; key = ℤ.pos 0 }
        ∷ [];
    size = 1;
  };
}

abbrev options : Options
options = record { num_fruitless_moves = 350; perfect = λ _. 5; limit = λ _. 20 }

queued-earlier : (x : ℕ) → shift_right (get_or queued.marker.cells x 0) 1 ≤ 0
queued-earlier zero = omega arith
queued-earlier (suc zero) = omega arith
queued-earlier (suc (suc zero)) = omega arith
queued-earlier (suc (suc (suc x))) = omega arith

queued-IsMarking : IsMarking queued
queued-IsMarking = record {
  marks = record { multiple = refl; fits = omega arith; earlier = queued-earlier };
  room = omega arith;
}

search-round_example :
    Run options (λ _. false) 7 0 queued (search 4 0 options (λ _. false) 7 queued)
search-round_example = search-round 0 options (λ _. false) 7 queued queued-IsMarking

abbrev partition_of : Option (Bool × Round) → List ℕ
partition_of none = []
partition_of (some r) = r.1.p.partition

-- Both blocks may be as heavy as the graph: the best cut has all nodes in one block.
refined :
    partition_of (refine 1 options (λ _ _. false) (λ _ _. false) (λ l. l) (λ _. iota 0 64) start)
    ≡ 0 ∷ 0 ∷ 0 ∷ []
unfolding refine edge_cut_seq halve_cut add_cut_of round init_pq insert_node
    compute_gain_from_scratch push search sift_up step active_block max_overload_block
    max_gain_block peek_key move_best peek_id change_priority clear decrease_priority forget_ids
    increase_priority key pop remove rise set_key sift_down sift_down_loop sift_up_loop swap_at
    scan_children smallest_child swap get mark reset total_overload set_block accept update_neighbor
    update_queue refine_rounds rollback is_accepted max_weight_block
refined = refl
