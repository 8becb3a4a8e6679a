-- ===== src/Refiner/Moves.antt =====
-- The gains, the queues at the start of a round, and one move (initial_refiner.h:
-- init_weighted_degrees, compute_gain_from_scratch, insert_node, init_pq and the loop of round).
use ka_min_par.Prelude.{
  ℕ, zero, suc, ◌+◌, ◌-◌, ◌*◌, ◌/◌, Bool, not, ◌&&◌, Option, some, List, [], ◌∷◌, ◌++◌, ltb, ◌==◌,
  if◌then◌else◌, get_or, set, assert, ◌>>=◌,
}
use ka_min_par.Prelude.Int.{ℤ, minus, ◌-ℤ◌, ltb_ℤ, eqb_ℤ}
use ka_min_par.Prelude.Loops.{for_below, for_between}
use ka_min_par.BinaryHeap.{
  BinaryHeap, is_empty, contains, push, pop, peek_id, peek_key, key, change_priority, remove,
}
use ka_min_par.Bipartition.Greedy.{gain_comparator}
use ka_min_par.Marker.{get, mark}
use ka_min_par.Chunks.{chunk_offsets, chunk_nodes}
use ka_min_par.Graph.{Graph, n, edge_weight, edge_target, first_edge, first_invalid_edge}
use ka_min_par.Graph.Validate.{degree_at}
use ka_min_par.Partition.{PartitionedGraph, block, set_block}
use ka_min_par.Metrics.{edge_cut_seq, total_overload}
use ka_min_par.Refiner.{◌+ℤ◌, Options, Round, queue_of, with_queue, max_overload_block, is_accepted}

-- The weight of the edges of `u`.
abbrev pub weighted_degree : Graph → ℕ → ℕ
weighted_degree g u =
    for_between (first_edge g u) (first_invalid_edge g u) (λ e acc. acc + edge_weight g e) 0

unfoldable pub init_weighted_degrees : Graph → List ℕ → List ℕ
init_weighted_degrees g degrees = for_below (n g) (λ u l. set l u (weighted_degree g u)) degrees

-- `weighted_external_degree` of compute_gain_from_scratch
abbrev pub external_degree : PartitionedGraph → ℕ → ℕ
external_degree p u =
    for_between (first_edge p.graph u) (first_invalid_edge p.graph u)
      (λ e acc.
        acc + (if block p (edge_target p.graph e) == block p u then 0 else edge_weight p.graph e))
      0

unfoldable pub compute_gain_from_scratch : PartitionedGraph → List ℕ → ℕ → ℤ
compute_gain_from_scratch p degrees u =
    minus (get_or degrees u 0) (external_degree p u) -ℤ ℤ.pos (external_degree p u)

unfoldable pub insert_node : Round → ℕ → Option Round
insert_node r u =
    let gain = compute_gain_from_scratch r.p r.weighted_degrees u in
    let b = block r.p u in
    if eqb_ℤ (ℤ.pos (get_or r.weighted_degrees u 0)) gain
    then some r
    else push (queue_of r b) u gain >>= λ q. some (with_queue r b q)

abbrev pub insert_nodes : Round → List ℕ → Option Round
insert_nodes r [] = some r
insert_nodes r (u ∷ nodes) =
    (if ltb u (n r.p.graph) then insert_node r u else some r) >>= λ t. insert_nodes t nodes

-- init_pq, with chunks of kChunkSize nodes
unfoldable pub init_pq : (List ℕ → List ℕ) → (ℕ → List ℕ) → Round → Option Round
init_pq shuffle permutation r =
    assert (is_empty r.queue_0 && is_empty r.queue_1) (
      insert_nodes r
        (chunk_nodes permutation (shuffle (chunk_offsets 0 64 (n r.p.graph / 64 + 1)))))

-- The new queue of an unmarked neighbor `v` in block `b`, when its loss changes by `loss_delta`.
unfoldable pub update_queue : BinaryHeap ℤ → ℕ → ℕ → ℤ → Option (BinaryHeap ℤ)
update_queue q v degree loss_delta =
    if contains q v
    then key q v >>= (λ loss.
      let new_loss = loss +ℤ loss_delta in
      if ltb_ℤ new_loss (ℤ.pos degree) then change_priority q v new_loss else remove q v)
    else push q v (ℤ.pos degree +ℤ loss_delta)

-- The body of the loop over the neighbors of a node that has moved to block `to`.
unfoldable pub update_neighbor : ℕ → ℕ → Round → Option Round
update_neighbor to e r =
    let v = edge_target r.p.graph e in
    let v_block = block r.p v in
    let w = 2 * edge_weight r.p.graph e in
    if get 1 r.marker v 0
    then some r
    else update_queue (queue_of r v_block) v (get_or r.weighted_degrees v 0)
        (if to == v_block then ℤ.pos w else minus 0 w)
      >>= λ q. some (with_queue r v_block q)

abbrev pub update_neighbors : ℕ → ℕ → ℕ → Round → Option Round
update_neighbors to e zero r = some r
update_neighbors to e (suc count) r =
    update_neighbor to e r >>= λ t. update_neighbors to (e + 1) count t

-- The block from which a node moves: the one selected, or the other if its queue is empty.
unfoldable pub active_block : Options → Round → Bool → Option ℕ
active_block o r coin = max_overload_block o r coin >>= λ selected.
    some (if is_empty (queue_of r selected) then 1 - selected else selected)

-- The first part of the loop's body: the best node of block `from` is marked and moved. The cut at
-- the start of the round is that of the assertion.
unfoldable pub move_best : Options → ℕ → ℕ → Round → Option (ℕ × Round)
move_best o initial_edge_cut from r =
    let queue = queue_of r from in
    peek_id queue >>= λ u. peek_key queue >>= λ delta. assert (not (get 1 r.marker u 0)) (
      assert (from == block r.p u) (
        pop queue >>= λ popped. set_block r.p u (1 - from) >>= λ p. edge_cut_seq p >>= λ cut.
        let current_delta = r.current_delta +ℤ delta in
        assert (eqb_ℤ (ℤ.pos initial_edge_cut +ℤ current_delta) (ℤ.pos cut)) (
          some (
            u,
            record (with_queue r from popped) {
              marker = mark 1 r.marker u 0;
              p = p;
              current_delta = current_delta;
              moves = r.moves ++ u ∷ [];
              num_steps = r.num_steps + 1;
              current_overload = total_overload p o.limit;
            },
          ))))

-- The end of the loop's body: the state is accepted, or not.
unfoldable pub accept : Round → Round
accept r =
    if is_accepted r
    then record r {
      num_steps = 0;
      accepted_delta = r.current_delta;
      accepted_overload = r.current_overload;
      moves = [];
    }
    else r

-- The loop's body.
unfoldable pub step : Options → Bool → ℕ → Round → Option Round
step o coin initial_edge_cut r = active_block o r coin >>= λ from.
    move_best o initial_edge_cut from r >>= λ moved.
    let u = moved.0 in
    update_neighbors (1 - from) (first_edge r.p.graph u) (degree_at r.p.graph u) moved.1 >>= λ t.
    some (accept t)
