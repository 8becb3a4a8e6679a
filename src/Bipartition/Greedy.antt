-- ===== src/Bipartition/Greedy.antt =====
-- GreedyGraphGrowingBipartitioner of greedy_graph_growing_bipartitioner.cc: block 1 grows from random
-- start nodes until it is heavy enough. Random indices come from an argument, by their number.
pub mod Skip
use ka_min_par.Prelude.{
  ℕ, zero, suc, ◌+◌, ◌-◌, ◌*◌, ◌%◌, ◌^◌, Bool, true, false, not, ◌&&◌, Option, none, some, List, [],
  ◌∷◌, ltb, leb, ◌==◌, if◌then◌else◌, length, get_or, set, replicate, assert, ◌>>=◌,
}
use ka_min_par.Prelude.Int.{
  ℤ, minus, ◌-ℤ◌, ltb_ℤ, eqb_ℤ, eqb_ℤ_eq, ltb_ℤ_connected, ltb_ℤ_asymmetric,
  ltb_ℤ_negatively_transitive,
}
use ka_min_par.Prelude.Loops.{for_between}
use ka_min_par.Heap.{Comparator}
use ka_min_par.BinaryHeap.{
  BinaryHeap, is_empty, contains, push, pop, peek_id, peek_key, key, decrease_priority, clear,
}
use ka_min_par.Marker.{Marker, get, mark_tracked, first_unmarked_element, reset}
use ka_min_par.Graph.{
  Graph, n, node_weight, edge_weight, edge_target, first_edge, first_invalid_edge,
}
use ka_min_par.Graph.Validate.{degree_at}
use ka_min_par.Bipartition.{Bipartition, block_of, weight_of, change_block}

-- The comparator of BinaryMinHeap<Gain>, whose kMinValue is the smallest Gain of 32 bits.
instance abbrev pub gain_comparator : Comparator ℤ
gain_comparator = record {
  min_value = ℤ.negsuc (2 ^ 31 - 1);
  below = λ a b. ltb_ℤ b a;
  same = eqb_ℤ;
  out_of_range = ℤ.pos 0;
  asymmetric = λ a b. ltb_ℤ_asymmetric b a;
  negatively_transitive = λ a b c p q. ltb_ℤ_negatively_transitive c b a q p;
  connected = ltb_ℤ_connected;
  same_eq = eqb_ℤ_eq;
}

pub record Growing : Type 0 where
  pub base : Bipartition
  pub queue : BinaryHeap ℤ
  pub marker : Marker

-- decrease_priority_by of the queue
unfoldable pub decrease_priority_by : BinaryHeap ℤ → ℕ → ℤ → Option (BinaryHeap ℤ)
decrease_priority_by q id delta =
    assert (contains q id)
      (assert (ltb_ℤ (ℤ.pos 0) delta) (key q id >>= λ old. decrease_priority q id (old -ℤ delta)))

module _ (g : Graph) (perfect : ℕ → ℕ) where
  -- compute_negative_gain: the weight to the own block minus the weight to the other.
  unfoldable pub compute_negative_gain : Bipartition → ℕ → ℤ
  compute_negative_gain s u =
      minus
        (for_between (first_edge g u) (first_invalid_edge g u)
          (λ e acc.
            acc + (if block_of s u == block_of s (edge_target g e) then edge_weight g e else 0))
          0)
        (for_between (first_edge g u) (first_invalid_edge g u)
          (λ e acc.
            acc + (if block_of s u == block_of s (edge_target g e) then 0 else edge_weight g e))
          0)

  -- The body of the loop over the neighbors of `u`, for the edge `e`.
  unfoldable pub visit_neighbor : ℕ → ℕ → Growing → Option Growing
  visit_neighbor u e s =
      let v = edge_target g e in
      if block_of s.base u == 1
      then some s
      else assert (block_of s.base v == 0) (
          if get 1 s.marker v 0
          then assert (contains s.queue v) (
              decrease_priority_by s.queue v (ℤ.pos (2 * edge_weight g e)) >>= λ q. key q v >>= λ k.
              assert (eqb_ℤ k (compute_negative_gain s.base v)) (some (record s { queue = q })))
          else assert (not (contains s.queue v)) (
              push s.queue v (compute_negative_gain s.base v) >>= λ q.
              some (record s { queue = q; marker = mark_tracked 1 s.marker v 0 })))

  abbrev pub visit_neighbors : ℕ → ℕ → ℕ → Growing → Option Growing
  visit_neighbors u e zero s = some s
  visit_neighbors u e (suc count) s =
      visit_neighbor u e s >>= λ t. visit_neighbors u (e + 1) count t

  -- The inner loop, with `fuel` at least the number of nodes that can be queued, plus one.
  unfoldable pub grow : ℕ → Growing → Option Growing
  grow zero s = none
  grow (suc fuel) s =
      if is_empty s.queue
      then some s
      else peek_id s.queue >>= λ u. peek_key s.queue >>= λ k.
          (assert (eqb_ℤ k (compute_negative_gain s.base u)) (
            pop s.queue >>= λ q. change_block g perfect s.base u 1 >>= λ b.
            let moved : Growing = record s { queue = q; base = b } in
            if leb (perfect 1) (weight_of b 1)
            then some moved
            else visit_neighbors u (first_edge g u) (degree_at g u) moved >>= λ t. grow fuel t))

  -- Up to `attempts` random start nodes, until one is not marked; then the next random index.
  abbrev pub random_start : (ℕ → ℕ) → Marker → ℕ → ℕ → ℕ × ℕ
  random_start random m zero call = (0, call)
  random_start random m (suc attempts) call =
      let rest = random_start random m attempts (call + 1) in
      let start = random call % n g in
      if get 1 m start 0 && ltb 0 attempts then rest else (start, call + 1)

  unfoldable pub choose_start : (ℕ → ℕ) → Marker → ℕ → ℕ × ℕ
  choose_start random m call =
      let (start, next) = random_start random m 5 call in
      (if get 1 m start 0 then first_unmarked_element 1 m 0 else start, next)

  -- One round of the outer loop.
  unfoldable pub grow_from : ℕ → Growing → Option Growing
  unfolding grow
  grow_from start s = push s.queue start (compute_negative_gain s.base start) >>= λ q.
      grow (n g + 1) (record s { queue = q; marker = mark_tracked 1 s.marker start 0 })

  -- The outer loop, with at most one round for each node.
  unfoldable pub grow_all : (ℕ → ℕ) → ℕ → ℕ → Growing → Option Growing
  unfolding grow_from choose_start
  grow_all random zero call s = none
  grow_all random (suc fuel) call s =
      let (start, next) = choose_start random s.marker call in
      grow_from start s >>= λ t.
      if ltb (weight_of t.base 1) (perfect 1) then grow_all random fuel next t else some t

  -- bipartition_impl, over the queue and the marker of the memory context.
  unfoldable pub greedy_bipartition :
      (ℕ → ℕ) → BinaryHeap ℤ → Marker → Option (Bipartition × BinaryHeap ℤ × Marker)
  unfolding grow_all
  greedy_bipartition random queue marker =
      let all_in_first : Bipartition = record {
        partition = replicate (n g) 0;
        block_weights = g.total_node_weight ∷ 0 ∷ [];
      } in
      assert (ltb 0 (n g)) (
        grow_all random (n g) 0 (record { base = all_in_first; queue = queue; marker = marker })
        >>= λ t. some (t.base, clear t.queue, reset 1 t.marker))
