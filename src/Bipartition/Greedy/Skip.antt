-- ===== src/Bipartition/Greedy/Skip.antt =====
-- What the test on the moved node does to the growth of a block.
use ka_min_par.Prelude.{
  ℕ, zero, suc, ◌+◌, ◌-◌, ◌<◌, ◌≡◌, ◌≢◌, refl, ◌∙◌, ap, inl, inr, some, arith, true, false, ◌==◌,
  ==_refl, leb, if◌then◌else◌, Bool-cases, length, set, get_or, get_or-set,
}
use ka_min_par.Prelude.Int.{ℤ, eqb_ℤ}
use ka_min_par.Prelude.Histogram.{add_at}
use ka_min_par.Heap.{at}
use ka_min_par.BinaryHeap.{
  BinaryHeap, pos_of, invalid_id, is_empty, contains, push, pop, peek_id, peek_key,
}
use ka_min_par.BinaryHeap.Located.{lookup}
use ka_min_par.BinaryHeap.Update.{IsValid, push_correct}
use ka_min_par.BinaryHeap.Remove.{pop_correct}
use ka_min_par.Marker.{mark_tracked}
use ka_min_par.Graph.{Graph, n, node_weight, first_edge}
use ka_min_par.Graph.Validate.{degree_at}
use ka_min_par.Partition.{invalid_block_id}
use ka_min_par.Bipartition.{Bipartition, block_of, weight_of, change_block}
use ka_min_par.Bipartition.Greedy.{
  gain_comparator, Growing, compute_negative_gain, visit_neighbor, visit_neighbors, grow, grow_from,
}

eqb_ℤ_refl : (a : ℤ) → eqb_ℤ a a ≡ true
eqb_ℤ_refl (ℤ.pos n) = ==_refl n
eqb_ℤ_refl (ℤ.negsuc n) = ==_refl n

some_injective : {a b : ℤ} → some a ≡ some b → a ≡ b
some_injective e = cc

module _ (g : Graph) (perfect : ℕ → ℕ) where
  -- After a node was moved to block 1, the loop over its neighbors changes nothing: the test that
  -- should skip neighbors in block 1 looks at the moved node itself, so that no neighbor is queued.
  pub visit_neighbors_skips :
      (u e count : ℕ) (s : Growing)
      → block_of s.base u ≡ 1
      → visit_neighbors g perfect u e count s ≡ some s
  unfolding visit_neighbor
  visit_neighbors_skips u e zero s h = refl
  visit_neighbors_skips u e (suc count) s h =
      let moved : (block_of s.base u == 1) ≡ true = ground arith in
      rw moved (visit_neighbors_skips u (e + 1) count s h)

  module _ (s : Growing) (start : ℕ) (v : IsValid s.queue) (empty : s.queue.size ≡ 0)
      (room : start < length s.queue.heap) (node : start < length s.base.partition)
      (first : block_of s.base start ≡ 0) where
    absent : contains s.queue start ≡ false
    absent = ground (arith, v.located.present start)

    -- The base after the start node was moved.
    abbrev moved_base : Bipartition
    moved_base = record {
      partition = set s.base.partition start 1;
      block_weights =
          set (add_at s.base.block_weights 1 (node_weight g start)) 0 (
            get_or (add_at s.base.block_weights 1 (node_weight g start)) 0 0 - node_weight g start);
    }

    change_block-moved_base : change_block g perfect s.base start 1 ≡ some moved_base
    unfolding change_block
    change_block-moved_base =
        let assigned : (block_of s.base start == invalid_block_id) ≡ false = ground arith in
        rw assigned refl

    blocks_moved : (x : ℕ) → block_of moved_base x ≡ (if start == x then 1 else block_of s.base x)
    blocks_moved x = get_or-set s.base.partition start x 1 invalid_block_id node

    abbrev gain : ℤ
    gain = compute_negative_gain g perfect s.base start

    -- The start node is pushed, peeked and popped.
    record Popped (q p : BinaryHeap ℤ) : Type 0 where
      pushed : push s.queue start gain ≡ some q
      left : is_empty q ≡ false
      id : peek_id q ≡ some start
      key : peek_key q ≡ some gain
      popped : pop q ≡ some p
      valid : IsValid p
      none_left : p.size ≡ 0

    queue_once : (q : BinaryHeap ℤ) × (p : BinaryHeap ℤ) × Popped q p
    queue_once =
        let (q, pushed, valid, size, updates) =
          push_correct s.queue start gain v (omega (arith, empty, room)) room absent in
        let mine : lookup q start ≡ some gain = ground (arith, updates start, ==_refl start) in
        let known : pos_of q start ≢ invalid_id = ground (arith, mine) in
        let there = valid.located.present start known in
        let at_root : pos_of q start ≡ 0 = omega (arith, there.0, size, empty) in
        let root : (at q.heap 0).id ≡ start = rw at_root at there.1 in
        let (p, popped, id, key, valid', size', _, _) =
          pop_correct q valid (omega (arith, size)) 0 (omega (arith, size)) in
        (
          q,
          p,
          record {
            pushed = pushed;
            left = ground (arith, size);
            id = rw root at id;
            key = key ∙ (ap (lookup q) root ∙ mine);
            popped = popped;
            valid = valid';
            none_left = omega (arith, size', size, empty);
          },
        )

    abbrev moved_state : BinaryHeap ℤ → Growing
    moved_state p = record {
      base = moved_base;
      queue = p;
      marker = mark_tracked 1 s.marker start 0;
    }

    -- An empty queue ends the growth.
    grow-empty : (fuel : ℕ) (t : Growing) → t.queue.size ≡ 0 → grow g perfect (suc fuel) t ≡ some t
    unfolding grow
    grow-empty fuel t h =
        let none_left : is_empty t.queue ≡ true = ground arith in rw none_left refl

    grow-once :
        (fuel : ℕ) (q p : BinaryHeap ℤ)
        → Popped q p
        → grow g perfect
            (suc (suc fuel))
            (record { base = s.base; queue = q; marker = mark_tracked 1 s.marker start 0 })
          ≡ some (moved_state p)
    unfolding grow
    grow-once fuel q p once =
        let there : block_of moved_base start ≡ 1 =
          ground (arith, blocks_moved start, ==_refl start) in
        let skip =
          visit_neighbors_skips start (first_edge g start) (degree_at g start) (moved_state p)
            there in
        let done = grow-empty fuel (moved_state p) once.none_left in
        rw (once.left, once.id, once.key, eqb_ℤ_refl gain, once.popped, change_block-moved_base)
          (elim (Bool-cases (leb (perfect 1) (weight_of moved_base 1))) [
            | inl heavy ↦ rw heavy refl
            | inr light ↦ rw (light, skip) done
          ])

    -- A round of the greedy growing from a start node in block 0, with an empty queue, moves that
    -- node to block 1 and no other node, and leaves the queue empty again.
    pub grow_from_alone :
        (x : ℕ)
        → 0 < n g
        → (t : Growing) × (grow_from g perfect start s ≡ some t)
          × IsValid t.queue
          × (t.queue.size ≡ 0)
          × (block_of t.base x ≡ (if start == x then 1 else block_of s.base x))
    unfolding grow_from
    grow_from_alone x nonempty =
        let (q, p, once) = queue_once in
        let fuel : n g + 1 ≡ suc (suc (n g - 1)) = omega arith in
        (
          moved_state p,
          rw (once.pushed, fuel) (grow-once (n g - 1) q p once),
          once.valid,
          once.none_left,
          blocks_moved x,
        )
