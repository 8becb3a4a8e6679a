-- ===== src/BinaryHeap.antt =====
-- BinaryHeap of kaminpar/datastructure/binary_heap.h: a priority queue of fixed capacity over the
-- ids below it. `id_pos` says where an id stands in the heap, or kInvalidID. A failed assertion is
-- the fault `none`; the rest of each operation follows its assertions in the order of the source.
pub mod Located
pub mod Sift
pub mod Update
pub mod Remove
mod Tests
use ka_min_par.Prelude.{
  ℕ, zero, suc, ◌+◌, ◌-◌, ◌^◌, Bool, true, false, not, ◌&&◌, ◌||◌, Option, none, some, List, [],
  ◌∷◌, ◌++◌, ◌==◌, ltb, if◌then◌else◌, length, take, replicate, get_or, set, assert, ◌>>=◌,
}
use ka_min_par.Heap.{
  Comparator, HeapElement, at, key_at, no_element, swap, parent, first_child, smallest_child,
}

-- kInvalidID: the largest std::size_t.
abbrev pub invalid_id : ℕ
invalid_id = 2 ^ 64 - 1

pub record BinaryHeap (K : Type 0) : Type 0 where
  pub id_pos : List ℕ
  pub heap : List (HeapElement K)
  pub size : ℕ

module _ {K : Type 0} where
  abbrev pub capacity : BinaryHeap K → ℕ
  capacity h = length h.heap

  abbrev pub pos_of : BinaryHeap K → ℕ → ℕ
  pos_of h id = get_or h.id_pos id invalid_id

  abbrev pub is_empty : BinaryHeap K → Bool
  is_empty h = h.size == 0

  -- contains without its assertion that the id is below the capacity
  abbrev pub contains : BinaryHeap K → ℕ → Bool
  contains h id = not (pos_of h id == invalid_id)

-- std::vector::resize: cut, or filled up with `v`.
unfoldable pub resize_vector {ℓ} : {A : Type ℓ} → ℕ → A → List A → List A
resize_vector n v xs = take n xs ++ replicate (n - length xs) v

module _ {K : Type 0} ⦃cmp : Comparator K⦄ where
  unfoldable pub construct : ℕ → BinaryHeap K
  construct n = record { id_pos = replicate n invalid_id; heap = replicate n no_element; size = 0 }

  unfoldable pub key : BinaryHeap K → ℕ → Option K
  key h id = assert (contains h id) (some (key_at h.heap (pos_of h id)))

  unfoldable pub peek_id : BinaryHeap K → Option ℕ
  peek_id h = assert (not (is_empty h)) (some (at h.heap 0).id)

  unfoldable pub peek_key : BinaryHeap K → Option K
  peek_key h = assert (not (is_empty h)) (some (at h.heap 0).key)

  -- The two swaps of the loops: of the elements, then of the positions of their ids.
  unfoldable pub swap_at : BinaryHeap K → ℕ → ℕ → BinaryHeap K
  unfolding swap
  swap_at h i j =
      let moved = swap h.heap i j in
      let x = (at moved i).id in
      let y = (at moved j).id in
      record h { heap = moved; id_pos = set (set h.id_pos x (pos_of h y)) y (pos_of h x) }

  unfoldable pub rise : BinaryHeap K → ℕ → BinaryHeap K
  rise h pos =
      if cmp.below (key_at h.heap (parent pos)) (key_at h.heap pos)
      then swap_at h pos (parent pos)
      else h

  unfoldable pub sift_up_loop : ℕ → BinaryHeap K → ℕ → BinaryHeap K
  sift_up_loop zero h pos = h
  sift_up_loop (suc fuel) h pos =
      let rest = sift_up_loop fuel (rise h pos) (parent pos) in if pos == 0 then h else rest

  unfoldable pub sift_up : BinaryHeap K → ℕ → BinaryHeap K
  unfolding sift_up_loop rise swap_at
  sift_up h pos = sift_up_loop pos h pos

  unfoldable pub sift_down_loop : ℕ → BinaryHeap K → ℕ → BinaryHeap K
  sift_down_loop zero h pos = h
  sift_down_loop (suc fuel) h pos =
      let child = smallest_child h.size h.heap pos in
      let rest = sift_down_loop fuel (swap_at h pos child) child in
      if ltb (first_child pos) h.size
      then (if cmp.below (key_at h.heap child) (key_at h.heap pos)
            || cmp.same (key_at h.heap child) (key_at h.heap pos)
          then h
          else rest)
      else h

  unfoldable pub sift_down : BinaryHeap K → ℕ → BinaryHeap K
  unfolding sift_down_loop swap_at smallest_child
  sift_down h pos = sift_down_loop h.size h pos

  unfoldable pub push : BinaryHeap K → ℕ → K → Option (BinaryHeap K)
  push h id k =
      let placed : BinaryHeap K = record {
        heap = set h.heap h.size (record { id = id; key = k });
        id_pos = set h.id_pos id h.size;
        size = h.size + 1;
      } in
      assert (ltb id (capacity h)) (
        assert (not (contains h id))
          (assert (ltb h.size (capacity h)) (some (sift_up placed h.size))))

  unfoldable pub pop : BinaryHeap K → Option (BinaryHeap K)
  unfolding swap
  pop h =
      let last = h.size - 1 in
      let moved = swap h.heap 0 last in
      let emptied : BinaryHeap K = record {
        heap = moved;
        id_pos = set (set h.id_pos (at moved 0).id 0) (at moved last).id invalid_id;
        size = last;
      } in
      assert (not (is_empty h)) (some (sift_down emptied 0))

  -- `_heap[_id_pos[id]].key = new_key`
  unfoldable pub set_key : BinaryHeap K → ℕ → K → BinaryHeap K
  set_key h id k =
      let p = pos_of h id in
      record h { heap = set h.heap p (record { id = (at h.heap p).id; key = k }) }

  unfoldable pub decrease_priority : BinaryHeap K → ℕ → K → Option (BinaryHeap K)
  unfolding set_key
  decrease_priority h id k = assert (contains h id) (
      assert (cmp.below (key_at h.heap (pos_of h id)) k)
        (some (sift_up (set_key h id k) (pos_of h id))))

  unfoldable pub increase_priority : BinaryHeap K → ℕ → K → Option (BinaryHeap K)
  unfolding set_key
  increase_priority h id k = assert (contains h id) (
      assert (cmp.below k (key_at h.heap (pos_of h id)))
        (some (sift_down (set_key h id k) (pos_of h id))))

  unfoldable pub change_priority : BinaryHeap K → ℕ → K → Option (BinaryHeap K)
  unfolding key
  change_priority h id k = key h id >>= λ old.
      if cmp.below k old
      then increase_priority h id k
      else if cmp.below old k
      then decrease_priority h id k
      else some h

  unfoldable pub push_or_change_priority : BinaryHeap K → ℕ → K → Option (BinaryHeap K)
  push_or_change_priority h id k = if contains h id then change_priority h id k else push h id k

  unfoldable pub remove : BinaryHeap K → ℕ → Option (BinaryHeap K)
  remove h id = assert (contains h id) (
      decrease_priority h id cmp.min_value >>= λ raised.
      pop raised >>= λ popped. assert (not (contains popped id)) (some popped))

  -- The loop of clear, from entry `i` on.
  unfoldable pub forget_ids : ℕ → ℕ → List (HeapElement K) → List ℕ → List ℕ
  forget_ids zero i a ids = ids
  forget_ids (suc rounds) i a ids = forget_ids rounds (i + 1) a (set ids (at a i).id invalid_id)

  unfoldable pub clear : BinaryHeap K → BinaryHeap K
  unfolding forget_ids
  clear h = record h { id_pos = forget_ids h.size 0 h.heap h.id_pos; size = 0 }

  unfoldable pub resize : BinaryHeap K → ℕ → Option (BinaryHeap K)
  unfolding resize_vector
  resize h n = assert (is_empty h) (
      some (record h {
        id_pos = resize_vector n invalid_id h.id_pos;
        heap = resize_vector n no_element h.heap;
      }))
