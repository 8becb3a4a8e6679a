-- ===== src/DynamicHeap.antt =====
-- DynamicBinaryHeap of kaminpar/datastructure/binary_heap.h: a priority queue that grows, whose
-- elements cannot be addressed. Reading or popping an empty heap is the fault `none`: an assertion
-- for the peeks, undefined behaviour for `pop`.
pub mod Laws
mod Tests
use ka_min_par.Prelude.{
  ℕ, zero, suc, ◌+◌, ◌-◌, Bool, true, false, not, Option, none, some, List, [], ◌∷◌, ◌++◌, ◌==◌,
  length, take, assert,
}
use ka_min_par.Heap.{Comparator, HeapElement, at, swap, sift_up, sift_down}

module _ {ℓ} {K : Type ℓ} ⦃cmp : Comparator K⦄ where
  -- `_heap` is the whole state.
  unfoldable pub size : List (HeapElement K) → ℕ
  size heap = length heap

  unfoldable pub empty : List (HeapElement K) → Bool
  empty heap = length heap == 0

  pub clear : List (HeapElement K) → List (HeapElement K)
  clear heap = []

  unfoldable pub push : ℕ → K → List (HeapElement K) → List (HeapElement K)
  push id key heap =
      let grown = heap ++ record { id = id; key = key } ∷ [] in sift_up grown (length grown - 1)

  unfoldable pub peek_id : List (HeapElement K) → Option ℕ
  unfolding empty
  peek_id heap = assert (not (empty heap)) (some (at heap 0).id)

  unfoldable pub peek_key : List (HeapElement K) → Option K
  unfolding empty
  peek_key heap = assert (not (empty heap)) (some (at heap 0).key)

  unfoldable pub pop : List (HeapElement K) → Option (List (HeapElement K))
  unfolding empty
  pop heap =
      let shorter = take (length heap - 1) (swap heap 0 (length heap - 1)) in
      assert (not (empty heap)) (some (sift_down (length shorter) shorter 0))
