-- ===== src/DynamicHeap/Laws.antt =====
-- What the operations of DynamicBinaryHeap do to the bag of elements and to their order.
use mathlib.Core.List.{Perm, perm_middle, append-nil}
use mathlib.Core.List.Perm
use ka_min_par.Prelude.{
  take-append_last, get_or-take, length-take_le, ℕ, suc, ◌-◌, ◌<◌, ◌≡◌, ◌∙◌, false, some, List, [],
  ◌∷◌, ◌++◌, arith, length, take, length-append, get_or-append_left,
}
use ka_min_par.Heap.{Comparator, HeapElement, parent, at, key_at, no_element, swap, sift_down}
use ka_min_par.Heap.Order.{IsHeap, length-swap, key_at-swap, at-swap, swap-perm, root_top}
use ka_min_par.Heap.Up.{length-sift_up, UpInv, sift_up-IsHeap, sift_up-perm}
use ka_min_par.Heap.Down.{DownInv, sift_down-IsHeap, sift_down-perm, length-sift_down}
use ka_min_par.DynamicHeap.{push, pop, peek_id, peek_key}

module _ {ℓ} {K : Type ℓ} ⦃cmp : Comparator K⦄ where
  -- The invariant: the whole vector is a heap.
  abbrev pub IsValid : List (HeapElement K) → Type 0
  IsValid heap = IsHeap (length heap) heap

  append-perm : (a : List (HeapElement K)) (x : HeapElement K) → Perm (a ++ x ∷ []) (x ∷ a)
  append-perm a x = rw (append-nil a) at (perm_middle {a = x} a [])

  -- A new last element leaves only the edge above it.
  append-UpInv :
      (a : List (HeapElement K)) (x : HeapElement K)
      → IsValid a
      → UpInv (length (a ++ x ∷ [])) (a ++ x ∷ []) (length (a ++ x ∷ []) - 1)
  append-UpInv a x v =
      let size = length-append a (x ∷ []) in
      record {
        inside = omega (arith, size);
        fits = omega arith;
        edges = λ c p q r. ground (
          arith,
          size,
          v c,
          get_or-append_left a (x ∷ []) c no_element,
          get_or-append_left a (x ∷ []) (parent c) no_element,
        );
        bridged = λ c p q e r. absurd (omega (arith, size));
      }

  -- push keeps the heap order and adds exactly the new element.
  pub dynamic_push_correct :
      (id : ℕ) (key : K) (heap : List (HeapElement K))
      → IsValid heap
      → IsValid (push id key heap) × Perm (push id key heap) (record { id = id; key = key } ∷ heap)
  unfolding push
  dynamic_push_correct id key heap v =
      let x : HeapElement K = record { id = id; key = key } in
      let grown = heap ++ x ∷ [] in
      let inv = append-UpInv heap x v in
      let moved = sift_up-perm grown (length grown - 1) inv.inside in
      (
        rw (length-sift_up grown (length grown - 1))
            (sift_up-IsHeap (length grown) grown (length grown - 1) inv),
        Perm.trans moved (append-perm heap x),
      )

  -- Between the root and the last element, popping moves nothing before the loop.
  popped-key :
      (a : List (HeapElement K)) (last c : ℕ)
      → length a ≡ suc last
      → 0 < c
      → c < last
      → key_at (take last (swap a 0 last)) c ≡ key_at a c
  popped-key a last c e p q = ground (
    arith,
    get_or-take last (swap a 0 last) c no_element q,
    key_at-swap a 0 last (omega arith) (omega arith) c,
  )

  -- The last element in the place of the root leaves only the edges below it.
  popped-DownInv :
      (a : List (HeapElement K)) (last : ℕ)
      → length a ≡ suc last
      → IsValid a
      → DownInv last (take last (swap a 0 last)) 0
  popped-DownInv a last e v = record {
    fits = omega (
      arith,
      length-swap a 0 last,
      length-take_le last (swap a 0 last) (omega (arith, length-swap a 0 last)),
    );
    edges = λ c p q r. ground (
      arith,
      popped-key a last c e p q,
      popped-key a last (parent c) e (omega arith) (omega arith),
      v c p,
    );
    bridged = λ c p q t u. absurd (omega arith);
  }

  popped-perm :
      (a : List (HeapElement K)) (last : ℕ)
      → length a ≡ suc last
      → Perm (at a 0 ∷ take last (swap a 0 last)) a
  popped-perm a last e =
      let b = swap a 0 last in
      let end : at b last ≡ at a 0 =
        at-swap a 0 last (omega arith) (omega arith) last ∙ ground arith in
      let whole : take last b ++ at b last ∷ [] ≡ b =
        take-append_last last b no_element (omega (arith, length-swap a 0 last)) in
      Perm.trans (Perm.symm (append-perm (take last b) (at a 0)))
        (rw (← end, whole) (swap-perm a 0 last (omega arith) (omega arith)))

  -- pop of a heap that is not empty returns a valid heap of exactly the elements without the one
  -- that the peeks return, above which no element of the heap lies.
  pub dynamic_pop_correct :
      (heap : List (HeapElement K))
      → IsValid heap
      → (i : ℕ) → i < length heap
      → (rest : List (HeapElement K)) × (pop heap ≡ some rest)
        × (peek_id heap ≡ some (at heap 0).id)
        × (peek_key heap ≡ some (at heap 0).key)
        × IsValid rest
        × Perm (at heap 0 ∷ rest) heap
        × (cmp.below (key_at heap 0) (key_at heap i) ≡ false)
  unfolding pop peek_id peek_key
  dynamic_pop_correct heap v i p =
      let last = length heap - 1 in
      let s = take last (swap heap 0 last) in
      let size : length heap ≡ suc last = omega arith in
      let short : length s ≡ last =
        length-take_le last (swap heap 0 last) (omega (arith, length-swap heap 0 last)) in
      (
        sift_down (length s) s 0,
        ground arith,
        ground arith,
        ground arith,
        rw (length-sift_down (length s) s 0, short)
            (sift_down-IsHeap last s 0 (popped-DownInv heap last size v)),
        Perm.trans (Perm.cons _ (sift_down-perm (length s) s 0 (omega arith)))
            (popped-perm heap last size),
        root_top (length heap) heap i p v,
      )
