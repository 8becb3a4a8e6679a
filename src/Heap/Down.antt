-- ===== src/Heap/Down.antt =====
-- The loop `sift_down` restores the heap order below one element.
use mathlib.Core.List.{Perm}
use mathlib.Core.List.Perm
use ka_min_par.Prelude.{
  true, true, true, true, true, true, ℕ, zero, suc, ◌+◌, ◌-◌, ◌≤◌, ◌<◌, ◌≡◌, ◌≢◌, refl, inl, inr,
  true, false, ◌||◌, List, arith, ltb, length, Bool-cases,
}
use ka_min_par.Heap.{
  Comparator, HeapElement, parent, first_child, child_end, key_at, swap, scan_children,
  smallest_child, sift_down_loop, sift_down,
}
use ka_min_par.Heap.Order.{
  same_not_below, IsHeap, length-swap, below_irrefl, key_at-swap, swap-perm,
}

module _ {ℓ} {K : Type ℓ} ⦃cmp : Comparator K⦄ where
  -- Only the edges below `i` may be out of order, and the edges around `i` are in order without it.
  pub record DownInv (n : ℕ) (a : List (HeapElement K)) (i : ℕ) : Type 0 where
    pub fits : n ≤ length a
    pub edges :
        (c : ℕ)
        → 0 < c
        → c < n
        → parent c ≢ i
        → cmp.below (key_at a (parent c)) (key_at a c) ≡ false
    pub bridged :
        (c : ℕ)
        → 0 < c
        → c < n
        → parent c ≡ i
        → 0 < i
        → cmp.below (key_at a (parent i)) (key_at a c) ≡ false

  -- `m` is a position in [lo, hi) below none of which the entries of that range lie.
  record IsTop (a : List (HeapElement K)) (lo hi m : ℕ) : Type 0 where
    from : lo ≤ m
    before : m < hi
    top : (c : ℕ) → lo ≤ c → c < hi → cmp.below (key_at a m) (key_at a c) ≡ false

  scan_children-IsTop :
      (rounds lo c hi : ℕ) (a : List (HeapElement K)) (m : ℕ)
      → c + rounds ≡ hi
      → IsTop a lo c m
      → IsTop a lo hi (scan_children rounds c a m)
  unfolding scan_children
  scan_children-IsTop zero lo c hi a m e t = record {
    from = t.from;
    before = omega (arith, t.before);
    top = λ d p q. t.top d p (omega arith);
  }
  scan_children-IsTop (suc rounds) lo c hi a m e t =
      elim (Bool-cases (cmp.below (key_at a m) (key_at a c))) [
        | inl better ↦ rw better (
            scan_children-IsTop rounds lo (c + 1) hi a c (omega arith) (record {
              from = omega (arith, t.from, t.before);
              before = omega arith;
              top = λ d p q. ground (
                arith,
                t.top d p,
                below_irrefl (key_at a c),
                cmp.asymmetric (key_at a m) (key_at a c) better,
                cmp.negatively_transitive (key_at a c) (key_at a m) (key_at a d),
              );
            }))
        | inr kept ↦ rw kept (
            scan_children-IsTop rounds lo (c + 1) hi a m (omega arith) (record {
              from = t.from;
              before = omega (arith, t.before);
              top = λ d p q. ground (arith, t.top d p);
            }))
      ]

  -- `m` is the child of `i` that no other child of `i` lies above.
  pub record IsTopChild (n : ℕ) (a : List (HeapElement K)) (i m : ℕ) : Type 0 where
    pub inside : m < n
    pub child : parent m ≡ i
    pub deeper : i < m
    pub top : (c : ℕ) → 0 < c → c < n → parent c ≡ i → cmp.below (key_at a m) (key_at a c) ≡ false

  pub smallest_child-IsTopChild :
      (n : ℕ) (a : List (HeapElement K)) (i : ℕ)
      → first_child i < n
      → IsTopChild n a i (smallest_child n a i)
  unfolding smallest_child
  smallest_child-IsTopChild n a i h =
      let t =
        scan_children-IsTop (child_end n i - (first_child i + 1)) (first_child i)
          (first_child i + 1) (child_end n i) a (first_child i) (omega arith)
          (record {
            from = omega arith;
            before = omega arith;
            top = λ d p q.
                let same : d ≡ first_child i = omega arith in
                rw same (below_irrefl (key_at a (first_child i)));
          }) in
      record {
        inside = omega (arith, t.before);
        child = omega (arith, t.from, t.before);
        deeper = omega (arith, t.from);
        top = λ c p q e. t.top c (omega arith) (omega arith);
      }

  swap-DownInv :
      (n : ℕ) (a : List (HeapElement K)) (i m : ℕ)
      → DownInv n a i
      → IsTopChild n a i m
      → cmp.below (key_at a i) (key_at a m) ≡ true
      → DownInv n (swap a i m) m
  swap-DownInv n a i m v s lower =
      let hm : m < length a = omega (arith, s.inside, v.fits) in
      let hi : i < length a = omega (arith, s.deeper) in
      let now = key_at-swap a i m hi hm in
      let upper : cmp.below (key_at a m) (key_at a i) ≡ false =
        cmp.asymmetric (key_at a i) (key_at a m) lower in
      record {
        fits = omega (arith, v.fits, length-swap a i m);
        edges = λ c q r other. ground (
          arith,
          now c,
          now (parent c),
          s.child,
          s.deeper,
          upper,
          v.edges c q r,
          v.bridged c q r,
          v.bridged m,
          s.top c q r,
          s.inside,
        );
        bridged =
            λ c q r e t. ground (arith, now c, now (parent m), s.child, s.deeper, v.edges c q r);
      }

  -- The heap is in order where the loop stops.
  settled-IsHeap :
      (n : ℕ) (a : List (HeapElement K)) (i m : ℕ)
      → DownInv n a i
      → IsTopChild n a i m
      → cmp.below (key_at a m) (key_at a i) || cmp.same (key_at a m) (key_at a i) ≡ true
      → IsHeap n a
  settled-IsHeap n a i m v s h c p q = ground (
    arith,
    v.edges c p q,
    s.top c p q,
    cmp.asymmetric (key_at a m) (key_at a i),
    same_not_below (key_at a m) (key_at a i),
    cmp.negatively_transitive (key_at a i) (key_at a m) (key_at a c),
  )

  length-sift_down_loop :
      (fuel n : ℕ) (a : List (HeapElement K)) (i : ℕ)
      → length (sift_down_loop fuel n a i) ≡ length a
  unfolding sift_down_loop
  length-sift_down_loop zero n a i = refl
  length-sift_down_loop (suc fuel) n a i =
      let m = smallest_child n a i in
      ground (arith, length-sift_down_loop fuel n (swap a i m) m, length-swap a i m)

  pub length-sift_down :
      (n : ℕ) (a : List (HeapElement K)) (i : ℕ) → length (sift_down n a i) ≡ length a
  unfolding sift_down
  length-sift_down n a i = length-sift_down_loop n n a i

  sift_down_loop-IsHeap :
      (fuel n : ℕ) (a : List (HeapElement K)) (i : ℕ)
      → n ≤ i + fuel
      → DownInv n a i
      → IsHeap n (sift_down_loop fuel n a i)
  unfolding sift_down_loop
  sift_down_loop-IsHeap zero n a i h v = λ c p q. v.edges c p q (omega arith)
  sift_down_loop-IsHeap (suc fuel) n a i h v =
      let m = smallest_child n a i in
      elim (Bool-cases (ltb (first_child i) n)) [
        | inl more ↦
            let s = smallest_child-IsTopChild n a i (ground arith) in
            elim (Bool-cases
              (cmp.below (key_at a m) (key_at a i) || cmp.same (key_at a m) (key_at a i))) [
                | inl stop ↦ rw (more, stop) (settled-IsHeap n a i m v s stop)
                | inr go ↦
                    rw (more, go)
                      (sift_down_loop-IsHeap fuel n (swap a i m) m (omega (arith, s.deeper)) (
                        swap-DownInv n a i m v s
                          (cmp.connected (key_at a m) (key_at a i) (ground arith) (ground arith))))
              ]
        | inr leaf ↦ rw leaf (λ c p q. v.edges c p q (ground arith))
      ]

  -- sift_down turns entries with one element too high in the tree into a heap.
  pub sift_down-IsHeap :
      (n : ℕ) (a : List (HeapElement K)) (i : ℕ) → DownInv n a i → IsHeap n (sift_down n a i)
  unfolding sift_down
  sift_down-IsHeap n a i v = sift_down_loop-IsHeap n n a i (omega arith) v

  sift_down_loop-perm :
      (fuel n : ℕ) (a : List (HeapElement K)) (i : ℕ)
      → n ≤ length a
      → Perm (sift_down_loop fuel n a i) a
  unfolding sift_down_loop
  sift_down_loop-perm zero n a i h = Perm.refl a
  sift_down_loop-perm (suc fuel) n a i h =
      let m = smallest_child n a i in
      elim (Bool-cases (ltb (first_child i) n)) [
        | inl more ↦
            let s = smallest_child-IsTopChild n a i (ground arith) in
            elim (Bool-cases
              (cmp.below (key_at a m) (key_at a i) || cmp.same (key_at a m) (key_at a i))) [
                | inl stop ↦ rw (more, stop) (Perm.refl a)
                | inr go ↦
                    rw (more, go)
                      (Perm.trans
                        (sift_down_loop-perm fuel n (swap a i m) m
                          (omega (arith, length-swap a i m)))
                        (swap-perm a i m (omega (arith, s.deeper, s.inside))
                          (omega (arith, s.inside))))
              ]
        | inr leaf ↦ rw leaf (Perm.refl a)
      ]

  -- sift_down only moves elements.
  pub sift_down-perm :
      (n : ℕ) (a : List (HeapElement K)) (i : ℕ) → n ≤ length a → Perm (sift_down n a i) a
  unfolding sift_down
  sift_down-perm n a i h = sift_down_loop-perm n n a i h
