-- ===== src/Heap/Up.antt =====
-- The loop `sift_up` restores the heap order above one element.
use mathlib.Core.List.{Perm}
use mathlib.Core.List.Perm
use ka_min_par.Prelude.{
  ℕ, zero, suc, ◌≤◌, ◌<◌, ◌≡◌, ◌≢◌, refl, inl, inr, true, false, List, arith, ◌==◌, length,
  Bool-cases,
}
use ka_min_par.Heap.{Comparator, HeapElement, parent, key_at, swap, rise, sift_up_loop, sift_up}
use ka_min_par.Heap.Order.{IsHeap, length-swap, key_at-swap, swap-perm}

module _ {ℓ} {K : Type ℓ} ⦃cmp : Comparator K⦄ where
  -- Only the edge above `i` may be out of order, and the edges around `i` are in order without it.
  pub record UpInv (n : ℕ) (a : List (HeapElement K)) (i : ℕ) : Type 0 where
    pub inside : i < n
    pub fits : n ≤ length a
    pub edges :
        (c : ℕ) → 0 < c → c < n → c ≢ i → cmp.below (key_at a (parent c)) (key_at a c) ≡ false
    pub bridged :
        (c : ℕ)
        → 0 < c
        → c < n
        → parent c ≡ i
        → 0 < i
        → cmp.below (key_at a (parent i)) (key_at a c) ≡ false

  IsHeap-UpInv :
      (n : ℕ) (a : List (HeapElement K)) (i : ℕ) → i < n → n ≤ length a → IsHeap n a → UpInv n a i
  IsHeap-UpInv n a i hi hn h = record {
    inside = hi;
    fits = hn;
    edges = λ c p q _. h c p q;
    bridged =
        λ c p q e r. cmp.negatively_transitive _ (key_at a i) _ (h i r hi) (ground (arith, h c));
  }

  -- A swap with a parent that lies below moves the only disorder to the parent.
  swap-UpInv :
      (n : ℕ) (a : List (HeapElement K)) (i : ℕ)
      → 0 < i
      → cmp.below (key_at a (parent i)) (key_at a i) ≡ true
      → UpInv n a i
      → UpInv n (swap a i (parent i)) (parent i)
  swap-UpInv n a i pos lower v =
      let p = parent i in
      let hi : i < length a = omega (arith, v.inside, v.fits) in
      let hp : p < length a = omega (arith, v.inside, v.fits) in
      let now = key_at-swap a i p hi hp in
      let upper : cmp.below (key_at a i) (key_at a p) ≡ false =
        cmp.asymmetric (key_at a p) (key_at a i) lower in
      record {
        inside = omega (arith, v.inside);
        fits = omega (arith, v.fits, length-swap a i p);
        edges = λ c q r other. ground (
          arith,
          now c,
          now (parent c),
          upper,
          v.edges c q r,
          v.bridged c q r,
          cmp.negatively_transitive (key_at a i) (key_at a p) (key_at a c),
        );
        bridged = λ c q r e t. ground (
          arith,
          now c,
          now (parent p),
          v.edges c q r,
          v.edges p t,
          cmp.negatively_transitive (key_at a (parent p)) (key_at a p) (key_at a c),
        );
      }

  -- A round of the loop moves the only disorder to the parent.
  rise-UpInv :
      (n : ℕ) (a : List (HeapElement K)) (i : ℕ)
      → 0 < i
      → UpInv n a i
      → UpInv n (rise a i) (parent i)
  unfolding rise
  rise-UpInv n a i pos v = elim (Bool-cases (cmp.below (key_at a (parent i)) (key_at a i))) [
    | inl lower ↦ rw lower (swap-UpInv n a i pos lower v)
    | inr settled ↦ rw settled (
        IsHeap-UpInv n a (parent i) (omega (arith, v.inside)) v.fits
          λ c q r. ground (arith, v.edges c q r))
  ]

  length-rise : (a : List (HeapElement K)) (i : ℕ) → length (rise a i) ≡ length a
  unfolding rise
  length-rise a i = ground (arith, length-swap a i (parent i))

  pub length-sift_up_loop :
      (fuel : ℕ) (a : List (HeapElement K)) (i : ℕ) → length (sift_up_loop fuel a i) ≡ length a
  unfolding sift_up_loop
  length-sift_up_loop zero a i = refl
  length-sift_up_loop (suc fuel) a i =
      ground (arith, length-sift_up_loop fuel (rise a i) (parent i), length-rise a i)

  pub length-sift_up : (a : List (HeapElement K)) (i : ℕ) → length (sift_up a i) ≡ length a
  unfolding sift_up
  length-sift_up a i = length-sift_up_loop i a i

  sift_up_loop-IsHeap :
      (fuel n : ℕ) (a : List (HeapElement K)) (i : ℕ)
      → i ≤ fuel
      → UpInv n a i
      → IsHeap n (sift_up_loop fuel a i)
  unfolding sift_up_loop
  sift_up_loop-IsHeap zero n a i h v = λ c p q. v.edges c p q (omega arith)
  sift_up_loop-IsHeap (suc fuel) n a i h v = elim (Bool-cases (i == 0)) [
    | inl root ↦ rw root (λ c p q. v.edges c p q (ground arith))
    | inr inner ↦ rw inner (
        sift_up_loop-IsHeap fuel n (rise a i) (parent i) (ground arith)
          (rise-UpInv n a i (ground arith) v))
  ]

  -- sift_up turns entries with one element too low in the tree into a heap.
  pub sift_up-IsHeap :
      (n : ℕ) (a : List (HeapElement K)) (i : ℕ) → UpInv n a i → IsHeap n (sift_up a i)
  unfolding sift_up
  sift_up-IsHeap n a i v = sift_up_loop-IsHeap i n a i (omega arith) v

  rise-perm : (a : List (HeapElement K)) (i : ℕ) → i < length a → Perm (rise a i) a
  unfolding rise
  rise-perm a i h = elim (Bool-cases (cmp.below (key_at a (parent i)) (key_at a i))) [
    | inl lower ↦ rw lower (swap-perm a i (parent i) h (omega arith))
    | inr settled ↦ rw settled (Perm.refl a)
  ]

  sift_up_loop-perm :
      (fuel : ℕ) (a : List (HeapElement K)) (i : ℕ) → i < length a → Perm (sift_up_loop fuel a i) a
  unfolding sift_up_loop
  sift_up_loop-perm zero a i h = Perm.refl a
  sift_up_loop-perm (suc fuel) a i h = elim (Bool-cases (i == 0)) [
    | inl root ↦ rw root (Perm.refl a)
    | inr inner ↦ rw inner (
        Perm.trans (sift_up_loop-perm fuel (rise a i) (parent i) (omega (arith, length-rise a i)))
          (rise-perm a i h))
  ]

  -- sift_up only moves elements.
  pub sift_up-perm : (a : List (HeapElement K)) (i : ℕ) → i < length a → Perm (sift_up a i) a
  unfolding sift_up
  sift_up-perm a i h = sift_up_loop-perm i a i h
