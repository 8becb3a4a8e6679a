-- ===== src/BinaryHeap/Sift.antt =====
-- The loops of BinaryHeap: on the heap they are those of Heap, and they keep the agreement with
-- `id_pos` and the map from ids to keys.
use ka_min_par.Prelude.{
  ℕ, zero, suc, ◌<◌, ◌≡◌, ◌∙◌, refl, inl, inr, ◌||◌, arith, ◌==◌, ltb, Bool-cases,
}
use ka_min_par.Heap
use ka_min_par.Heap.{Comparator, parent, first_child, key_at, smallest_child}
use ka_min_par.Heap.Order.{IsHeap}
use ka_min_par.Heap.Up.{UpInv, sift_up-IsHeap}
use ka_min_par.Heap.Down.{DownInv, smallest_child-IsTopChild, sift_down-IsHeap}
use ka_min_par.BinaryHeap.{
  BinaryHeap, swap_at, rise, sift_up_loop, sift_up, sift_down_loop, sift_down,
}
use ka_min_par.BinaryHeap.Located.{
  IsLocated, lookup, swap_at-heap, swap_at-size, swap_at-IsLocated, lookup-swap_at,
}

module _ {K : Type 0} ⦃cmp : Comparator K⦄ where
  -- `t` has the elements of `h`, in another order.
  pub record Rearranges (h t : BinaryHeap K) : Type 0 where
    pub located : IsLocated t
    pub same_size : t.size ≡ h.size
    pub same_keys : (id : ℕ) → lookup t id ≡ lookup h id

  Rearranges-refl : (h : BinaryHeap K) → IsLocated h → Rearranges h h
  Rearranges-refl h v = record { located = v; same_size = refl; same_keys = λ id. refl }

  Rearranges-trans : {h t u : BinaryHeap K} → Rearranges h t → Rearranges t u → Rearranges h u
  Rearranges-trans p q = record {
    located = q.located;
    same_size = q.same_size ∙ p.same_size;
    same_keys = λ id. q.same_keys id ∙ p.same_keys id;
  }

  swap_at-Rearranges :
      (h : BinaryHeap K) (i j : ℕ)
      → IsLocated h
      → i < h.size
      → j < h.size
      → Rearranges h (swap_at h i j)
  swap_at-Rearranges h i j v hi hj = record {
    located = swap_at-IsLocated h i j v hi hj;
    same_size = swap_at-size h i j;
    same_keys = lookup-swap_at h i j v hi hj;
  }

  rise-heap : (h : BinaryHeap K) (i : ℕ) → (rise h i).heap ≡ Heap.rise h.heap i
  unfolding rise Heap.rise
  rise-heap h i = elim (Bool-cases (cmp.below (key_at h.heap (parent i)) (key_at h.heap i))) [
    | inl lower ↦ rw lower (swap_at-heap h i (parent i))
    | inr settled ↦ rw settled
  ]

  rise-Rearranges : (h : BinaryHeap K) (i : ℕ) → IsLocated h → i < h.size → Rearranges h (rise h i)
  unfolding rise
  rise-Rearranges h i v hi =
      elim (Bool-cases (cmp.below (key_at h.heap (parent i)) (key_at h.heap i))) [
        | inl lower ↦ rw lower (swap_at-Rearranges h i (parent i) v hi (omega arith))
        | inr settled ↦ rw settled (Rearranges-refl h v)
      ]

  sift_up_loop-heap :
      (fuel : ℕ) (h : BinaryHeap K) (i : ℕ)
      → (sift_up_loop fuel h i).heap ≡ Heap.sift_up_loop fuel h.heap i
  unfolding sift_up_loop Heap.sift_up_loop
  sift_up_loop-heap zero h i = refl
  sift_up_loop-heap (suc fuel) h i = elim (Bool-cases (i == 0)) [
    | inl root ↦ rw root
    | inr inner ↦ rw inner (rw (← rise-heap h i) (sift_up_loop-heap fuel (rise h i) (parent i)))
  ]

  sift_up_loop-Rearranges :
      (fuel : ℕ) (h : BinaryHeap K) (i : ℕ)
      → IsLocated h
      → i < h.size
      → Rearranges h (sift_up_loop fuel h i)
  unfolding sift_up_loop
  sift_up_loop-Rearranges zero h i v hi = Rearranges-refl h v
  sift_up_loop-Rearranges (suc fuel) h i v hi = elim (Bool-cases (i == 0)) [
    | inl root ↦ rw root (Rearranges-refl h v)
    | inr inner ↦
        let r = rise-Rearranges h i v hi in
        rw inner (
          Rearranges-trans r (
            sift_up_loop-Rearranges fuel (rise h i) (parent i) r.located
              (omega (arith, r.same_size))))
  ]

  -- The loop restores the order above one element, and keeps the elements.
  pub sift_up_correct :
      (h : BinaryHeap K) (i : ℕ)
      → IsLocated h
      → UpInv h.size h.heap i
      → IsHeap h.size (sift_up h i).heap × Rearranges h (sift_up h i)
  unfolding sift_up Heap.sift_up
  sift_up_correct h i v u = (
    rw (sift_up_loop-heap i h i) (sift_up-IsHeap h.size h.heap i u),
    sift_up_loop-Rearranges i h i v u.inside,
  )

  sift_down_loop-heap :
      (fuel : ℕ) (h : BinaryHeap K) (i : ℕ)
      → (sift_down_loop fuel h i).heap ≡ Heap.sift_down_loop fuel h.size h.heap i
  unfolding sift_down_loop Heap.sift_down_loop swap_at
  sift_down_loop-heap zero h i = refl
  sift_down_loop-heap (suc fuel) h i =
      let m = smallest_child h.size h.heap i in
      elim (Bool-cases (ltb (first_child i) h.size)) [
        | inr leaf ↦ rw leaf
        | inl more ↦
            rw more
              (elim (Bool-cases (
                cmp.below (key_at h.heap m) (key_at h.heap i)
                || cmp.same (key_at h.heap m) (key_at h.heap i))) [
                  | inl stop ↦ rw stop
                  | inr go ↦ rw go (
                      rw (swap_at-heap h i m, swap_at-size h i m) at
                        (sift_down_loop-heap fuel (swap_at h i m) m))
                ])
      ]

  sift_down_loop-Rearranges :
      (fuel : ℕ) (h : BinaryHeap K) (i : ℕ) → IsLocated h → Rearranges h (sift_down_loop fuel h i)
  unfolding sift_down_loop
  sift_down_loop-Rearranges zero h i v = Rearranges-refl h v
  sift_down_loop-Rearranges (suc fuel) h i v =
      let m = smallest_child h.size h.heap i in
      elim (Bool-cases (ltb (first_child i) h.size)) [
        | inr leaf ↦ rw leaf (Rearranges-refl h v)
        | inl more ↦
            rw more
              (elim (Bool-cases (
                cmp.below (key_at h.heap m) (key_at h.heap i)
                || cmp.same (key_at h.heap m) (key_at h.heap i))) [
                  | inl stop ↦ rw stop (Rearranges-refl h v)
                  | inr go ↦
                      let s = smallest_child-IsTopChild h.size h.heap i (ground arith) in
                      let r =
                        swap_at-Rearranges h i m v (omega (arith, s.deeper, s.inside)) s.inside in
                      rw go (
                        Rearranges-trans r
                          (sift_down_loop-Rearranges fuel (swap_at h i m) m r.located))
                ])
      ]

  -- The loop restores the order below one element, and keeps the elements.
  pub sift_down_correct :
      (h : BinaryHeap K) (i : ℕ)
      → IsLocated h
      → DownInv h.size h.heap i
      → IsHeap h.size (sift_down h i).heap × Rearranges h (sift_down h i)
  unfolding sift_down Heap.sift_down
  sift_down_correct h i v d = (
    rw (sift_down_loop-heap h.size h i) (sift_down-IsHeap h.size h.heap i d),
    sift_down_loop-Rearranges h.size h i v,
  )
