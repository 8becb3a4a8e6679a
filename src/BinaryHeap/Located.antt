-- ===== src/BinaryHeap/Located.antt =====
-- The agreement of `id_pos` with the heap, and what a swap of two entries does to it.
use ka_min_par.Prelude.{
  ◌∙◌, ℕ, ◌≤◌, ◌<◌, ◌≡◌, ◌≢◌, Option, none, some, arith, ◌==◌, if◌then◌else◌, length, set,
  length-set, get_or-set,
}
use ka_min_par.Heap.{Comparator, at, key_at, swap}
use ka_min_par.Heap.Order.{length-swap, at-swap}
use ka_min_par.BinaryHeap.{BinaryHeap, invalid_id, pos_of, swap_at}

module _ {K : Type 0} ⦃cmp : Comparator K⦄ where
  -- The first `size` entries hold distinct ids below the capacity, `id_pos` says where, and it says
  -- kInvalidID of the other ids.
  pub record IsLocated (h : BinaryHeap K) : Type 0 where
    pub fits : h.size ≤ length h.heap
    pub same_length : length h.id_pos ≡ length h.heap
    pub valid_positions : length h.heap ≤ invalid_id
    pub ids_below : (i : ℕ) → i < h.size → (at h.heap i).id < length h.id_pos
    pub located : (i : ℕ) → i < h.size → pos_of h (at h.heap i).id ≡ i
    pub present :
        (id : ℕ)
        → pos_of h id ≢ invalid_id
        → (pos_of h id < h.size) × ((at h.heap (pos_of h id)).id ≡ id)

  -- The heap as a finite map from ids to keys.
  abbrev pub lookup : BinaryHeap K → ℕ → Option K
  lookup h id = if pos_of h id == invalid_id then none else some (key_at h.heap (pos_of h id))

  pub swap_at-heap : (h : BinaryHeap K) (i j : ℕ) → (swap_at h i j).heap ≡ swap h.heap i j
  unfolding swap_at
  swap_at-heap h i j = ground arith

  pub swap_at-size : (h : BinaryHeap K) (i j : ℕ) → (swap_at h i j).size ≡ h.size
  unfolding swap_at
  swap_at-size h i j = ground arith

  module _ (h : BinaryHeap K) (i j : ℕ) (v : IsLocated h) (hi : i < h.size) (hj : j < h.size) where
    at-swap_left : at (swap h.heap i j) i ≡ at h.heap j
    at-swap_left =
        ground (arith, at-swap h.heap i j (omega (arith, v.fits)) (omega (arith, v.fits)) i)

    at-swap_right : at (swap h.heap i j) j ≡ at h.heap i
    at-swap_right =
        ground (arith, at-swap h.heap i j (omega (arith, v.fits)) (omega (arith, v.fits)) j)

    -- The positions after the swap: the two ids trade theirs.
    pub pos_of-swap_at :
        (id : ℕ)
        → pos_of (swap_at h i j) id ≡ (
            if (at h.heap i).id == id then j else if (at h.heap j).id == id then i else pos_of h id)
    unfolding swap_at
    pos_of-swap_at id =
        let x = (at h.heap j).id in
        let y = (at h.heap i).id in
        rw (at-swap_left, at-swap_right)
          (ground (
            arith,
            get_or-set (set h.id_pos x (pos_of h y)) y id (pos_of h x) invalid_id,
            get_or-set h.id_pos x id (pos_of h y) invalid_id,
            length-set h.id_pos x (pos_of h y),
            v.ids_below i hi,
            v.ids_below j hj,
            v.located i hi,
            v.located j hj,
          ))

    pub at-swap_at :
        (c : ℕ)
        → at (swap_at h i j).heap c
          ≡ (if j == c then at h.heap i else if i == c then at h.heap j else at h.heap c)
    unfolding swap_at
    at-swap_at c = at-swap h.heap i j (omega (arith, v.fits)) (omega (arith, v.fits)) c

    pub length-id_pos-swap_at : length (swap_at h i j).id_pos ≡ length h.id_pos
    unfolding swap_at
    length-id_pos-swap_at =
        let moved = swap h.heap i j in
        let x = (at moved i).id in
        let y = (at moved j).id in
        length-set (set h.id_pos x (pos_of h y)) y (pos_of h x) ∙ length-set h.id_pos x (pos_of h y)

    pub length-heap-swap_at : length (swap_at h i j).heap ≡ length h.heap
    unfolding swap_at
    length-heap-swap_at = length-swap h.heap i j

    -- A swap keeps the agreement.
    pub swap_at-IsLocated : IsLocated (swap_at h i j)
    swap_at-IsLocated =
        let same = swap_at-size h i j in
        let longer = length-heap-swap_at in
        let ids = length-id_pos-swap_at in
        record {
          fits = omega (arith, same, longer, v.fits);
          same_length = omega (arith, ids, longer, v.same_length);
          valid_positions = omega (arith, longer, v.valid_positions);
          ids_below = λ c p.
              ground (arith, same, ids, at-swap_at c, v.ids_below c, v.ids_below i, v.ids_below j);
          located = λ c p. ground (
            arith,
            same,
            at-swap_at c,
            pos_of-swap_at (at (swap_at h i j).heap c).id,
            v.located c,
            v.located i hi,
            v.located j hj,
          );
          present = λ id p. ground (
            arith,
            same,
            pos_of-swap_at id,
            at-swap_at (pos_of (swap_at h i j) id),
            v.present id,
            v.located i hi,
            v.located j hj,
          );
        }

    pub lookup-swap_at : (id : ℕ) → lookup (swap_at h i j) id ≡ lookup h id
    lookup-swap_at id = ground (
      arith,
      pos_of-swap_at id,
      at-swap_at (pos_of (swap_at h i j) id),
      v.located i hi,
      v.located j hj,
      v.present id,
      v.fits,
      v.valid_positions,
    )
