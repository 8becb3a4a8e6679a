-- ===== src/BinaryHeap/Update.antt =====
-- The invariant of BinaryHeap, and the operations that add an id or change its key.
use ka_min_par.Prelude.{
  ℕ, ◌+◌, ◌<◌, ◌≡◌, ◌∙◌, refl, inl, inr, true, false, Option, some, arith, ◌==◌, if◌then◌else◌,
  length, Bool-cases, set, length-set, get_or-set,
}
use ka_min_par.Heap.{Comparator, parent, key_at, at, no_element}
use ka_min_par.Heap.Order.{eq_of_not_below, IsHeap}
use ka_min_par.Heap.Up.{UpInv}
use ka_min_par.Heap.Down.{DownInv}
use ka_min_par.BinaryHeap.{
  BinaryHeap, invalid_id, pos_of, contains, push, set_key, sift_up, sift_down, increase_priority,
  decrease_priority, change_priority,
}
use ka_min_par.BinaryHeap.Located.{IsLocated, lookup}
use ka_min_par.BinaryHeap.Sift.{sift_up_correct, sift_down_correct}

module _ {K : Type 0} ⦃cmp : Comparator K⦄ where
  pub record IsValid (h : BinaryHeap K) : Type 0 where
    pub located : IsLocated h
    pub order : IsHeap h.size h.heap

  -- `t` maps `id` to `k`, and every other id as `h` does.
  abbrev pub Updates : BinaryHeap K → ℕ → K → BinaryHeap K → Type 0
  Updates h id k t = (j : ℕ) → lookup t j ≡ (if id == j then some k else lookup h j)

  -- push before its loop: the new element stands behind the others.
  abbrev placed : BinaryHeap K → ℕ → K → BinaryHeap K
  placed h id k = record {
    heap = set h.heap h.size (record { id = id; key = k });
    id_pos = set h.id_pos id h.size;
    size = h.size + 1;
  }

  module _ (h : BinaryHeap K) (id : ℕ) (k : K) (v : IsValid h) (room : h.size < length h.heap)
      (known : id < length h.heap) (absent : contains h id ≡ false) where
    at-placed :
        (c : ℕ)
        → at (placed h id k).heap c
          ≡ (if h.size == c then record { id = id; key = k } else at h.heap c)
    at-placed c = get_or-set h.heap h.size c (record { id = id; key = k }) no_element room

    pos_of-placed : (j : ℕ) → pos_of (placed h id k) j ≡ (if id == j then h.size else pos_of h j)
    pos_of-placed j =
        get_or-set h.id_pos id j h.size invalid_id (omega (arith, v.located.same_length))

    placed-IsLocated : IsLocated (placed h id k)
    placed-IsLocated =
        let longer = length-set h.heap h.size (record { id = id; key = k }) in
        let ids = length-set h.id_pos id h.size in
        record {
          fits = omega (arith, longer, room);
          same_length = omega (arith, longer, ids, v.located.same_length);
          valid_positions = omega (arith, longer, v.located.valid_positions);
          ids_below =
              λ c p. ground (arith, at-placed c, ids, v.located.ids_below c, v.located.same_length);
          located = λ c p. ground (
            arith,
            at-placed c,
            pos_of-placed (at (placed h id k).heap c).id,
            v.located.located c,
            v.located.fits,
            v.located.valid_positions,
            room,
          );
          present = λ j p.
              ground
                (arith, pos_of-placed j, at-placed (pos_of (placed h id k) j), v.located.present j);
        }

    placed-UpInv : UpInv (placed h id k).size (placed h id k).heap h.size
    placed-UpInv = record {
      inside = omega arith;
      fits = omega (arith, length-set h.heap h.size (record { id = id; key = k }), room);
      edges = λ c p q r. ground (arith, at-placed c, at-placed (parent c), v.order c);
      bridged = λ c p q e r. absurd (omega arith);
    }

    lookup-placed : Updates h id k (placed h id k)
    lookup-placed j = ground (
      arith,
      pos_of-placed j,
      at-placed (pos_of (placed h id k) j),
      v.located.present j,
      v.located.fits,
      v.located.valid_positions,
    )

    -- push of a new id below the capacity succeeds where there is room, keeps the invariant, and
    -- adds exactly that id with its key.
    pub push_correct :
        (t : BinaryHeap K) × (push h id k ≡ some t)
        × IsValid t
        × (t.size ≡ h.size + 1)
        × Updates h id k t
    unfolding push
    push_correct =
        let (order, r) = sift_up_correct (placed h id k) h.size placed-IsLocated placed-UpInv in
        (
          sift_up (placed h id k) h.size,
          ground arith,
          record { located = r.located; order = rw r.same_size order },
          r.same_size,
          λ j. r.same_keys j ∙ lookup-placed j,
        )

  -- The write of a new key at a contained id.
  module _ (h : BinaryHeap K) (id : ℕ) (k : K) (v : IsValid h) (known : contains h id ≡ true) where
    pos_of-lt-size : pos_of h id < h.size
    pos_of-lt-size = ground (arith, v.located.present id)

    at-set_key :
        (c : ℕ)
        → at (set_key h id k).heap c ≡ (
            if pos_of h id == c
            then record { id = (at h.heap (pos_of h id)).id; key = k }
            else at h.heap c)
    unfolding set_key
    at-set_key c =
        get_or-set h.heap (pos_of h id) c _ no_element
          (omega (arith, pos_of-lt-size, v.located.fits))

    pos_of-set_key : (j : ℕ) → pos_of (set_key h id k) j ≡ pos_of h j
    unfolding set_key
    pos_of-set_key j = refl

    set_key-size : (set_key h id k).size ≡ h.size
    unfolding set_key
    set_key-size = refl

    length-heap-set_key : length (set_key h id k).heap ≡ length h.heap
    unfolding set_key
    length-heap-set_key = length-set h.heap (pos_of h id) _

    length-id_pos-set_key : length (set_key h id k).id_pos ≡ length h.id_pos
    unfolding set_key
    length-id_pos-set_key = refl

    set_key-IsLocated : IsLocated (set_key h id k)
    set_key-IsLocated =
        let longer = length-heap-set_key in
        let ids = length-id_pos-set_key in
        let same = set_key-size in
        record {
          fits = omega (arith, longer, same, v.located.fits);
          same_length = omega (arith, longer, ids, v.located.same_length);
          valid_positions = omega (arith, longer, v.located.valid_positions);
          ids_below = λ c p. ground (arith, same, ids, at-set_key c, v.located.ids_below c);
          located = λ c p. ground (
            arith,
            same,
            at-set_key c,
            pos_of-set_key (at (set_key h id k).heap c).id,
            v.located.located c,
          );
          present = λ j p. ground (
            arith,
            same,
            pos_of-set_key j,
            at-set_key (pos_of (set_key h id k) j),
            v.located.present j,
          );
        }

    lookup-set_key : Updates h id k (set_key h id k)
    lookup-set_key j = ground (
      arith,
      pos_of-set_key j,
      at-set_key (pos_of (set_key h id k) j),
      v.located.present j,
      v.located.present id,
    )

    set_key-UpInv :
        cmp.below (key_at h.heap (pos_of h id)) k ≡ true
        → UpInv (set_key h id k).size (set_key h id k).heap (pos_of h id)
    set_key-UpInv lower =
        let p = pos_of h id in
        let old = key_at h.heap p in
        record {
          inside = omega (arith, set_key-size, pos_of-lt-size);
          fits = omega (arith, set_key-size, length-heap-set_key, v.located.fits);
          edges = λ c q r s. ground (
            arith,
            set_key-size,
            at-set_key c,
            at-set_key (parent c),
            v.order c q,
            cmp.asymmetric old k lower,
            cmp.negatively_transitive k old (key_at h.heap c),
          );
          bridged = λ c q r e s. ground (
            arith,
            set_key-size,
            at-set_key c,
            at-set_key (parent p),
            v.order c q,
            v.order p s pos_of-lt-size,
            cmp.negatively_transitive (key_at h.heap (parent p)) old (key_at h.heap c),
          );
        }

    set_key-DownInv :
        cmp.below k (key_at h.heap (pos_of h id)) ≡ true
        → DownInv (set_key h id k).size (set_key h id k).heap (pos_of h id)
    set_key-DownInv lower =
        let p = pos_of h id in
        let old = key_at h.heap p in
        record {
          fits = omega (arith, set_key-size, length-heap-set_key, v.located.fits);
          edges = λ c q r s. ground (
            arith,
            set_key-size,
            at-set_key c,
            at-set_key (parent c),
            v.order c q,
            cmp.asymmetric k old lower,
            cmp.negatively_transitive (key_at h.heap (parent c)) old k,
          );
          bridged = λ c q r e s. ground (
            arith,
            set_key-size,
            at-set_key c,
            at-set_key (parent p),
            v.order c q,
            v.order p s pos_of-lt-size,
            cmp.negatively_transitive (key_at h.heap (parent p)) old (key_at h.heap c),
          );
        }

    -- What a change of the key of `id` gives.
    abbrev pub Changed : Option (BinaryHeap K) → Type 0
    Changed r = (t : BinaryHeap K) × (r ≡ some t) × IsValid t × (t.size ≡ h.size) × Updates h id k t

    pub decrease_priority-Changed :
        cmp.below (key_at h.heap (pos_of h id)) k ≡ true → Changed (decrease_priority h id k)
    unfolding decrease_priority
    decrease_priority-Changed lower =
        let (order, r) =
          sift_up_correct (set_key h id k) (pos_of h id) set_key-IsLocated (set_key-UpInv lower) in
        (
          sift_up (set_key h id k) (pos_of h id),
          ground arith,
          record { located = r.located; order = rw r.same_size order },
          r.same_size ∙ set_key-size,
          λ j. r.same_keys j ∙ lookup-set_key j,
        )

    pub increase_priority-Changed :
        cmp.below k (key_at h.heap (pos_of h id)) ≡ true → Changed (increase_priority h id k)
    unfolding increase_priority
    increase_priority-Changed lower =
        let (order, r) =
          sift_down_correct (set_key h id k) (pos_of h id) set_key-IsLocated
            (set_key-DownInv lower) in
        (
          sift_down (set_key h id k) (pos_of h id),
          ground arith,
          record { located = r.located; order = rw r.same_size order },
          r.same_size ∙ set_key-size,
          λ j. r.same_keys j ∙ lookup-set_key j,
        )

    -- change_priority of a contained id succeeds, keeps the invariant and the size, and gives the
    -- id the new key and no other id.
    pub change_priority_correct : Changed (change_priority h id k)
    unfolding change_priority
    change_priority_correct =
        let old = key_at h.heap (pos_of h id) in
        rw known (elim (Bool-cases (cmp.below k old)) [
          | inl lower ↦ rw lower (increase_priority-Changed lower)
          | inr not_lower ↦ elim (Bool-cases (cmp.below old k)) [
            | inl higher ↦ rw (not_lower, higher) (decrease_priority-Changed higher)
            | inr not_higher ↦
                rw (not_lower, not_higher)
                  (
                    h,
                    refl,
                    v,
                    refl,
                    λ j. ground (arith, eq_of_not_below k old not_lower not_higher),
                  )
          ]
        ])
