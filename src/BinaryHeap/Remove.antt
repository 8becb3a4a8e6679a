-- ===== src/BinaryHeap/Remove.antt =====
-- The operations of BinaryHeap that take ids away.
use ka_min_par.Prelude.{
  get_or-set_default, sym, ==_iff, ℕ, zero, suc, ◌+◌, ◌-◌, ◌≤◌, ◌<◌, ◌≡◌, ◌≢◌, ◌∙◌, refl, inl, inr,
  true, false, none, some, List, arith, ◌==◌, if◌then◌else◌, length, Bool-cases, set, get_or,
  length-set, get_or-set,
}
use mathlib.Core.Bool.{false≢true}
use ka_min_par.Heap.{Comparator, HeapElement, parent, key_at, at, swap}
use ka_min_par.Heap.Order.{at-swap, length-swap, root_top}
use ka_min_par.Heap.Down.{DownInv}
use ka_min_par.BinaryHeap.{
  BinaryHeap, invalid_id, pos_of, contains, sift_down, peek_id, peek_key, pop, remove, forget_ids,
  clear,
}
use ka_min_par.BinaryHeap.Located.{IsLocated, lookup}
use ka_min_par.BinaryHeap.Sift.{sift_down_correct}
use ka_min_par.BinaryHeap.Update.{IsValid, decrease_priority-Changed}

module _ {K : Type 0} ⦃cmp : Comparator K⦄ where
  -- `t` knows every id that `h` knows, with its key, but for `id`.
  abbrev pub Forgets : BinaryHeap K → ℕ → BinaryHeap K → Type 0
  Forgets h id t = (j : ℕ) → lookup t j ≡ (if id == j then none else lookup h j)

  -- pop before its loop: the last element stands in the place of the root.
  abbrev emptied : BinaryHeap K → BinaryHeap K
  emptied h =
      let moved = swap h.heap 0 (h.size - 1) in
      record {
        heap = moved;
        id_pos = set (set h.id_pos (at moved 0).id 0) (at moved (h.size - 1)).id invalid_id;
        size = h.size - 1;
      }

  module _ (h : BinaryHeap K) (v : IsValid h) (some_left : 0 < h.size) where
    last_inside : h.size - 1 < length h.heap
    last_inside = omega (arith, v.located.fits)

    at-emptied :
        (c : ℕ)
        → at (emptied h).heap c ≡ (
            if h.size - 1 == c
            then at h.heap 0
            else if 0 == c
            then at h.heap (h.size - 1)
            else at h.heap c)
    at-emptied c = at-swap h.heap 0 (h.size - 1) (omega (arith, v.located.fits)) last_inside c

    root-emptied : at (swap h.heap 0 (h.size - 1)) 0 ≡ at h.heap (h.size - 1)
    root-emptied = elim (Bool-cases (h.size - 1 == 0)) [
      | inl one ↦ let e : h.size - 1 ≡ 0 = ground arith in ground (arith, at-emptied 0)
      | inr more ↦ ground (arith, at-emptied 0)
    ]

    last-emptied : at (swap h.heap 0 (h.size - 1)) (h.size - 1) ≡ at h.heap 0
    last-emptied = ground (arith, at-emptied (h.size - 1))

    pos_of-emptied :
        (j : ℕ)
        → pos_of (emptied h) j ≡ (
            if (at h.heap 0).id == j
            then invalid_id
            else if (at h.heap (h.size - 1)).id == j
            then 0
            else pos_of h j)
    pos_of-emptied j =
        let x = (at h.heap (h.size - 1)).id in
        let y = (at h.heap 0).id in
        rw (root-emptied, last-emptied)
          (ground (
            arith,
            get_or-set (set h.id_pos x 0) y j invalid_id invalid_id,
            get_or-set h.id_pos x j 0 invalid_id,
            length-set h.id_pos x 0,
            v.located.ids_below 0 some_left,
            v.located.ids_below (h.size - 1),
          ))

    length-id_pos-emptied : length (emptied h).id_pos ≡ length h.id_pos
    length-id_pos-emptied =
        let moved = swap h.heap 0 (h.size - 1) in
        length-set (set h.id_pos (at moved 0).id 0) (at moved (h.size - 1)).id invalid_id
        ∙ length-set h.id_pos (at moved 0).id 0

    emptied-IsLocated : IsLocated (emptied h)
    emptied-IsLocated =
        let longer = length-swap h.heap 0 (h.size - 1) in
        let ids = length-id_pos-emptied in
        record {
          fits = omega (arith, longer, v.located.fits);
          same_length = omega (arith, longer, ids, v.located.same_length);
          valid_positions = omega (arith, longer, v.located.valid_positions);
          ids_below = λ c p.
              ground
                (arith, ids, at-emptied c, v.located.ids_below c, v.located.ids_below (h.size - 1));
          located = λ c p. ground (
            arith,
            at-emptied c,
            pos_of-emptied (at (emptied h).heap c).id,
            v.located.located c,
            v.located.located 0,
            v.located.located (h.size - 1),
          );
          present = λ j p. ground (
            arith,
            pos_of-emptied j,
            at-emptied (pos_of (emptied h) j),
            v.located.present j,
            v.located.located 0,
            v.located.located (h.size - 1),
          );
        }

    lookup-emptied : Forgets h (at h.heap 0).id (emptied h)
    lookup-emptied j = ground (
      arith,
      pos_of-emptied j,
      at-emptied (pos_of (emptied h) j),
      v.located.present j,
      v.located.located 0,
      v.located.located (h.size - 1),
      v.located.fits,
      v.located.valid_positions,
    )

    emptied-DownInv : DownInv (emptied h).size (emptied h).heap 0
    emptied-DownInv = record {
      fits = omega (arith, length-swap h.heap 0 (h.size - 1), v.located.fits);
      edges = λ c p q r. ground (arith, at-emptied c, at-emptied (parent c), v.order c p);
      bridged = λ c p q e r. absurd (omega arith);
    }

    -- pop of a heap that is not empty succeeds, keeps the invariant, and forgets exactly the id of
    -- the peeks, above whose key no key of the heap lies.
    pub pop_correct :
        (i : ℕ)
        → i < h.size
        → (t : BinaryHeap K) × (pop h ≡ some t)
          × (peek_id h ≡ some (at h.heap 0).id)
          × (peek_key h ≡ lookup h (at h.heap 0).id)
          × IsValid t
          × (t.size + 1 ≡ h.size)
          × Forgets h (at h.heap 0).id t
          × (cmp.below (key_at h.heap 0) (key_at h.heap i) ≡ false)
    unfolding pop peek_id peek_key
    pop_correct i p =
        let (order, r) = sift_down_correct (emptied h) 0 emptied-IsLocated emptied-DownInv in
        (
          sift_down (emptied h) 0,
          ground arith,
          ground arith,
          ground (arith, v.located.located 0 some_left),
          record { located = r.located; order = rw r.same_size order },
          omega (arith, r.same_size),
          λ j. r.same_keys j ∙ lookup-emptied j,
          root_top h.size h.heap i p v.order,
        )

  -- A contained id stands at its position, and the map gives it the key there.
  lookup-located :
      (h : BinaryHeap K) (i : ℕ)
      → IsLocated h
      → i < h.size
      → lookup h (at h.heap i).id ≡ some (key_at h.heap i)
  lookup-located h i v p = ground (arith, v.located i p, v.fits, v.valid_positions)

  -- An id whose key is `kMinValue`, alone with that key, is at the root.
  min_at_root :
      (h : BinaryHeap K) (id : ℕ)
      → IsValid h
      → lookup h id ≡ some cmp.min_value
      → ((j : ℕ) (k : K) → j ≢ id → lookup h j ≡ some k → cmp.below k cmp.min_value ≡ true)
      → (0 < h.size) × ((at h.heap 0).id ≡ id)
  min_at_root h id v e others =
      let p = pos_of h id in
      let found : (p < h.size) × ((at h.heap p).id ≡ id) × (key_at h.heap p ≡ cmp.min_value) = (
        ground (arith, v.located.present id),
        ground (arith, v.located.present id),
        ground arith,
      ) in
      let top : cmp.below (key_at h.heap 0) (key_at h.heap p) ≡ false =
        root_top h.size h.heap p found.0 v.order in
      (
        omega (arith, found.0),
        elim (Bool-cases ((at h.heap 0).id == id)) [
          | inl root ↦ (==_iff _ _).0 root
          | inr other ↦ absurd (
              false≢true (
                sym top
                ∙ rw found.2 (
                    others (at h.heap 0).id (key_at h.heap 0) (ground arith)
                      (lookup-located h 0 v.located (omega (arith, found.0))))))
        ],
      )

  -- remove of a contained id succeeds where every key lies below `kMinValue`, keeps the invariant,
  -- and forgets exactly that id.
  pub remove_correct :
      (h : BinaryHeap K) (id : ℕ)
      → IsValid h
      → contains h id ≡ true
      → ((j : ℕ) (k : K) → lookup h j ≡ some k → cmp.below k cmp.min_value ≡ true)
      → (t : BinaryHeap K) × (remove h id ≡ some t)
        × IsValid t
        × (t.size + 1 ≡ h.size)
        × Forgets h id t
  unfolding remove
  remove_correct h id v known keys =
      let mine : lookup h id ≡ some (key_at h.heap (pos_of h id)) = ground arith in
      let (raised, raised_eq, raised_valid, same_size, updates) =
        decrease_priority-Changed h id cmp.min_value v known
          (keys id (key_at h.heap (pos_of h id)) mine) in
      let (some_left, root) =
        min_at_root raised id raised_valid (ground (arith, updates id))
          (λ j k other e. keys j k (ground (arith, updates j))) in
      let (t, t_eq, _, _, t_valid, smaller, forgets, _) =
        pop_correct raised raised_valid some_left 0 some_left in
      (
        t,
        rw (known, raised_eq, t_eq) (ground (arith, forgets id)),
        t_valid,
        omega arith,
        λ j. ground (arith, forgets j, updates j),
      )

  -- The loop of clear gives kInvalidID to the ids of the entries that it passes.
  get_or-forget_ids :
      (rounds i : ℕ) (a : List (HeapElement K)) (ids : List ℕ) (j : ℕ)
      → get_or ids j invalid_id ≡ invalid_id
      → get_or (forget_ids rounds i a ids) j invalid_id ≡ invalid_id
  unfolding forget_ids
  get_or-forget_ids zero i a ids j e = e
  get_or-forget_ids (suc rounds) i a ids j e =
      get_or-forget_ids rounds (i + 1) a (set ids (at a i).id invalid_id) j
        (ground (arith, get_or-set_default ids (at a i).id j invalid_id))

  forget_ids-hits :
      (rounds i c : ℕ) (a : List (HeapElement K)) (ids : List ℕ)
      → i ≤ c
      → c < i + rounds
      → get_or (forget_ids rounds i a ids) (at a c).id invalid_id ≡ invalid_id
  unfolding forget_ids
  forget_ids-hits zero i c a ids p q = absurd (omega arith)
  forget_ids-hits (suc rounds) i c a ids p q = elim (Bool-cases (i == c)) [
    | inl now ↦
        let e : i ≡ c = (==_iff i c).0 now in
        rw e (
          get_or-forget_ids rounds (c + 1) a (set ids (at a c).id invalid_id) (at a c).id
            (ground (arith, get_or-set_default ids (at a c).id (at a c).id invalid_id)))
    | inr later ↦
        forget_ids-hits rounds (i + 1) c a (set ids (at a i).id invalid_id) (ground arith)
          (omega arith)
  ]

  length-forget_ids :
      (rounds i : ℕ) (a : List (HeapElement K)) (ids : List ℕ)
      → length (forget_ids rounds i a ids) ≡ length ids
  unfolding forget_ids
  length-forget_ids zero i a ids = refl
  length-forget_ids (suc rounds) i a ids =
      length-forget_ids rounds (i + 1) a (set ids (at a i).id invalid_id)
      ∙ length-set ids (at a i).id invalid_id

  cleared_ids :
      (h : BinaryHeap K) (j : ℕ)
      → IsValid h
      → get_or (forget_ids h.size 0 h.heap h.id_pos) j invalid_id ≡ invalid_id
  cleared_ids h j v = elim (Bool-cases (pos_of h j == invalid_id)) [
    | inl absent ↦ get_or-forget_ids h.size 0 h.heap h.id_pos j ((==_iff _ _).0 absent)
    | inr there ↦
        let (inside, e) = v.located.present j (ground arith) in
        rw e at (forget_ids-hits h.size 0 (pos_of h j) h.heap h.id_pos (omega arith) (omega arith))
  ]

  -- clear of a valid heap gives a valid heap of the same capacity that contains no id.
  pub clear_correct :
      (h : BinaryHeap K)
      → IsValid h
      → IsValid (clear h)
        × (length (clear h).heap ≡ length h.heap)
        × ((clear h).size ≡ 0)
        × ((j : ℕ) → contains (clear h) j ≡ false)
  unfolding clear
  clear_correct h v = (
    record {
      located = record {
        fits = omega arith;
        same_length = length-forget_ids h.size 0 h.heap h.id_pos ∙ v.located.same_length;
        valid_positions = v.located.valid_positions;
        ids_below = λ i p. absurd (omega arith);
        located = λ i p. absurd (omega arith);
        present = λ id p. absurd (p (cleared_ids h id v));
      };
      order = λ c p q. absurd (omega arith);
    },
    refl,
    refl,
    λ j. rw (cleared_ids h j v) refl,
  )
