-- ===== src/SparseMap/Remove.antt =====
-- remove keeps a SparseMap valid, and forgets one key.
use ka_min_par.Prelude.{
  ℕ, ◌-◌, ◌<◌, ◌≡◌, ◌≢◌, refl, sym, ◌∙◌, ap, inl, inr, true, false, none, some, List, arith, ◌==◌,
  ==_refl, if◌then◌else◌, Bool-cases, get_or, set, get_or-set, length-set,
}
use ka_min_par.SparseMap.{Element, SparseMap, slot, entry, contains, remove}
use ka_min_par.SparseMap.Valid.{
  IsValid, lookup, same_index, lookup_of_entry, lookup_missing, contains-cases,
}

module _ {V : Type 0} (initial : V) (m : SparseMap V) (k : ℕ) (valid : IsValid initial m)
    (inside : k < m.capacity) where
  abbrev swapped : List (Element V)
  swapped =
      set (set m.dense (slot initial m k) (entry initial m (m.size - 1))) (m.size - 1)
        (entry initial m (slot initial m k))

  -- The map without the key, as remove leaves it.
  abbrev removed : SparseMap V
  removed = record m {
    dense = swapped;
    sparse =
        set m.sparse (get_or swapped (slot initial m k) (record { key = 0; value = initial })).key
          (slot initial m k);
    size = m.size - 1;
  }

  module _ (found : contains initial m k ≡ true) where
    slot_below : slot initial m k < m.size
    slot_below = ground arith

    slot_key : (entry initial m (slot initial m k)).key ≡ k
    slot_key = ground arith

    -- The last entry takes the place of the one removed.
    entry-removed :
        (i : ℕ)
        → i < m.size
        → entry initial removed i ≡ (
            if m.size - 1 == i
            then entry initial m (slot initial m k)
            else if slot initial m k == i
            then entry initial m (m.size - 1)
            else entry initial m i)
    entry-removed i p =
        get_or-set (set m.dense (slot initial m k) (entry initial m (m.size - 1))) (m.size - 1) i
          (entry initial m (slot initial m k)) (record { key = 0; value = initial })
          (omega (
            arith,
            valid.cells,
            valid.few,
            length-set m.dense (slot initial m k) (entry initial m (m.size - 1)),
          ))
        ∙ ap (λ (e : Element V). if m.size - 1 == i then entry initial m (slot initial m k) else e)
            (get_or-set m.dense (slot initial m k) i (entry initial m (m.size - 1))
              (record { key = 0; value = initial })
              (omega (arith, valid.cells, valid.few, slot_below)))

    entry_kept :
        (i : ℕ)
        → i < m.size - 1
        → slot initial m k ≢ i
        → entry initial removed i ≡ entry initial m i
    entry_kept i p q =
        let before : (m.size - 1 == i) ≡ false = ground arith in
        let other : (slot initial m k == i) ≡ false = ground arith in
        rw (before, other) at (entry-removed i (omega arith))

    entry_at_slot : entry initial removed (slot initial m k) ≡ entry initial m (m.size - 1)
    entry_at_slot = elim (Bool-cases (m.size - 1 == slot initial m k)) [
      | inl last ↦
          let e : m.size - 1 ≡ slot initial m k = ground arith in
          (rw last at (entry-removed (slot initial m k) slot_below)) ∙ ap (entry initial m) (sym e)
      | inr before ↦
          rw (before, ==_refl (slot initial m k)) at (entry-removed (slot initial m k) slot_below)
    ]

    entry_at :
        (i : ℕ) → slot initial m k ≡ i → entry initial removed i ≡ entry initial m (m.size - 1)
    entry_at i e = ap (entry initial removed) (sym e) ∙ entry_at_slot

    slot-removed :
        (x : ℕ)
        → slot initial removed x
          ≡ (if (entry initial m (m.size - 1)).key == x then slot initial m k else slot initial m x)
    slot-removed x =
        let key = ap (λ (e : Element V). e.key) entry_at_slot in
        rw (← key) (
          get_or-set m.sparse (entry initial removed (slot initial m k)).key x (slot initial m k) 0
            (omega (
              arith,
              key,
              valid.slots,
              slot_below,
              valid.inside (m.size - 1) (omega (arith, slot_below)),
            )))

    key-removed : (i : ℕ) → i < m.size - 1 → (entry initial removed i).key ≢ k
    key-removed i p e = elim (Bool-cases (slot initial m k == i)) [
      | inl here ↦
          let at_slot : slot initial m k ≡ i = ground arith in
          let last = entry_at i at_slot in
          let same =
            same_index initial m (m.size - 1) (slot initial m k) valid (omega (arith, slot_below))
              slot_below (ap (λ (x : Element V). x.key) (sym last) ∙ (e ∙ sym slot_key)) in
          absurd (omega (arith, same, at_slot))
      | inr there ↦
          let kept = entry_kept i p (ground arith) in
          let same =
            same_index initial m i (slot initial m k) valid (omega arith) slot_below
              (ap (λ (x : Element V). x.key) (sym kept) ∙ (e ∙ sym slot_key)) in
          absurd (ground (arith, same))
    ]

    -- Entry of another key after the removal.
    moved_entry :
        (x i : ℕ)
        → i < m.size
        → (entry initial m i).key ≡ x
        → k ≢ x
        → (j : ℕ) × (j < m.size - 1) × (entry initial removed j ≡ entry initial m i)
    moved_entry x i p e h =
        let not_slot : slot initial m k ≢ i =
          λ q. h (sym slot_key ∙ (ap (λ (c : ℕ). (entry initial m c).key) q ∙ e)) in
        elim (Bool-cases (m.size - 1 == i)) [
          | inl last ↦
              let is : m.size - 1 ≡ i = ground arith in
              (
                slot initial m k,
                omega (arith, slot_below, is, not_slot),
                entry_at_slot ∙ ap (entry initial m) is,
              )
          | inr before ↦ (i, ground arith, entry_kept i (ground arith) not_slot)
        ]

    still_absent :
        (x i : ℕ)
        → ((j : ℕ) → j < m.size → (entry initial m j).key ≢ x)
        → i < m.size - 1
        → (entry initial removed i).key ≢ x
    still_absent x i absent p e = elim (Bool-cases (slot initial m k == i)) [
      | inl here ↦
          let at_slot : slot initial m k ≡ i = ground arith in
          let last = entry_at i at_slot in
          absent (m.size - 1) (omega arith) (ap (λ (c : Element V). c.key) (sym last) ∙ e)
      | inr there ↦
          absent i (omega arith)
            (ap (λ (c : Element V). c.key) (sym (entry_kept i p (ground arith))) ∙ e)
    ]

    removed-IsValid : IsValid initial removed
    removed-IsValid = record {
      slots =
          length-set m.sparse (entry initial removed (slot initial m k)).key (slot initial m k)
          ∙ valid.slots;
      cells =
          length-set (set m.dense (slot initial m k) (entry initial m (m.size - 1))) (m.size - 1)
            (entry initial m (slot initial m k))
          ∙ (length-set m.dense (slot initial m k) (entry initial m (m.size - 1)) ∙ valid.cells);
      few = omega (arith, valid.few);
      inside = λ i p. elim (Bool-cases (slot initial m k == i)) [
        | inl here ↦
            let at_slot : slot initial m k ≡ i = ground arith in
            let last = entry_at i at_slot in rw last (valid.inside (m.size - 1) (omega arith))
        | inr there ↦ rw (entry_kept i p (ground arith)) (valid.inside i (omega arith))
      ];
      linked = λ i p. elim (Bool-cases (slot initial m k == i)) [
        | inl here ↦
            let at_slot : slot initial m k ≡ i = ground arith in
            let last = entry_at i at_slot in
            ap (λ (e : Element V). slot initial removed e.key) last
            ∙ ground (
              arith,
              slot-removed (entry initial m (m.size - 1)).key,
              ==_refl (entry initial m (m.size - 1)).key,
            )
        | inr there ↦
            let other : (entry initial m (m.size - 1)).key ≢ (entry initial m i).key = λ e. absurd (
              omega
                (arith, same_index initial m (m.size - 1) i valid (omega arith) (omega arith) e)) in
            ap (λ (e : Element V). slot initial removed e.key) (entry_kept i p (ground arith))
            ∙ ground
                (arith, slot-removed (entry initial m i).key, other, valid.linked i (omega arith))
      ];
    }

    lookup-removed :
        (x : ℕ) → lookup initial removed x ≡ (if k == x then none else lookup initial m x)
    lookup-removed x = elim (Bool-cases (k == x)) [
      | inl same ↦
          let e : k ≡ x = ground arith in
          rw same (lookup_missing initial removed x (λ i p q. key-removed i p (q ∙ sym e)))
      | inr other ↦ rw other (elim (contains-cases initial m x valid) [
        | inl (i, p, e, _) ↦
            let (j, q, is) = moved_entry x i p e (ground arith) in
            lookup_of_entry initial removed x j removed-IsValid q
              (ap (λ (c : Element V). c.key) is ∙ e)
            ∙ (ap (λ (c : Element V). some c.value) is
                ∙ sym (lookup_of_entry initial m x i valid p e))
        | inr (absent, _) ↦
            lookup_missing initial removed x (λ i p. still_absent x i absent p)
            ∙ sym (lookup_missing initial m x absent)
      ])
    ]

  -- remove keeps the map valid, and takes the value of the key and of no other.
  pub sparse_remove_correct :
      IsValid initial (remove initial m k)
      × ((x : ℕ)
          → lookup initial (remove initial m k) x ≡ (if k == x then none else lookup initial m x))
  unfolding remove
  sparse_remove_correct = elim (Bool-cases (contains initial m k)) [
    | inl found ↦ rw found (removed-IsValid found, lookup-removed found)
    | inr missing ↦ rw missing (
      valid,
      λ x. elim (Bool-cases (k == x)) [
        | inl same ↦
            let e : k ≡ x = ground arith in
            let gone : contains initial m x ≡ false = rw e at missing in rw (same, gone) refl
        | inr other ↦ rw other refl
      ],
    )
  ]
