-- ===== src/SparseMap/Assign.antt =====
-- A write through operator[] keeps a SparseMap valid, and gives one key its value.
use ka_min_par.Prelude.{
  ℕ, ◌<◌, ◌≡◌, refl, sym, ◌∙◌, ap, inl, inr, true, false, some, arith, ◌==◌, ==_refl, if◌then◌else◌,
  Bool-cases, set, length-set,
}
use ka_min_par.SparseMap.{SparseMap, slot, entry, contains, append, assign}
use ka_min_par.SparseMap.Valid.{
  IsValid, lookup, same_index, lookup_of_entry, lookup_missing, contains-cases,
}
use ka_min_par.SparseMap.Laws.{entry-set, append-IsValid, slot-append, entry-append, lookup-append}

module _ {V : Type 0} (initial : V) where
  -- The map with another value in the entry of `k`.
  abbrev overwrite : SparseMap V → ℕ → V → SparseMap V
  overwrite m k v = record m {
    dense =
        set m.dense (slot initial m k)
          (record { key = (entry initial m (slot initial m k)).key; value = v });
  }

  module _ (m : SparseMap V) (k : ℕ) (v : V) (valid : IsValid initial m)
      (found : contains initial m k ≡ true) where
    entry-overwrite :
        (i : ℕ)
        → ((entry initial (overwrite m k v) i).key ≡ (
            if slot initial m k == i
            then (entry initial m (slot initial m k)).key
            else (entry initial m i).key))
          × ((entry initial (overwrite m k v) i).value
              ≡ (if slot initial m k == i then v else (entry initial m i).value))
    entry-overwrite i =
        entry-set initial m.dense (slot initial m k) i
          (record { key = (entry initial m (slot initial m k)).key; value = v })
          (record { key = 0; value = initial }) (ground (arith, valid.cells, valid.few))

    same_keys : (i : ℕ) → (entry initial (overwrite m k v) i).key ≡ (entry initial m i).key
    same_keys i = elim (Bool-cases (slot initial m k == i)) [
      | inl here ↦
          let e : slot initial m k ≡ i = ground arith in
          (rw here at (entry-overwrite i).0) ∙ ap (λ (j : ℕ). (entry initial m j).key) e
      | inr there ↦ rw there at (entry-overwrite i).0
    ]

    overwrite-IsValid : IsValid initial (overwrite m k v)
    overwrite-IsValid = record {
      slots = valid.slots;
      cells =
          length-set m.dense (slot initial m k)
            (record { key = (entry initial m (slot initial m k)).key; value = v })
          ∙ valid.cells;
      few = valid.few;
      inside = λ i p. omega (arith, same_keys i, valid.inside i p);
      linked = λ i p. ap (slot initial m) (same_keys i) ∙ valid.linked i p;
    }

    lookup-overwrite :
        (x : ℕ)
        → lookup initial (overwrite m k v) x ≡ (if k == x then some v else lookup initial m x)
    lookup-overwrite x = elim (contains-cases initial m x valid) [
      | inl (i, p, e, at_x) ↦
          let key = same_keys i ∙ e in
          let now = lookup_of_entry initial (overwrite m k v) x i overwrite-IsValid p key in
          elim (Bool-cases (k == x)) [
            | inl same ↦
                let is : slot initial m k ≡ i =
                  same_index initial m (slot initial m k) i valid (ground arith) p (ground arith) in
                let value : (entry initial (overwrite m k v) i).value ≡ v =
                  ground (arith, (entry-overwrite i).1) in
                rw same (now ∙ ap some value)
            | inr other ↦
                let not_slot : (slot initial m k == i) ≡ false =
                  ground (arith, ap (λ (j : ℕ). (entry initial m j).key)) in
                let value : (entry initial (overwrite m k v) i).value ≡ (entry initial m i).value =
                  rw not_slot at (entry-overwrite i).1 in
                rw other (now ∙ (ap some value ∙ sym (lookup_of_entry initial m x i valid p e)))
          ]
      | inr (absent, gone) ↦
          let other : (k == x) ≡ false = ground (arith, absent (slot initial m k)) in
          rw other (
            lookup_missing initial (overwrite m k v) x (λ i p q. absent i p (sym (same_keys i) ∙ q))
            ∙ sym (lookup_missing initial m x absent))
    ]

  contains-append :
      (m : SparseMap V) (k : ℕ) (v : V)
      → IsValid initial m
      → contains initial m k ≡ false
      → k < m.capacity
      → contains initial (append initial m k v) k ≡ true
  contains-append m k v valid missing inside =
      let here : slot initial (append initial m k v) k ≡ m.size =
        ground (arith, slot-append initial m k v valid missing inside k) in
      let key : (entry initial (append initial m k v) m.size).key ≡ k =
        ground (arith, (entry-append initial m k v valid missing inside m.size).0) in
      rw (here, key) (ground (arith, ==_refl k))

  -- `map[key] = value` for a key below the capacity keeps the map valid, and gives that key the
  -- value and no other key, whether the map had the key or not.
  pub assign_correct :
      (m : SparseMap V) (k : ℕ) (v : V)
      → IsValid initial m
      → k < m.capacity
      → IsValid initial (assign initial m k v)
        × ((x : ℕ)
            → lookup initial (assign initial m k v) x
              ≡ (if k == x then some v else lookup initial m x))
  unfolding assign
  assign_correct m k v valid inside = elim (Bool-cases (contains initial m k)) [
    | inl found ↦ rw found (overwrite-IsValid m k v valid found, lookup-overwrite m k v valid found)
    | inr missing ↦
        let grown = append initial m k initial in
        let valid' = append-IsValid initial m k initial valid missing inside in
        let found = contains-append m k initial valid missing inside in
        rw missing (
          overwrite-IsValid grown k v valid' found,
          λ x. lookup-overwrite grown k v valid' found x ∙ elim (Bool-cases (k == x)) [
            | inl same ↦ rw same refl
            | inr other ↦
                rw other (rw other at (lookup-append initial m k initial valid missing inside x))
          ],
        )
  ]
