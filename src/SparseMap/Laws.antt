-- ===== src/SparseMap/Laws.antt =====
-- The operations of SparseMap keep it valid, and change the value of one key.
use ka_min_par.Prelude.{
  ℕ, ◌<◌, ◌≡◌, refl, sym, ◌∙◌, ap, inl, inr, false, not, ◌&&◌, none, some, List, arith, ◌==◌,
  if◌then◌else◌, Bool-cases, length, get_or, set, get_or-set, length-set,
}
use ka_min_par.SparseMap.{Element, SparseMap, slot, entry, contains, append, allocate, add, clear}
use ka_min_par.SparseMap.Valid.{
  IsValid, lookup, not_in_entries, room, lookup_of_entry, lookup_missing, contains-cases,
}

module _ {V : Type 0} (initial : V) where
  -- The entries after a write.
  pub entry-set :
      (xs : List (Element V)) (i j : ℕ) (e d : Element V)
      → i < length xs
      → ((get_or (set xs i e) j d).key ≡ (if i == j then e.key else (get_or xs j d).key))
        × ((get_or (set xs i e) j d).value ≡ (if i == j then e.value else (get_or xs j d).value))
  entry-set xs i j e d h = elim (Bool-cases (i == j)) [
    | inl same ↦ let is = get_or-set xs i j e d h in rw (is, same) (refl, refl)
    | inr other ↦ let is = get_or-set xs i j e d h in rw (is, other) (refl, refl)
  ]

  module _ (m : SparseMap V) (k : ℕ) (v : V) (valid : IsValid initial m)
      (missing : contains initial m k ≡ false) (inside : k < m.capacity) where
    free : m.size < m.capacity
    free = room initial m k valid missing inside

    pub slot-append :
        (x : ℕ)
        → slot initial (append initial m k v) x ≡ (if k == x then m.size else slot initial m x)
    slot-append x = get_or-set m.sparse k x m.size 0 (omega (arith, valid.slots))

    pub entry-append :
        (i : ℕ)
        → ((entry initial (append initial m k v) i).key
            ≡ (if m.size == i then k else (entry initial m i).key))
          × ((entry initial (append initial m k v) i).value
              ≡ (if m.size == i then v else (entry initial m i).value))
    entry-append i =
        entry-set m.dense m.size i (record { key = k; value = v })
          (record { key = 0; value = initial }) (omega (arith, valid.cells, free))

    pub append-IsValid : IsValid initial (append initial m k v)
    append-IsValid = record {
      slots = length-set m.sparse k m.size ∙ valid.slots;
      cells = length-set m.dense m.size (record { key = k; value = v }) ∙ valid.cells;
      few = omega (arith, free);
      inside = λ i p. ground (arith, (entry-append i).0, valid.inside i, inside);
      linked = λ i p. elim (Bool-cases (m.size == i)) [
        | inl last ↦
            let is : (entry initial (append initial m k v) i).key ≡ k =
              ground (arith, (entry-append i).0) in
            rw is (ground (arith, slot-append k))
        | inr before ↦
            let is : (entry initial (append initial m k v) i).key ≡ (entry initial m i).key =
              ground (arith, (entry-append i).0) in
            let other = not_in_entries initial m k i valid missing (ground arith) in
            rw is (ground (arith, slot-append (entry initial m i).key, valid.linked i, other))
      ];
    }

    pub lookup-append :
        (x : ℕ)
        → lookup initial (append initial m k v) x ≡ (if k == x then some v else lookup initial m x)
    lookup-append x = elim (Bool-cases (k == x)) [
      | inl same ↦
          let last : (entry initial (append initial m k v) m.size).key ≡ x =
            ground (arith, (entry-append m.size).0) in
          let value : (entry initial (append initial m k v) m.size).value ≡ v =
            ground (arith, (entry-append m.size).1) in
          rw same (
            lookup_of_entry initial (append initial m k v) x m.size append-IsValid (omega arith)
              last
            ∙ ap some value)
      | inr other ↦ rw other (elim (contains-cases initial m x valid) [
        | inl (i, p, e, _) ↦
            let before : (m.size == i) ≡ false = ground arith in
            let is : (entry initial (append initial m k v) i).key ≡ x =
              rw (before, e) at (entry-append i).0 in
            let value : (entry initial (append initial m k v) i).value ≡ (entry initial m i).value =
              rw before at (entry-append i).1 in
            lookup_of_entry initial (append initial m k v) x i append-IsValid (omega arith) is
            ∙ ap some value
            ∙ sym (lookup_of_entry initial m x i valid p e)
        | inr (absent, _) ↦
            lookup_missing initial (append initial m k v) x
              (λ i p. ground (arith, (entry-append i).0, absent i))
            ∙ sym (lookup_missing initial m x absent)
      ])
    ]

  module _ (m : SparseMap V) (k : ℕ) (valid : IsValid initial m) (inside : k < m.capacity) where
    -- add of a key below the capacity keeps the map valid, and gives the key the value if it has
    -- none yet, and no other key.
    pub add_correct :
        (v : V)
        → IsValid initial (add initial m k v)
          × ((x : ℕ)
              → lookup initial (add initial m k v) x
                ≡ (if k == x && not (contains initial m k) then some v else lookup initial m x))
    unfolding add
    add_correct v = elim (Bool-cases (contains initial m k)) [
      | inl found ↦
          rw found
            (valid, λ x. elim (Bool-cases (k == x)) [ inl e ↦ rw e refl | inr e ↦ rw e refl ])
      | inr missing ↦ rw missing (
        append-IsValid m k v valid missing inside,
        λ x. elim (Bool-cases (k == x)) [
          | inl e ↦ rw e (ground (arith, lookup-append m k v valid missing inside x))
          | inr e ↦ rw e (ground (arith, lookup-append m k v valid missing inside x))
        ],
      )
    ]

  -- A map over any memory of the right size is valid and empty, before anything is written.
  pub sparse_empty :
      (n : ℕ) (sparse : List ℕ) (dense : List (Element V)) (x : ℕ)
      → length sparse ≡ n
      → length dense ≡ n
      → IsValid initial (allocate initial n sparse dense)
        × (lookup initial (allocate initial n sparse dense) x ≡ none)
  sparse_empty n sparse dense x p q = (
    record {
      slots = p;
      cells = q;
      few = omega arith;
      inside = λ i r. absurd (omega arith);
      linked = λ i r. absurd (omega arith);
    },
    lookup_missing initial (allocate initial n sparse dense) x (λ i r. absurd (omega arith)),
  )

  -- clear keeps the map valid, and forgets every key.
  pub sparse_clear_correct :
      (m : SparseMap V) (x : ℕ)
      → IsValid initial m
      → IsValid initial (clear initial m) × (lookup initial (clear initial m) x ≡ none)
  unfolding clear
  sparse_clear_correct m x v = (
    record {
      slots = v.slots;
      cells = v.cells;
      few = omega arith;
      inside = λ i r. absurd (omega arith);
      linked = λ i r. absurd (omega arith);
    },
    lookup_missing initial (record m { size = 0 }) x (λ i r. absurd (omega arith)),
  )
