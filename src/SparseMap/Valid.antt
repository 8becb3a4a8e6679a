-- ===== src/SparseMap/Valid.antt =====
-- Valid sparse maps, and that a map with a missing key has room for it.
use ka_min_par.Prelude.{
  ℕ, zero, suc, ◌+◌, ◌≤◌, ◌<◌, ◌≡◌, ◌≢◌, refl, ◌∙◌, ap, inl, inr, true, false, Option, none, some,
  arith, ◌==◌, ==_refl, ◌⊎◌, if◌then◌else◌, Bool-cases, length,
}
use ka_min_par.Prelude.Sums.{
  sum_below, sum_below_add, sum_below_congr, sum_below_mono, sum_below_one, sum_below_pick,
  sum_below_group, sum_below_zero,
}
use ka_min_par.SparseMap.{SparseMap, slot, entry, contains}

-- Values that differ are hit at most once.
at_most_once :
    (n : ℕ) (f : ℕ → ℕ) (v : ℕ)
    → ((i j : ℕ) → i < j → j < n → f i ≢ f j)
    → sum_below n (λ i. if f i == v then 1 else 0) ≤ 1
at_most_once zero f v h = omega arith
at_most_once (suc n) f v h = elim (Bool-cases (f n == v)) [
  | inl hit ↦
      let none_before =
        sum_below_congr n (λ i. if f i == v then 1 else 0) (λ _. 0)
          (λ i p. ground (arith, h i n p (omega arith)))
        ∙ sum_below_zero n in
      ground (arith, none_before)
  | inr other ↦ ground (arith, at_most_once n f v (λ i j p q. h i j p (omega arith)))
]

-- Different numbers below `c` that leave one out are fewer than `c`.
pub pigeonhole :
    (n c k : ℕ) (f : ℕ → ℕ)
    → ((i : ℕ) → i < n → f i < c)
    → ((i j : ℕ) → i < j → j < n → f i ≢ f j)
    → k < c
    → ((i : ℕ) → i < n → f i ≢ k)
    → n < c
pigeonhole n c k f below different inside missing =
    let hits = λ (v : ℕ). sum_below n (λ i. if f i == v then 1 else 0) in
    let all = sum_below_group n c f (λ _. 1) (λ _. true) below in
    let none_at : hits k ≡ 0 =
      sum_below_congr n (λ i. if f i == k then 1 else 0) (λ _. 0)
        (λ i p. ground (arith, missing i p))
      ∙ sum_below_zero n in
    let bound =
      sum_below_mono c (λ v. hits v + (if v == k then 1 else 0)) (λ _. 1)
        (λ v p. elim (Bool-cases (v == k)) [
          | inl same ↦ let e : v ≡ k = ground arith in rw same (rw e (omega (arith, none_at)))
          | inr other ↦ rw other (omega (arith, at_most_once n f v different))
        ]) in
    omega (
      arith,
      all,
      bound,
      sum_below_one n,
      sum_below_one c,
      sum_below_add c hits (λ v. if v == k then 1 else 0),
      sum_below_pick c k 1 inside,
    )

module _ {V : Type 0} (initial : V) where
  -- Entry and slot of a key refer to each other, for the first `size` entries.
  pub record IsValid (m : SparseMap V) : Type 0 where
    pub slots : length m.sparse ≡ m.capacity
    pub cells : length m.dense ≡ m.capacity
    pub few : m.size ≤ m.capacity
    pub inside : (i : ℕ) → i < m.size → (entry initial m i).key < m.capacity
    pub linked : (i : ℕ) → i < m.size → slot initial m (entry initial m i).key ≡ i

  -- The value of a key, if the map has one.
  abbrev pub lookup : SparseMap V → ℕ → Option V
  lookup m k =
      if contains initial m k then some (entry initial m (slot initial m k)).value else none

  -- No entry has a key that is not contained.
  pub not_in_entries :
      (m : SparseMap V) (k i : ℕ)
      → IsValid m
      → contains initial m k ≡ false
      → i < m.size
      → (entry initial m i).key ≢ k
  not_in_entries m k i v h p e =
      let linked : slot initial m k ≡ i = rw (← e) (v.linked i p) in
      let same : (entry initial m (slot initial m k)).key ≡ k = rw linked e in
      absurd (ground (arith, linked, same))

  -- Each key has one entry.
  pub same_index :
      (m : SparseMap V) (i j : ℕ)
      → IsValid m
      → i < m.size
      → j < m.size
      → (entry initial m i).key ≡ (entry initial m j).key
      → i ≡ j
  same_index m i j v p q e =
      let same : slot initial m (entry initial m i).key ≡ slot initial m (entry initial m j).key =
        ap (slot initial m) e in
      omega (arith, same, v.linked i p, v.linked j q)

  -- There is room for a key that is missing.
  pub room :
      (m : SparseMap V) (k : ℕ)
      → IsValid m
      → contains initial m k ≡ false
      → k < m.capacity
      → m.size < m.capacity
  room m k v h p =
      pigeonhole m.size m.capacity k (λ i. (entry initial m i).key) v.inside
        (λ i j q r e. absurd (omega (arith, same_index m i j v (omega arith) r e))) p
        (λ i q. not_in_entries m k i v h q)

  -- A key is found by any entry that has it.
  pub lookup_of_entry :
      (m : SparseMap V) (k i : ℕ)
      → IsValid m
      → i < m.size
      → (entry initial m i).key ≡ k
      → lookup m k ≡ some (entry initial m i).value
  lookup_of_entry m k i v p e =
      let linked : slot initial m k ≡ i = rw (← e) (v.linked i p) in
      let found : contains initial m k ≡ true = rw (linked, e) (ground (arith, ==_refl k)) in
      rw (found, linked) refl

  -- A key is missing if no entry has it.
  pub lookup_missing :
      (m : SparseMap V) (k : ℕ)
      → ((i : ℕ) → i < m.size → (entry initial m i).key ≢ k)
      → lookup m k ≡ none
  lookup_missing m k h =
      let absent : contains initial m k ≡ false = ground (arith, h (slot initial m k)) in
      rw absent refl

  -- A key that is contained has an entry, and one that is not has none.
  pub contains-cases :
      (m : SparseMap V) (k : ℕ)
      → IsValid m
      → ((i : ℕ) × (i < m.size) × ((entry initial m i).key ≡ k) × (contains initial m k ≡ true))
        ⊎ (((i : ℕ) → i < m.size → (entry initial m i).key ≢ k) × (contains initial m k ≡ false))
  contains-cases m k v = elim (Bool-cases (contains initial m k)) [
    | inl found ↦ inl (slot initial m k, ground arith, ground arith, found)
    | inr absent ↦ inr (λ i p. not_in_entries m k i v absent p, absent)
  ]
