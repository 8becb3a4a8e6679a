-- ===== src/Chunks/Visit.antt =====
-- Which nodes the loops over chunks visit, and that they visit none twice.
use ka_min_par.Prelude.{
  ℕ, suc, ◌+◌, ◌*◌, ◌≤◌, ◌<◌, ◌≡◌, sym, ◌∙◌, ap, inl, inr, true, List, [], ◌∷◌, map, arith, ltb,
  Bool-cases, ==_refl,
}
use native.Mathlib.Nat.{mul-le-mul_right, suc-mul, eq_of_mul-eq-mul_right}
use ka_min_par.FastResetArray.Laws.{is_listed}
use ka_min_par.Chunks.{
  iota, chunk_offsets, chunk_nodes, IsDistinct, IsShuffle, IsPermutation, is_listed-append,
  IsDistinct-append, listed-map, IsDistinct-map, listed-iota, iota-IsDistinct,
}

module _ (first size : ℕ) (permutation : ℕ → List ℕ)
    (permuted : (offset : ℕ) → IsPermutation size (permutation offset)) where
  -- A node visited lies in a chunk.
  pub listed-chunk_nodes :
      (offsets : List ℕ) (x : ℕ)
      → is_listed (chunk_nodes permutation offsets) x ≡ true
      → (o : ℕ) × (is_listed offsets o ≡ true) × (o ≤ x) × (x < o + size)
  listed-chunk_nodes [] x h = absurd cc
  listed-chunk_nodes (o ∷ offsets) x h =
      elim (is_listed-append (map (λ i. o + i) (permutation o)) (chunk_nodes permutation offsets) x
        h) [
          | inl here ↦
              let (i, q, e) = listed-map (λ i. o + i) (permutation o) x here in
              (
                o,
                ground (arith, ==_refl o),
                omega (arith, e),
                ground (arith, e, sym ((permuted o).listed i) ∙ q),
              )
          | inr there ↦
              let (z, q, a, b) = listed-chunk_nodes offsets x there in (z, ground (arith, q), a, b)
        ]

  -- Chunks of different numbers do not overlap.
  apart :
      (i j x : ℕ)
      → first + i * size ≤ x
      → x < first + i * size + size
      → first + j * size ≤ x
      → x < first + j * size + size
      → i ≡ j
  apart i j x a b a' b' = elim (Bool-cases (ltb i j)) [
    | inl below ↦
        let ordered : suc i ≤ j = ground arith in
        absurd (omega (arith, a, b, a', b', mul-le-mul_right size ordered, suc-mul i size))
    | inr not_below ↦ elim (Bool-cases (ltb j i)) [
      | inl above ↦
          let ordered : suc j ≤ i = ground arith in
          absurd (omega (arith, a, b, a', b', mul-le-mul_right size ordered, suc-mul j size))
      | inr not_above ↦ ground arith
    ]
  ]

  -- Chunks at different multiples: no node is visited twice.
  pub chunk_nodes-IsDistinct :
      (offsets : List ℕ)
      → IsDistinct offsets
      → ((o : ℕ) → is_listed offsets o ≡ true → (i : ℕ) × (first + i * size ≡ o))
      → IsDistinct (chunk_nodes permutation offsets)
  chunk_nodes-IsDistinct [] d h = d
  chunk_nodes-IsDistinct (o ∷ offsets) d h =
      IsDistinct-append (map (λ i. o + i) (permutation o)) (chunk_nodes permutation offsets)
        (IsDistinct-map (λ i. o + i) (permutation o) (λ i j e. omega (arith, e))
          (permuted o).distinct)
        (chunk_nodes-IsDistinct offsets d.1 (λ z q. h z (ground (arith, q))))
        (λ x q. elim (Bool-cases (is_listed (chunk_nodes permutation offsets) x)) [
          | inr no_ ↦ no_
          | inl found ↦
              let (i, p, e) = listed-map (λ i. o + i) (permutation o) x q in
              let inside : i < size = ground (arith, sym ((permuted o).listed i) ∙ p) in
              let (z, l, a, b) = listed-chunk_nodes offsets x found in
              let (c, ce) = h o (ground (arith, ==_refl o)) in
              let (c', ce') = h z (ground (arith, l)) in
              let same =
                apart c c' x (omega (arith, e, ce)) (omega (arith, e, ce, inside))
                  (omega (arith, ce', a)) (omega (arith, ce', b)) in
              let again : o ≡ z = sym ce ∙ ap (λ k. first + k * size) same ∙ ce' in
              absurd (ground (arith, ap (is_listed offsets) again, l, d.0))
        ])

  -- Chunks at the shuffled offsets.
  pub visit_correct :
      (shuffle : List ℕ → List ℕ) (count : ℕ)
      → 0 < size
      → IsShuffle shuffle
      → IsDistinct (chunk_nodes permutation (shuffle (chunk_offsets first size count)))
        × ((x : ℕ)
            → is_listed (chunk_nodes permutation (shuffle (chunk_offsets first size count))) x
              ≡ true
            → (first ≤ x) × (x < first + count * size))
  visit_correct shuffle count some_size shuffled =
      let offsets = chunk_offsets first size count in
      let place : (o : ℕ)
          → is_listed (shuffle offsets) o ≡ true
          → (i : ℕ) × (is_listed (iota 0 count) i ≡ true) × (first + i * size ≡ o) =
        λ o l.
          listed-map (λ i. first + i * size) (iota 0 count) o
            (sym (shuffled.listed offsets o) ∙ l) in
      (
        chunk_nodes-IsDistinct (shuffle offsets)
            (shuffled.distinct offsets (
              IsDistinct-map (λ i. first + i * size) (iota 0 count)
                (λ i j e. eq_of_mul-eq-mul_right size some_size i j (omega (arith, e)))
                (iota-IsDistinct 0 count)))
            (λ o l. (let (i, q, e) = place o l in (i, e))),
        λ x l.
            (let (o, q, a, b) = listed-chunk_nodes (shuffle offsets) x l in
              let (i, p, e) = place o q in
              let below : suc i ≤ count = omega (arith, listed-iota 0 count i p) in
              let more = mul-le-mul_right size below in
              (omega (arith, a, e), omega (arith, b, e, more, suc-mul i size))),
      )
