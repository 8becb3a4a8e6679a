-- ===== src/Chunks.antt =====
-- Nodes in a random order, chunk by chunk, as perform_label_propagation
-- (kaminpar/initial_partitioning/initial_coarsener.cc) and init_pq
-- (kaminpar/initial_partitioning/initial_refiner.h) visit them. The shuffle of the chunks
-- (std::shuffle in kaminpar/utility/random.h) and the permutations drawn are arguments.
pub mod Visit
use ka_min_par.Prelude.{
  ℕ, zero, suc, ◌+◌, ◌*◌, ◌≤◌, ◌<◌, ◌≡◌, ◌≢◌, ◌⊎◌, refl, sym, ◌∙◌, ap, inl, inr, Bool, true, false,
  List, [], ◌∷◌, ◌++◌, map, arith, ltb, ◌==◌, Bool-cases, ==_refl,
}
use ka_min_par.FastResetArray.Laws.{is_listed}

-- std::iota over `count` entries
abbrev pub iota : ℕ → ℕ → List ℕ
iota first zero = []
iota first (suc count) = first ∷ iota (first + 1) count

-- The offsets of `count` chunks of `size` nodes.
abbrev pub chunk_offsets : ℕ → ℕ → ℕ → List ℕ
chunk_offsets first size count = map (λ i. first + i * size) (iota 0 count)

-- The loops over chunks and a permutation each, as one list of nodes.
abbrev pub chunk_nodes : (ℕ → List ℕ) → List ℕ → List ℕ
chunk_nodes permutation [] = []
chunk_nodes permutation (offset ∷ offsets) =
    map (λ i. offset + i) (permutation offset) ++ chunk_nodes permutation offsets

-- No number occurs twice.
abbrev pub IsDistinct : List ℕ → Type 0
IsDistinct [] = Unit
IsDistinct (x ∷ l) = (is_listed l x ≡ false) × IsDistinct l

-- What a shuffle keeps.
pub record IsShuffle (shuffle : List ℕ → List ℕ) : Type 0 where
  pub distinct : (l : List ℕ) → IsDistinct l → IsDistinct (shuffle l)
  pub listed : (l : List ℕ) (x : ℕ) → is_listed (shuffle l) x ≡ is_listed l x

-- A permutation of the numbers below `size`.
pub record IsPermutation (size : ℕ) (p : List ℕ) : Type 0 where
  pub distinct : IsDistinct p
  pub listed : (x : ℕ) → is_listed p x ≡ ltb x size

pub is_listed-append :
    (l r : List ℕ) (x : ℕ)
    → is_listed (l ++ r) x ≡ true
    → (is_listed l x ≡ true) ⊎ (is_listed r x ≡ true)
is_listed-append [] r x h = inr h
is_listed-append (y ∷ l) r x h = elim (Bool-cases (y == x)) [
  | inl here ↦ inl (ground arith)
  | inr there ↦ elim (is_listed-append l r x (ground arith)) [
    | inl e ↦ inl (ground (arith, e))
    | inr e ↦ inr e
  ]
]

pub IsDistinct-append :
    (l r : List ℕ)
    → IsDistinct l
    → IsDistinct r
    → ((x : ℕ) → is_listed l x ≡ true → is_listed r x ≡ false)
    → IsDistinct (l ++ r)
IsDistinct-append [] r d e h = e
IsDistinct-append (y ∷ l) r d e h =
    let new : is_listed (l ++ r) y ≡ false = elim (Bool-cases (is_listed (l ++ r) y)) [
      | inr no_ ↦ no_
      | inl found ↦ elim (is_listed-append l r y found) [
        | inl twice ↦ absurd (ground (arith, twice, d.0))
        | inr both ↦ absurd (ground (arith, both, h y (ground (arith, ==_refl y))))
      ]
    ] in
    (new, IsDistinct-append l r d.1 e (λ x q. h x (ground (arith, q))))

-- The numbers of a list that an injective function is applied to.
pub listed-map :
    (f : ℕ → ℕ) (l : List ℕ) (x : ℕ)
    → is_listed (map f l) x ≡ true
    → (i : ℕ) × (is_listed l i ≡ true) × (f i ≡ x)
listed-map f [] x h = absurd cc
listed-map f (y ∷ l) x h = elim (Bool-cases (f y == x)) [
  | inl here ↦ (y, ground (arith, ==_refl y), ground arith)
  | inr there ↦ let (i, q, e) = listed-map f l x (ground arith) in (i, ground (arith, q), e)
]

pub IsDistinct-map :
    (f : ℕ → ℕ) (l : List ℕ) → ((i j : ℕ) → f i ≡ f j → i ≡ j) → IsDistinct l → IsDistinct (map f l)
IsDistinct-map f [] inj d = d
IsDistinct-map f (y ∷ l) inj d =
    let new : is_listed (map f l) (f y) ≡ false = elim (Bool-cases (is_listed (map f l) (f y))) [
      | inr no_ ↦ no_
      | inl found ↦
          let (i, q, e) = listed-map f l (f y) found in
          absurd (ground (arith, sym (ap (is_listed l) (inj i y e)) ∙ q, d.0))
    ] in
    (new, IsDistinct-map f l inj d.1)

pub listed-iota :
    (first count x : ℕ) → is_listed (iota first count) x ≡ true → (first ≤ x) × (x < first + count)
listed-iota first zero x h = absurd cc
listed-iota first (suc count) x h = elim (Bool-cases (first == x)) [
  | inl here ↦ ground arith
  | inr there ↦ ground (arith, listed-iota (first + 1) count x (ground arith))
]

pub iota-IsDistinct : (first count : ℕ) → IsDistinct (iota first count)
iota-IsDistinct first zero = tt
iota-IsDistinct first (suc count) =
    let new : is_listed (iota (first + 1) count) first ≡ false =
      elim (Bool-cases (is_listed (iota (first + 1) count) first)) [
        | inr no_ ↦ no_
        | inl found ↦ absurd (omega (arith, listed-iota (first + 1) count first found))
      ] in
    (new, iota-IsDistinct (first + 1) count)

pub is_listed-iota :
    (first count x : ℕ) → first ≤ x → x < first + count → is_listed (iota first count) x ≡ true
is_listed-iota first zero x a b = absurd (omega arith)
is_listed-iota first (suc count) x a b = elim (Bool-cases (first == x)) [
  | inl here ↦ ground arith
  | inr there ↦
      ground (arith, is_listed-iota (first + 1) count x (ground (arith, a)) (ground (arith, b)))
]

-- Numbers in ascending order are a permutation.
pub iota-IsPermutation : (size : ℕ) → IsPermutation size (iota 0 size)
iota-IsPermutation size = record {
  distinct = iota-IsDistinct 0 size;
  listed = λ x. elim (Bool-cases (is_listed (iota 0 size) x)) [
    | inl found ↦ ground (arith, found, listed-iota 0 size x found)
    | inr missing ↦ elim (Bool-cases (ltb x size)) [
      | inr outside ↦ ground (arith, missing, outside)
      | inl inside ↦
          absurd (
            ground (arith, missing, is_listed-iota 0 size x (omega arith) (ground (arith, inside))))
    ]
  ];
}

pub same_order-IsShuffle : IsShuffle (λ l. l)
same_order-IsShuffle = record { distinct = λ l d. d; listed = λ l x. refl }
