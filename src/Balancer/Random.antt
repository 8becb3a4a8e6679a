-- ===== src/Balancer/Random.antt =====
-- move_to_random_block tries every feasible block until one has room.
use ka_min_par.Prelude.{
  ℕ, zero, suc, ◌+◌, ◌-◌, ◌≤◌, ◌<◌, ◌≡◌, ◌≢◌, ◌⊎◌, refl, ◌∙◌, inl, inr, true, false, some, List, [],
  ◌∷◌, arith, leb, ◌==◌, ==_refl, if◌then◌else◌, Bool-cases, length, get_or, set, length-set,
  get_or-set, length-take_le, get_or-take,
}
use ka_min_par.Graph.{n, node_weight}
use ka_min_par.Partition.{PartitionedGraph, block, block_weight}
use ka_min_par.Partition.BlockWeights.{HasBlockWeights}
use ka_min_par.Balancer.{swap_remove, move_to_random_block}
use ka_min_par.Balancer.Sequential.{move_node_if_possible_correct}

abbrev shifted : List ℕ → ℕ → List ℕ
shifted blocks i = set blocks i (get_or blocks (length blocks - 1) 0)

length-swap_remove : (blocks : List ℕ) (i : ℕ) → length (swap_remove blocks i) ≡ length blocks - 1
length-swap_remove blocks i =
    length-take_le (length blocks - 1) (shifted blocks i)
      (omega (arith, length-set blocks i (get_or blocks (length blocks - 1) 0)))

-- What is left at a position is what stood there, or the last block.
get_or-swap_remove :
    (blocks : List ℕ) (i j : ℕ)
    → i < length blocks
    → j < length blocks - 1
    → get_or (swap_remove blocks i) j 0
      ≡ (if i == j then get_or blocks (length blocks - 1) 0 else get_or blocks j 0)
get_or-swap_remove blocks i j p h =
    get_or-take (length blocks - 1) (shifted blocks i) j 0 h
    ∙ get_or-set blocks i j (get_or blocks (length blocks - 1) 0) 0 p

-- A property of the removed block and of those left is one of all blocks.
swap_remove_all :
    (P : ℕ → Type 0) (blocks : List ℕ) (i : ℕ)
    → i < length blocks
    → P (get_or blocks i 0)
    → ((j : ℕ) → j < length blocks - 1 → P (get_or (swap_remove blocks i) j 0))
    → (j : ℕ) → j < length blocks
    → P (get_or blocks j 0)
swap_remove_all P blocks i p here rest j q = elim (Bool-cases (i == j)) [
  | inl same ↦ let e : i ≡ j = ground arith in rw (← e) here
  | inr apart ↦ elim (Bool-cases (j == (length blocks - 1))) [
    | inl last ↦
        let e : j ≡ length blocks - 1 = ground arith in
        let before : i < length blocks - 1 = ground (arith, p) in
        let value = get_or-swap_remove blocks i i p before in
        let moved : get_or (swap_remove blocks i) i 0 ≡ get_or blocks (length blocks - 1) 0 =
          rw (==_refl i) at value in
        rw (e, ← moved) (rest i before)
    | inr inner ↦
        let before : j < length blocks - 1 = ground (arith, q) in
        let value = get_or-swap_remove blocks i j p before in
        let same : get_or (swap_remove blocks i) j 0 ≡ get_or blocks j 0 = rw apart at value in
        rw (← same) (rest j before)
  ]
]

-- The blocks left are among those before.
swap_remove_some :
    (P : ℕ → Type 0) (blocks : List ℕ) (i : ℕ)
    → i < length blocks
    → ((j : ℕ) → j < length blocks → P (get_or blocks j 0))
    → (j : ℕ) → j < length (swap_remove blocks i)
    → P (get_or (swap_remove blocks i) j 0)
swap_remove_some P blocks i p all j q =
    let inside : j < length blocks - 1 = omega (arith, q, length-swap_remove blocks i) in
    rw (get_or-swap_remove blocks i j p inside) (elim (Bool-cases (i == j)) [
      | inl same ↦ rw same (all (length blocks - 1) (omega arith))
      | inr apart ↦ rw apart (all j (omega arith))
    ])

module _ (max_block_weight : ℕ → ℕ) (p : PartitionedGraph) (u : ℕ) where
  -- No block of the list has room for the node.
  abbrev pub AllFull : List ℕ → Type 0
  AllFull [] = Unit
  AllFull (b ∷ blocks) =
      (max_block_weight b < block_weight p b + node_weight p.graph u) × AllFull blocks

  all_full :
      (blocks : List ℕ)
      → ((j : ℕ)
          → j < length blocks
          → max_block_weight (get_or blocks j 0)
            < block_weight p (get_or blocks j 0) + node_weight p.graph u)
      → AllFull blocks
  all_full [] h = tt
  all_full (b ∷ blocks) h = (h 0 (omega arith), all_full blocks (λ j q. h (suc j) (omega arith)))

  -- Blocks that the node can move to: in range, and not the node's own.
  abbrev AllTargets : List ℕ → Type 0
  AllTargets blocks =
      (j : ℕ) → j < length blocks → (get_or blocks j 0 < p.k) × (get_or blocks j 0 ≢ block p u)

  module _ (random : ℕ → ℕ) (drawn : (count : ℕ) → 0 < count → random count < count)
      (w : HasBlockWeights p) (sized : length p.partition ≡ n p.graph) (node : u < n p.graph)
      (inside : block p u < p.k) where
    abbrev Outcome : ℕ → List ℕ → Type 0
    Outcome fuel blocks =
        ((q : PartitionedGraph) × (left : List ℕ) × (move_to_random_block max_block_weight fuel
              random p u blocks
            ≡ some (true, q, left))
          × HasBlockWeights q
          × (block_weight p (block q u) + node_weight p.graph u ≤ max_block_weight (block q u)))
        ⊎ ((move_to_random_block max_block_weight fuel random p u blocks ≡ some (false, p, []))
            × ((j : ℕ)
                → j < length blocks
                → max_block_weight (get_or blocks j 0)
                  < block_weight p (get_or blocks j 0) + node_weight p.graph u))

    tries :
        (fuel : ℕ) (blocks : List ℕ)
        → length blocks ≤ fuel
        → AllTargets blocks
        → Outcome fuel blocks
    unfolding move_to_random_block
    tries zero [] h targets = inr (refl, λ j q. absurd (omega arith))
    tries zero (b ∷ blocks) h targets = absurd (omega arith)
    tries (suc fuel) [] h targets = inr (refl, λ j q. absurd (omega arith))
    tries (suc fuel) (b ∷ blocks) h targets =
        let feasible = b ∷ blocks in
        let i = random (length feasible) in
        let below : i < length feasible = drawn (length feasible) (omega arith) in
        let to = get_or feasible i 0 in
        let (target, other) = targets i below in
        let (q, made, order, weights, same_size, at, bound) =
          move_node_if_possible_correct max_block_weight p u (block p u) to w sized node refl inside
            target other u 0 in
        let rest =
          tries fuel (swap_remove feasible i) (omega (arith, h, length-swap_remove feasible i))
            (swap_remove_some (λ c. (c < p.k) × (c ≢ block p u)) feasible i below targets) in
        elim (Bool-cases (leb (block_weight p to + node_weight p.graph u) (max_block_weight to)))
          as (λ _. Outcome (suc fuel) feasible) [
            | inl room ↦
                let moved_to : block q u ≡ to = rw (room, ==_refl u) at at in
                inl (q, feasible, rw (made, room) refl, weights, rw moved_to (ground (arith, room)))
            | inr full ↦ elim rest as (λ _. Outcome (suc fuel) feasible) [
              | inl found ↦
                  let (q', left, made', weights', room') = found in
                  inl (q', left, rw (made, full, made') refl, weights', room')
              | inr none_left ↦ inr (
                rw (made, full, none_left.0) refl,
                swap_remove_all (λ c. max_block_weight c < block_weight p c + node_weight p.graph u)
                    feasible i below (ground (arith, full))
                    (λ j r. none_left.1 j (omega (arith, r, length-swap_remove feasible i))),
              )
            ]
          ]

    -- With as many tries as there are feasible blocks: the node is moved to a block that had room
    -- for it, and the block weights are right, or no feasible block has room, none is left, and
    -- nothing is changed.
    pub move_to_random_block_correct :
        (blocks : List ℕ)
        → ((j : ℕ)
            → j < length blocks
            → (get_or blocks j 0 < p.k) × (get_or blocks j 0 ≢ block p u))
        → ((q : PartitionedGraph) × (left : List ℕ) × (move_to_random_block max_block_weight
                (length blocks)
                random
                p
                u
                blocks
              ≡ some (true, q, left))
            × HasBlockWeights q
            × (block_weight p (block q u) + node_weight p.graph u ≤ max_block_weight (block q u)))
          ⊎ ((move_to_random_block max_block_weight (length blocks) random p u blocks
                ≡ some (false, p, []))
              × AllFull blocks)
    move_to_random_block_correct blocks targets =
        elim (tries (length blocks) blocks (omega arith) targets) [
          | inl found ↦ inl found
          | inr full ↦ inr (full.0, all_full blocks full.1)
        ]
