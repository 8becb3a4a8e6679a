-- ===== src/Isolated/Revert.antt =====
-- The isolated nodes get blocks, the other nodes keep theirs.
use mathlib.Core.List.{Perm}
use ka_min_par.Prelude.{
  length-replicate, length-replicate, ℕ, zero, suc, ◌+◌, ◌-◌, ◌≤◌, ◌<◌, ◌≡◌, ◌≢◌, ◌⊎◌, refl, ◌∙◌,
  ap, inl, inr, ◌&&◌, some, List, ◌++◌, arith, ltb, Bool-cases, length, get_or, replicate,
  length-append, get_or-append_left, get_or-append_right, get_or_overflow,
}
use ka_min_par.Prelude.Loops.{range}
use ka_min_par.Prelude.Histogram.{add_at}
use ka_min_par.Graph.{Graph, n, node_weight}
use ka_min_par.Partition.{PartitionedGraph, block, invalid_block_id, tabulate}
use ka_min_par.Partition.BlockWeights.{
  IsPartition, HasBlockWeights, visited, length-tabulate, get_or-tabulate,
  init_block_weights-HasBlockWeights, init_block_weights_keeps,
}
use ka_min_par.Isolated.{next_block, isolated_blocks, revert_isolated_nodes_removal}

module _ (g : Graph) (k : ℕ) (max_block_weight : ℕ → ℕ) where
  -- The next block is in range, and it has room or is the last one.
  next_block_room :
      (fuel : ℕ) (weights : List ℕ) (weight b : ℕ)
      → b < k
      → k ≤ b + fuel
      → (next_block g k max_block_weight fuel weights weight b < k)
        × ((get_or weights (next_block g k max_block_weight fuel weights weight b) 0 + weight
              ≤ max_block_weight (next_block g k max_block_weight fuel weights weight b))
            ⊎ (next_block g k max_block_weight fuel weights weight b + 1 ≡ k))
  next_block_room zero weights weight b h enough = absurd (omega arith)
  next_block_room (suc fuel) weights weight b h enough =
      elim (Bool-cases (ltb (b + 1) k && ltb (max_block_weight b) (get_or weights b 0 + weight))) [
        | inl full ↦ rw full (
            next_block_room fuel weights weight (b + 1) (ground (arith, full))
              (omega (arith, enough)))
        | inr stop ↦ rw stop (elim (Bool-cases (ltb (b + 1) k)) [
          | inl inner ↦ (h, inl (ground (arith, stop, inner)))
          | inr last ↦ (h, inr (ground (arith, last, h)))
        ])
      ]

  isolated_blocks-below :
      (u count : ℕ) (weights : List ℕ) (b i : ℕ)
      → b < k
      → i < count
      → get_or (isolated_blocks g k max_block_weight u count weights b) i invalid_block_id < k
  isolated_blocks-below u zero weights b i h p = absurd (omega arith)
  isolated_blocks-below u (suc count) weights b zero h p =
      (next_block_room k weights (node_weight g u) b h (omega arith)).0
  isolated_blocks-below u (suc count) weights b (suc i) h p =
      let found = next_block g k max_block_weight k weights (node_weight g u) b in
      isolated_blocks-below (u + 1) count (add_at weights found (node_weight g u)) found i
        (next_block_room k weights (node_weight g u) b h (omega arith)).0 (omega arith)

  length-isolated_blocks :
      (u count : ℕ) (weights : List ℕ) (b : ℕ)
      → length (isolated_blocks g k max_block_weight u count weights b) ≡ count
  length-isolated_blocks u zero weights b = refl
  length-isolated_blocks u (suc count) weights b =
      let found = next_block g k max_block_weight k weights (node_weight g u) b in
      ap suc (length-isolated_blocks (u + 1) count (add_at weights found (node_weight g u)) found)

module _ (p : PartitionedGraph) (num_isolated_nodes : ℕ) (max_block_weight : ℕ → ℕ)
    (few : p.k ≤ invalid_block_id) (some_block : 0 < p.k)
    (isolated : num_isolated_nodes ≤ n p.graph)
    (assigned : (u : ℕ) → block p u ≢ invalid_block_id → block p u < p.k) where
  abbrev kept : ℕ
  kept = n p.graph - num_isolated_nodes

  abbrev old_blocks : List ℕ
  old_blocks = tabulate kept 0 (block p)

  abbrev new_blocks : List ℕ
  new_blocks =
      isolated_blocks p.graph p.k max_block_weight kept num_isolated_nodes p.block_weights 0

  abbrev reverted : PartitionedGraph
  reverted = record {
    graph = p.graph;
    k = p.k;
    partition = old_blocks ++ new_blocks;
    block_weights = replicate p.k 0;
    final_k = replicate p.k 1;
  }

  length-new_blocks : length new_blocks ≡ num_isolated_nodes
  length-new_blocks =
      length-isolated_blocks p.graph p.k max_block_weight kept num_isolated_nodes p.block_weights 0

  sized : length reverted.partition ≡ n p.graph
  sized = omega (
    arith,
    length-append old_blocks new_blocks,
    length-tabulate kept 0 (block p),
    length-new_blocks,
    isolated,
  )

  -- A node that is not isolated has its block, an isolated one a block in range.
  placed :
      (u : ℕ)
      → u < n p.graph
      → ((u < kept) × (block reverted u ≡ block p u)) ⊎ ((kept ≤ u) × (block reverted u < p.k))
  placed u h = elim (Bool-cases (ltb u kept)) [
    | inl old ↦
        let inside : u < kept = ground arith in
        inl (
          inside,
          get_or-append_left old_blocks new_blocks u invalid_block_id
                (omega (arith, inside, length-tabulate kept 0 (block p)))
              ∙ get_or-tabulate kept 0 u u invalid_block_id (block p) (omega arith) inside,
        )
    | inr new ↦
        let outside : kept ≤ u = ground arith in
        let sized_ = length-tabulate kept 0 (block p) in
        let at =
          get_or-append_right old_blocks new_blocks u invalid_block_id
            (omega (arith, outside, sized_)) in
        let below =
          isolated_blocks-below p.graph p.k max_block_weight kept num_isolated_nodes p.block_weights
            0 (u - length old_blocks) some_block (omega (arith, h, outside, sized_, isolated)) in
        inr (outside, rw at below)
  ]

  reverted-IsPartition : IsPartition reverted
  reverted-IsPartition = record {
    few = few;
    sized = sized;
    assigned = λ u h. elim (Bool-cases (ltb u (n p.graph))) [
      | inl inside ↦ elim (placed u (ground (arith, inside))) [
        | inl old ↦ rw (old.1) (assigned u (λ e. h (old.1 ∙ e)))
        | inr new ↦ new.1
      ]
      | inr outside ↦ absurd (
          h (
            get_or_overflow reverted.partition u invalid_block_id (ground (arith, outside, sized))))
    ];
  }

  -- Whatever nodes each thread visits, each node once: the isolated nodes are given back. The block
  -- weights are right, a node `u` that is not isolated keeps its block, and an isolated one gets a
  -- block in range.
  pub revert_isolated_nodes_removal_correct :
      (threads : List (List ℕ)) (u : ℕ)
      → Perm (visited threads) (range (n p.graph))
      → u < n p.graph
      → (q : PartitionedGraph) × (revert_isolated_nodes_removal p num_isolated_nodes
            max_block_weight threads
          ≡ some q)
        × HasBlockWeights q
        × (((u < kept) × (block q u ≡ block p u)) ⊎ ((kept ≤ u) × (block q u < p.k)))
  unfolding revert_isolated_nodes_removal
  revert_isolated_nodes_removal_correct threads u same h =
      let (q, made, weights) =
        init_block_weights-HasBlockWeights reverted reverted-IsPartition threads same
          (length-replicate p.k 0) in
      let at : block q u ≡ block reverted u =
        ap (λ l. get_or l u invalid_block_id)
          (init_block_weights_keeps reverted q threads made).2 in
      (q, made, weights, rw at (placed u h))
