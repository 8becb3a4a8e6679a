-- ===== src/Partition/SetBlock.antt =====
-- set_block moves one node: the block weights stay the weights of the blocks.
use ka_min_par.Prelude.{
  ==_refl, ℕ, ◌+◌, ◌-◌, ◌≤◌, ◌<◌, ◌≡◌, ◌≢◌, ◌∙◌, not, some, List, arith, ◌==◌, if◌then◌else◌,
  length, get_or, set, length-set, get_or-set,
}
use ka_min_par.Prelude.Sums.{sum_below, sum_below_update, sum_below_le}
use ka_min_par.Prelude.Histogram.{add_at}
use ka_min_par.Graph.{n, node_weight}
use ka_min_par.Partition.{PartitionedGraph, invalid_block_id, block, block_weight, set_block}
use ka_min_par.Partition.BlockWeights.{weight_of_block, IsPartition, HasBlockWeights}

module _ (p : PartitionedGraph) (u new_b : ℕ) (v : IsPartition p) (hw : HasBlockWeights p)
    (node : u < n p.graph) (inside : new_b < p.k) (other : new_b ≢ block p u) where
  -- Moving `u` changes the weight of its old and of its new block by the weight of `u`.
  weight_of_block-moved :
      (b : ℕ) (part : ℕ → ℕ)
      → part u ≡ new_b
      → ((x : ℕ) → x ≢ u → part x ≡ block p x)
      → sum_below (n p.graph) (λ x. if part x == b then node_weight p.graph x else 0)
          + (if block p u == b then node_weight p.graph u else 0)
        ≡ weight_of_block p b + (if new_b == b then node_weight p.graph u else 0)
  weight_of_block-moved b part here there = rw (← here) (
      sum_below_update (n p.graph) (λ x. if part x == b then node_weight p.graph x else 0)
        (λ x. if block p x == b then node_weight p.graph x else 0) u node (λ x q r. rw (there x r)))

  -- The graph with `u` in its new block, as set_block leaves it.
  abbrev pub left : List ℕ
  left =
      if not (block p u == invalid_block_id)
      then set p.block_weights (block p u)
          (get_or p.block_weights (block p u) 0 - node_weight p.graph u)
      else p.block_weights

  abbrev pub moved : PartitionedGraph
  moved = record p {
    block_weights = add_at left new_b (node_weight p.graph u);
    partition = set p.partition u new_b;
  }

  length-left : length left ≡ p.k
  length-left = ground (
    arith,
    hw.cells,
    length-set p.block_weights (block p u)
        (get_or p.block_weights (block p u) 0 - node_weight p.graph u),
  )

  -- A node is not heavier than its block.
  node_weight-le : block p u ≢ invalid_block_id → node_weight p.graph u ≤ block_weight p (block p u)
  node_weight-le assigned =
      let term =
        sum_below_le (n p.graph) (λ x. if block p x == block p u then node_weight p.graph x else 0)
          u node in
      let mine : (if block p u == block p u then node_weight p.graph u else 0)
          ≡ node_weight p.graph u =
        rw (==_refl (block p u)) in
      omega (arith, term, mine, hw.weights (block p u) (v.assigned u assigned))

  pub block-moved : (x : ℕ) → block moved x ≡ (if u == x then new_b else block p x)
  block-moved x = get_or-set p.partition u x new_b invalid_block_id (omega (arith, v.sized))

  get_or-left :
      (b : ℕ)
      → b < p.k
      → get_or left b 0 + (if block p u == b then node_weight p.graph u else 0) ≡ block_weight p b
  get_or-left b h = ground (
    arith,
    get_or-set p.block_weights (block p u) b
        (get_or p.block_weights (block p u) 0 - node_weight p.graph u) 0,
    node_weight-le,
    hw.cells,
    v.assigned u,
    v.few,
  )

  block_weight-moved :
      (b : ℕ)
      → b < p.k
      → block_weight moved b + (if block p u == b then node_weight p.graph u else 0)
        ≡ block_weight p b + (if new_b == b then node_weight p.graph u else 0)
  block_weight-moved b h = ground (
    arith,
    get_or-left b h,
    get_or-set left new_b b (get_or left new_b 0 + node_weight p.graph u) 0,
    length-left,
  )

  pub moved-HasBlockWeights : HasBlockWeights moved
  moved-HasBlockWeights = record {
    cells = length-set left new_b (get_or left new_b 0 + node_weight p.graph u) ∙ length-left;
    weights = λ b h. omega (
      arith,
      block_weight-moved b h,
      weight_of_block-moved b (block moved) (ground (arith, block-moved u))
          (λ x r. ground (arith, block-moved x)),
      hw.weights b h,
    );
  }

  pub moved-IsPartition : IsPartition moved
  moved-IsPartition = record {
    few = v.few;
    sized = length-set p.partition u new_b ∙ v.sized;
    assigned = λ x r. ground (arith, block-moved x, v.assigned x);
  }

  pub set_block-moved : set_block p u new_b ≡ some moved
  unfolding set_block
  set_block-moved = ground arith

  -- set_block of a node of the graph to another block succeeds, puts that node and no other into
  -- the new block, and keeps the block weights right; the weight taken from the old block is at
  -- most the weight of that block.
  pub set_block_correct :
      (q : PartitionedGraph) × (set_block p u new_b ≡ some q)
      × ((x : ℕ) → block q x ≡ (if u == x then new_b else block p x))
      × IsPartition q
      × HasBlockWeights q
      × ((if block p u == invalid_block_id then 0 else node_weight p.graph u)
          ≤ block_weight p (block p u))
  set_block_correct = (
    moved,
    set_block-moved,
    block-moved,
    moved-IsPartition,
    moved-HasBlockWeights,
    ground (arith, node_weight-le),
  )
