-- ===== src/Partition/BlockWeights.antt =====
-- The block weights that the constructors compute, by any schedule of threads.
use mathlib.Core.List.{Perm}
use mathlib.Core.List.{append-nil}
use ka_min_par.Prelude.{
  leb, drop, drop_overflow, assert-some, sym, true, some, sym, ℕ, zero, suc, ◌+◌, ◌≤◌, ◌<◌, ◌≡◌,
  ◌≢◌, refl, ◌∙◌, ap, inl, inr, false, not, List, [], ◌∷◌, ◌++◌, arith, ◌==◌, if◌then◌else◌,
  Bool-cases, length, get_or, replicate, length-replicate, get_or-replicate,
}
use ka_min_par.Prelude.Loops.{sum_list, sum_list-append, sum_list-perm, range, sum_list-range}
use ka_min_par.Prelude.Sums.{sum_below, sum_below_congr}
use ka_min_par.Prelude.Histogram.{get_or-gather_add, get_or-scatter_add, length-scatter_add}
use ka_min_par.Graph.{n, node_weight}
use ka_min_par.Partition.{
  all_assigned, all_threads_assigned, PartitionedGraph, invalid_block_id, block, block_weight,
  local_block_weights, tabulate, sum_over_threads, init_block_weights, init_block_weights_seq,
}

-- The weight of the nodes of block `b`.
abbrev pub weight_of_block : PartitionedGraph → ℕ → ℕ
weight_of_block p b =
    sum_below (n p.graph) (λ u. if block p u == b then node_weight p.graph u else 0)

-- A node is in a block, or in none yet.
pub record IsPartition (p : PartitionedGraph) : Type 0 where
  pub few : p.k ≤ invalid_block_id
  pub sized : length p.partition ≡ n p.graph
  pub assigned : (u : ℕ) → block p u ≢ invalid_block_id → block p u < p.k

-- The weight of each block is the weight of its nodes.
pub record HasBlockWeights (p : PartitionedGraph) : Type 0 where
  pub cells : length p.block_weights ≡ p.k
  pub weights : (b : ℕ) → b < p.k → block_weight p b ≡ weight_of_block p b

-- The nodes that all threads visit.
abbrev pub visited : List (List ℕ) → List ℕ
visited [] = []
visited (nodes ∷ threads) = nodes ++ visited threads

pub length-tabulate : (rounds i : ℕ) (f : ℕ → ℕ) → length (tabulate rounds i f) ≡ rounds
length-tabulate zero i f = refl
length-tabulate (suc rounds) i f = ap suc (length-tabulate rounds (i + 1) f)

pub get_or-tabulate :
    (rounds i j c d : ℕ) (f : ℕ → ℕ)
    → i + j ≡ c
    → j < rounds
    → get_or (tabulate rounds i f) j d ≡ f c
get_or-tabulate zero i j c d f e h = absurd (omega arith)
get_or-tabulate (suc rounds) i zero c d f e h = ap f (omega arith)
get_or-tabulate (suc rounds) i (suc j) c d f e h =
    get_or-tabulate rounds (i + 1) j c d f (omega arith) (omega arith)

module _ (p : PartitionedGraph) (v : IsPartition p) where
  guarded_weight :
      (b u : ℕ)
      → b < p.k
      → (if not (block p u == invalid_block_id)
          then (if block p u == b then node_weight p.graph u else 0)
          else 0)
        ≡ (if block p u == b then node_weight p.graph u else 0)
  guarded_weight b u h = elim (Bool-cases (block p u == invalid_block_id)) [
    | inr assigned ↦ rw assigned
    | inl missing ↦
        let other : (block p u == b) ≡ false = ground (arith, v.few) in rw (missing, other)
  ]

  -- From empty cells, the sequential loop computes the weight of each block.
  pub init_block_weights_seq-HasBlockWeights :
      p.block_weights ≡ replicate p.k 0 → HasBlockWeights (init_block_weights_seq p)
  unfolding init_block_weights_seq
  init_block_weights_seq-HasBlockWeights empty =
      let on = λ (u : ℕ). not (block p u == invalid_block_id) in
      let w = node_weight p.graph in
      record {
        cells =
            length-scatter_add on (block p) w (n p.graph) p.block_weights
            ∙ (ap length empty ∙ length-replicate p.k 0);
        weights = λ b h. omega (
          arith,
          get_or-scatter_add on (block p) w (n p.graph) p.block_weights b (λ u q t.
              ground (arith, v.assigned u, ap length empty, length-replicate {A = ℕ} p.k 0)),
          ap (λ (c : List ℕ). get_or c b 0) empty,
          get_or-replicate {A = ℕ} p.k b 0,
          sum_below_congr (n p.graph) _ _ (λ u q. guarded_weight b u h),
        );
      }

  guarded : ℕ → ℕ → ℕ
  guarded b u =
      if not (block p u == invalid_block_id)
      then (if block p u == b then node_weight p.graph u else 0)
      else 0

  -- A thread computes the weights of the nodes that it visits.
  get_or-local_block_weights :
      (nodes : List ℕ) (b : ℕ)
      → get_or (local_block_weights p nodes) b 0 ≡ sum_list nodes (guarded b)
  unfolding local_block_weights guarded
  get_or-local_block_weights nodes b = omega (
    arith,
    get_or-gather_add (λ u. not (block p u == invalid_block_id)) (block p) (node_weight p.graph)
        nodes (replicate p.k 0) b
        (λ u t. ground (arith, v.assigned u, length-replicate {A = ℕ} p.k 0)),
    get_or-replicate {A = ℕ} p.k b 0,
  )

  sum_over_threads-all :
      (threads : List (List ℕ)) (b : ℕ)
      → sum_over_threads p threads b ≡ sum_list (visited threads) (guarded b)
  sum_over_threads-all [] b = refl
  sum_over_threads-all (nodes ∷ threads) b = omega (
    arith,
    sum_list-append nodes (visited threads) (guarded b),
    get_or-local_block_weights nodes b,
    sum_over_threads-all threads b,
  )

  all_assigned-true : (nodes : List ℕ) → all_assigned p nodes ≡ true
  all_assigned-true [] = refl
  all_assigned-true (u ∷ nodes) = ground (arith, v.assigned u, all_assigned-true nodes)

  all_threads_assigned-true : (threads : List (List ℕ)) → all_threads_assigned p threads ≡ true
  all_threads_assigned-true [] = refl
  all_threads_assigned-true (nodes ∷ threads) =
      ground (arith, all_assigned-true nodes, all_threads_assigned-true threads)

  -- Whatever nodes each thread visits, in whatever order: if they are together the nodes of the
  -- graph, each once, and there is a cell for each block and no more, then the parallel loops meet
  -- no failed assertion and compute the weight of each block.
  pub init_block_weights-HasBlockWeights :
      (threads : List (List ℕ))
      → Perm (visited threads) (range (n p.graph))
      → length p.block_weights ≡ p.k
      → (q : PartitionedGraph) × (init_block_weights p threads ≡ some q) × HasBlockWeights q
  unfolding init_block_weights guarded
  init_block_weights-HasBlockWeights threads same cells =
      let sums = tabulate p.k 0 (sum_over_threads p threads) in
      let rest = drop_overflow p.k p.block_weights (omega arith) in
      let whole : sums ++ drop p.k p.block_weights ≡ sums = rw rest (append-nil sums) in
      let room : leb p.k (length p.block_weights) ≡ true = ground arith in
      (
        record p { block_weights = sums ++ drop p.k p.block_weights },
        rw (all_threads_assigned-true threads, room) refl,
        record {
          cells = ap length whole ∙ length-tabulate p.k 0 (sum_over_threads p threads);
          weights = λ b h.
              ap (λ (c : List ℕ). get_or c b 0) whole
              ∙ omega (
                arith,
                get_or-tabulate p.k 0 b b 0 (sum_over_threads p threads) (omega arith) h,
                sum_over_threads-all threads b,
                sum_list-perm (guarded b) same,
                sum_list-range (n p.graph) (guarded b),
                sum_below_congr (n p.graph) (guarded b)
                    (λ u. if block p u == b then node_weight p.graph u else 0)
                    (λ u q. guarded_weight b u h),
              );
        },
      )

-- Adding up the weights changes nothing else.
pub init_block_weights_keeps :
    (p q : PartitionedGraph) (threads : List (List ℕ))
    → init_block_weights p threads ≡ some q
    → (q.graph ≡ p.graph) × (q.k ≡ p.k) × (q.partition ≡ p.partition) × (q.final_k ≡ p.final_k)
unfolding init_block_weights
init_block_weights_keeps p q threads h = elim (Bool-cases (all_threads_assigned p threads)) [
  | inl ok ↦
      let (room, made) = assert-some (leb p.k (length p.block_weights)) _ q (rw ok at h) in
      let is : record p {
        block_weights = tabulate p.k 0 (sum_over_threads p threads) ++ drop p.k p.block_weights;
      }
          ≡ q =
        cc in
      (
        ap (λ (x : PartitionedGraph). x.graph) (sym is),
        ap (λ (x : PartitionedGraph). x.k) (sym is),
        ap (λ (x : PartitionedGraph). x.partition) (sym is),
        ap (λ (x : PartitionedGraph). x.final_k) (sym is),
      )
  | inr failed ↦ let no = rw failed at h in absurd cc
]
