-- ===== src/Hierarchy/Project.antt =====
-- Projecting a partition undoes one step of coarsening.
use ka_min_par.Prelude.{
  ℕ, ◌<◌, ◌≡◌, refl, ◌∙◌, inl, inr, true, false, some, List, [], ◌∷◌, arith, ltb, ◌==◌, ==_refl,
  Bool-cases, if◌then◌else◌, length, get_or, get_or_overflow, replicate,
}
use ka_min_par.Graph.{Graph, n, is_empty}
use ka_min_par.Partition.{
  PartitionedGraph, block, construct, init_block_weights_seq, invalid_block_id,
}
use ka_min_par.Partition.BlockWeights.{
  IsPartition, HasBlockWeights, init_block_weights_seq-HasBlockWeights, length-tabulate,
  get_or-tabulate,
}
use ka_min_par.Hierarchy.{Hierarchy, coarsest_graph, take_coarse_graph, pop_and_project, project}

-- The members before the block weights are added up.
abbrev pub unweighted : Graph → ℕ → List ℕ → List ℕ → PartitionedGraph
unweighted g k partition final_k = record {
  graph = g;
  k = k;
  partition = partition;
  block_weights = replicate k 0;
  final_k = (if is_empty final_k then replicate k 1 else final_k);
}

kept_partition :
    (count : ℕ) (partition : List ℕ)
    → length partition ≡ count
    → (if ltb 0 count
        then (if is_empty partition then replicate count invalid_block_id else partition)
        else partition)
      ≡ partition
kept_partition count [] h =
    let none_at_all : ltb 0 count ≡ false = ground arith in rw none_at_all refl
kept_partition count (b ∷ partition) h = elim (Bool-cases (ltb 0 count)) [
  | inl e ↦ rw e refl
  | inr e ↦ rw e refl
]

-- A partition graph is constructed from a block for each node.
construct_sized :
    (g : Graph) (k : ℕ) (partition final_k : List ℕ)
    → length partition ≡ n g
    → construct g k partition final_k
      ≡ some (init_block_weights_seq (unweighted g k partition final_k))
unfolding construct
construct_sized g k partition final_k h =
    rw (kept_partition (n g) partition h, h, ==_refl (n g)) refl

-- Adding up the block weights changes nothing else.
graph_kept : (p : PartitionedGraph) → (init_block_weights_seq p).graph ≡ p.graph
unfolding init_block_weights_seq
graph_kept p = refl

block_kept : (p : PartitionedGraph) (u : ℕ) → block (init_block_weights_seq p) u ≡ block p u
unfolding init_block_weights_seq
block_kept p u = refl

module _ (h : Hierarchy) (p : PartitionedGraph) (c_mapping : List ℕ) (v : IsPartition p)
    (sized : length c_mapping ≡ n (coarsest_graph h)) where
  abbrev finer : PartitionedGraph
  finer = unweighted (coarsest_graph h) p.k (project p (n (coarsest_graph h)) c_mapping) p.final_k

  block-finer : (u : ℕ) → u < n (coarsest_graph h) → block finer u ≡ block p (get_or c_mapping u 0)
  block-finer u q =
      get_or-tabulate (n (coarsest_graph h)) 0 u u invalid_block_id
        (λ x. block p (get_or c_mapping x 0)) (omega arith) q

  finer-IsPartition : IsPartition finer
  finer-IsPartition = record {
    few = v.few;
    sized = length-tabulate (n (coarsest_graph h)) 0 (λ x. block p (get_or c_mapping x 0));
    assigned = λ u r. elim (Bool-cases (ltb u (n (coarsest_graph h)))) [
      | inl node ↦
          let is = block-finer u (ground arith) in
          rw is (v.assigned (get_or c_mapping u 0) (λ e. r (is ∙ e)))
      | inr outside ↦ absurd (
          r (
            get_or_overflow (project p (n (coarsest_graph h)) c_mapping) u invalid_block_id (
              ground (
                arith,
                length-tabulate (n (coarsest_graph h)) 0 (λ x. block p (get_or c_mapping x 0)),
              ))))
    ];
  }

  -- A coarse graph that was taken with a mapping of all nodes is popped again with a partition of
  -- it: the hierarchy is what it was before, each node of its coarsest graph is in the block of its
  -- coarse node, and the block weights are those of the blocks.
  pub pop_and_project-take_coarse_graph :
      (u : ℕ)
      → u < n (coarsest_graph h)
      → (taken : Hierarchy) × (q : PartitionedGraph) × (take_coarse_graph h p.graph c_mapping
          ≡ some taken)
        × (pop_and_project taken p ≡ some (h, q))
        × (q.graph ≡ coarsest_graph h)
        × (block q u ≡ block p (get_or c_mapping u 0))
        × HasBlockWeights q
  unfolding take_coarse_graph pop_and_project
  pop_and_project-take_coarse_graph u inside =
      let same : (n (coarsest_graph h) == length c_mapping) ≡ true = ground (arith, sized) in
      let built =
        construct_sized (coarsest_graph h) p.k (project p (n (coarsest_graph h)) c_mapping)
          p.final_k finer-IsPartition.sized in
      (
        record h {
          coarse_mappings = c_mapping ∷ h.coarse_mappings;
          coarse_graphs = p.graph ∷ h.coarse_graphs;
        },
        init_block_weights_seq finer,
        rw same refl,
        rw (same, built) refl,
        graph_kept finer,
        block_kept finer u ∙ block-finer u inside,
        init_block_weights_seq-HasBlockWeights finer finer-IsPartition refl,
      )
