-- ===== src/Refiner/Rollback.antt =====
-- The moves taken back at the end of a round restore the partition that was accepted.
use ka_min_par.Prelude.{
  ℕ, ◌-◌, ◌<◌, ◌≡◌, refl, sym, ◌∙◌, ap, inl, inr, true, false, some, List, [], ◌∷◌, arith, ◌==◌,
  ==_refl, if◌then◌else◌, Bool-cases,
}
use ka_min_par.FastResetArray.Laws.{is_listed}
use ka_min_par.Chunks.{IsDistinct}
use ka_min_par.Graph.{n}
use ka_min_par.Partition.{PartitionedGraph, block, set_block}
use ka_min_par.Partition.BlockWeights.{IsPartition, HasBlockWeights}
use ka_min_par.Partition.SetBlock.{
  moved, block-moved, set_block-moved, moved-IsPartition, moved-HasBlockWeights,
}
use ka_min_par.Refiner.Search.{rollback}

-- A partition in two blocks, whose weights are right.
pub record IsBipartitioned (p : PartitionedGraph) : Type 0 where
  pub two : p.k ≡ 2
  pub partition : IsPartition p
  pub weights : HasBlockWeights p
  pub assigned : (x : ℕ) → x < n p.graph → block p x < 2

-- The other block, for the nodes listed.
abbrev pub flipped : (ℕ → ℕ) → List ℕ → ℕ → ℕ
flipped block_ moves x = if is_listed moves x then 1 - block_ x else block_ x

module _ (p : PartitionedGraph) (u : ℕ) (v : IsBipartitioned p) (node : u < n p.graph) where
  abbrev flip_one : PartitionedGraph
  flip_one =
      moved p u (1 - block p u) v.partition v.weights node (omega (arith, v.two))
        (omega (arith, v.assigned u node))

  at-flip_one : (x : ℕ) → block flip_one x ≡ (if u == x then 1 - block p u else block p x)
  at-flip_one x =
      block-moved p u (1 - block p u) v.partition v.weights node (omega (arith, v.two))
        (omega (arith, v.assigned u node)) x

  flip_one-made : set_block p u (1 - block p u) ≡ some flip_one
  flip_one-made =
      set_block-moved p u (1 - block p u) v.partition v.weights node (omega (arith, v.two))
        (omega (arith, v.assigned u node))

  flip_one-IsBipartitioned : IsBipartitioned flip_one
  flip_one-IsBipartitioned = record {
    two = v.two;
    partition =
        moved-IsPartition p u (1 - block p u) v.partition v.weights node (omega (arith, v.two))
          (omega (arith, v.assigned u node));
    weights =
        moved-HasBlockWeights p u (1 - block p u) v.partition v.weights node (omega (arith, v.two))
          (omega (arith, v.assigned u node));
    assigned = λ x h. ground (arith, at-flip_one x, v.assigned x h);
  }

-- rollback moves exactly the listed nodes, without a fault.
rollback-flipped :
    (p : PartitionedGraph) (moves : List ℕ)
    → IsBipartitioned p
    → IsDistinct moves
    → ((x : ℕ) → is_listed moves x ≡ true → x < n p.graph)
    → (q : PartitionedGraph) × (rollback p moves ≡ some q)
      × IsBipartitioned q
      × (q.graph ≡ p.graph)
      × ((x : ℕ) → block q x ≡ flipped (block p) moves x)
unfolding rollback
rollback-flipped p [] v d h = (p, refl, v, refl, λ x. refl)
rollback-flipped p (u ∷ moves) v d h =
    let node = h u (ground (arith, ==_refl u)) in
    let (q, made, w, same, at) =
      rollback-flipped (flip_one p u v node) moves (flip_one-IsBipartitioned p u v node) d.1
        (λ x l. h x (ground (arith, l))) in
    (
      q,
      rw (flip_one-made p u v node) made,
      w,
      same,
      λ x. at x ∙ elim (Bool-cases (u == x)) [
        | inl here ↦
            let e : u ≡ x = ground arith in
            let once : is_listed moves x ≡ false = sym (ap (is_listed moves) e) ∙ d.0 in
            ground (arith, at-flip_one p u v node x, once, here, ap (block p) e)
        | inr there ↦ ground (arith, at-flip_one p u v node x, there)
      ],
    )

-- If the partition is an accepted one but for distinct nodes that were moved since, rollback of these
-- moves meets no failed assertion, puts every node back into its accepted block, and the block
-- weights are right.
pub rollback_correct :
    (p : PartitionedGraph) (moves : List ℕ) (accepted : ℕ → ℕ)
    → IsBipartitioned p
    → IsDistinct moves
    → ((x : ℕ) → is_listed moves x ≡ true → x < n p.graph)
    → ((x : ℕ) → x < n p.graph → accepted x < 2)
    → ((x : ℕ) → x < n p.graph → block p x ≡ flipped accepted moves x)
    → (x : ℕ) → x < n p.graph
    → (q : PartitionedGraph) × (rollback p moves ≡ some q)
      × (block q x ≡ accepted x)
      × HasBlockWeights q
      × (q.graph ≡ p.graph)
rollback_correct p moves accepted v d inside two since x h =
    let (q, made, w, same, at) = rollback-flipped p moves v d inside in
    (q, made, ground (arith, at x, since x h, two x h), w.weights, same)
