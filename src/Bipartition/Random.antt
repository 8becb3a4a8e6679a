-- ===== src/Bipartition/Random.antt =====
-- The random bipartitioner gives every node a block, whatever the random numbers.
use ka_min_par.Prelude.{
  ℕ, zero, suc, ◌+◌, ◌%◌, ◌≤◌, ◌<◌, ◌≡◌, refl, inl, inr, some, arith, ◌==◌, if◌then◌else◌,
  Bool-cases, get_or-replicate, length-replicate, ltb,
}
use ka_min_par.Prelude.Sums.{sum_below_congr, sum_below_zero}
use ka_min_par.Graph.{Graph, n, node_weight}
use ka_min_par.Partition.{invalid_block_id}
use ka_min_par.Bipartition.{
  Bipartition, block_of, weight_of, unassigned, add_to_smaller_block, random_step, random_loop,
  random_bipartition,
}
use ka_min_par.Bipartition.Weights.{IsBipartition, Assigns, set_block-Assigns}

module _ (g : Graph) where
  pub unassigned-IsBipartition : IsBipartition g (unassigned g)
  unassigned-IsBipartition = record {
    sized = length-replicate (n g) invalid_block_id;
    two = refl;
    weights = λ b p.
        let none_in =
          sum_below_congr (n g) (λ u. if block_of (unassigned g) u == b then node_weight g u else 0)
            (λ _. 0) (λ u q. ground (arith, get_or-replicate (n g) u invalid_block_id)) in
        let cell = get_or-replicate {A = ℕ} 2 b 0 in
        omega (arith, none_in, sum_below_zero (n g), cell);
  }

  module _ (perfect : ℕ → ℕ) where
    -- One step gives a node without a block one of the two.
    random_step-Assigns :
        (choice u : ℕ) (s : Bipartition)
        → IsBipartition g s
        → u < n g
        → choice < 2
        → block_of s u ≡ invalid_block_id
        → (t : Bipartition) × (b : ℕ) × (b < 2)
          × (random_step g perfect choice u s ≡ some t)
          × Assigns g s u b t
    unfolding random_step add_to_smaller_block
    random_step-Assigns choice u s v node known free =
        elim (Bool-cases (ltb (weight_of s choice + node_weight g u) (perfect choice))) [
          | inl fits ↦
              let (t, e, a) = set_block-Assigns g perfect s u choice v node known free in
              (t, choice, known, rw fits e, a)
          | inr full ↦
              elim (Bool-cases (ltb (weight_of s 0 + perfect 1) (weight_of s 1 + perfect 0))) [
                | inl first ↦
                    let (t, e, a) = set_block-Assigns g perfect s u 0 v node (omega arith) free in
                    (t, 0, omega arith, rw (full, first) e, a)
                | inr second ↦
                    let (t, e, a) = set_block-Assigns g perfect s u 1 v node (omega arith) free in
                    (t, 1, omega arith, rw (full, second) e, a)
              ]
        ]

    -- The first `count` nodes have a block.
    record Reached (count : ℕ) (s : Bipartition) : Type 0 where
      valid : IsBipartition g s
      assigned : (x : ℕ) → x < count → block_of s x < 2
      free : (x : ℕ) → count ≤ x → block_of s x ≡ invalid_block_id

    random_loop-Reached :
        (random : ℕ → ℕ) (count : ℕ)
        → count ≤ n g
        → (s : Bipartition) × (random_loop g perfect random count ≡ some s) × Reached count s
    random_loop-Reached random zero h = (
      unassigned g,
      refl,
      record {
        valid = unassigned-IsBipartition;
        assigned = λ x p. absurd (omega arith);
        free = λ x p. get_or-replicate (n g) x invalid_block_id;
      },
    )
    random_loop-Reached random (suc count) h =
        let (s, e, r) = random_loop-Reached random count (omega arith) in
        let (t, b, known, step, a) =
          random_step-Assigns (random count % 2) count s r.valid (omega arith) (omega arith)
            (r.free count (omega arith)) in
        (
          t,
          rw e step,
          record {
            valid = a.valid;
            assigned = λ x p. ground (arith, a.blocks x, r.assigned x);
            free = λ x p. ground (arith, a.blocks x, r.free x (omega arith));
          },
        )

    -- Whatever the random numbers are, the random bipartitioner meets no failed assertion, puts
    -- every node into one of the two blocks, and its block weights are right.
    pub random_bipartition_correct :
        (random : ℕ → ℕ) (x : ℕ)
        → x < n g
        → (s : Bipartition) × (random_bipartition g perfect random ≡ some s)
          × IsBipartition g s
          × (block_of s x < 2)
    unfolding random_bipartition
    random_bipartition_correct random x h =
        let (s, e, r) = random_loop-Reached random (n g) (omega arith) in
        (s, e, r.valid, r.assigned x h)
