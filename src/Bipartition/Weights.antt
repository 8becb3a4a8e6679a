-- ===== src/Bipartition/Weights.antt =====
-- set_block keeps the weights of the two blocks right.
use ka_min_par.Prelude.{
  ℕ, ◌+◌, ◌<◌, ◌≡◌, refl, ◌∙◌, true, some, arith, ◌==◌, if◌then◌else◌, length, get_or, set,
  length-set, get_or-set,
}
use ka_min_par.Prelude.Sums.{sum_below, sum_below_update}
use ka_min_par.Prelude.Histogram.{add_at}
use ka_min_par.Graph.{Graph, n, node_weight}
use ka_min_par.Partition.{invalid_block_id}
use ka_min_par.Bipartition.{Bipartition, block_of, weight_of, set_block}

module _ (g : Graph) where
  -- The weight of the nodes of block `b`.
  abbrev pub weight_in : Bipartition → ℕ → ℕ
  weight_in s b = sum_below (n g) (λ u. if block_of s u == b then node_weight g u else 0)

  -- There is a cell for each node and each block, and the weights of the blocks are right.
  pub record IsBipartition (s : Bipartition) : Type 0 where
    pub sized : length s.partition ≡ n g
    pub two : length s.block_weights ≡ 2
    pub weights : (b : ℕ) → b < 2 → weight_of s b ≡ weight_in s b

  -- A node without a block gets one: it and no other node.
  pub record Assigns (s : Bipartition) (u b : ℕ) (t : Bipartition) : Type 0 where
    pub valid : IsBipartition t
    pub blocks : (x : ℕ) → block_of t x ≡ (if u == x then b else block_of s x)

  module _ (perfect : ℕ → ℕ) where
    pub set_block-Assigns :
        (s : Bipartition) (u b : ℕ)
        → IsBipartition s
        → u < n g
        → b < 2
        → block_of s u ≡ invalid_block_id
        → (t : Bipartition) × (set_block g perfect s u b ≡ some t) × Assigns s u b t
    unfolding set_block
    set_block-Assigns s u b v node inside free =
        let t : Bipartition = record {
          partition = set s.partition u b;
          block_weights = add_at s.block_weights b (node_weight g u);
        } in
        let blocks =
          λ (x : ℕ). get_or-set s.partition u x b invalid_block_id (omega (arith, v.sized)) in
        let ok : (block_of s u == invalid_block_id) ≡ true = ground arith in
        (
          t,
          rw ok refl,
          record {
            valid = record {
              sized = length-set s.partition u b ∙ v.sized;
              two =
                  length-set s.block_weights b (get_or s.block_weights b 0 + node_weight g u)
                  ∙ v.two;
              weights = λ c q.
                  let moved =
                    sum_below_update (n g) (λ x. if block_of t x == c then node_weight g x else 0)
                      (λ x. if block_of s x == c then node_weight g x else 0) u node
                      (λ x r e. ground (arith, blocks x)) in
                  ground (
                    arith,
                    moved,
                    blocks u,
                    v.weights c q,
                    get_or-set s.block_weights b c (get_or s.block_weights b 0 + node_weight g u) 0
                        (omega (arith, v.two)),
                  );
            };
            blocks = blocks;
          },
        )
