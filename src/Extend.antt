-- ===== src/Extend.antt =====
-- Extending a partition by partitions of its blocks: fill_final_k and copy_subgraph_partitions of
-- kaminpar/algorithm/graph_utils.cc. A failed assertion is the fault `none`.
pub mod FinalK
pub mod Copy
mod Tests
use ka_min_par.Prelude.{
  partial_sum, ℕ, zero, suc, ◌+◌, ◌-◌, ◌/◌, Bool, true, false, not, Option, none, some, List, [],
  ◌∷◌, ◌++◌, ltb, leb, ◌==◌, if◌then◌else◌, length, get_or, set, replicate, take, assert, ◌>>=◌,
}
use ka_min_par.Math.{split_integral, is_power_of_2}
use ka_min_par.Graph.{n, accumulate}
use ka_min_par.Partition.{PartitionedGraph, block, tabulate, change_k, init_block_weights}

-- fill_final_k, with `fuel` at least `k`.
unfoldable pub fill_final_k : ℕ → List ℕ → ℕ → ℕ → ℕ → Option (List ℕ)
unfolding split_integral
fill_final_k zero cells b0 final_k k = none
fill_final_k (suc fuel) cells b0 final_k k =
    let (final_k1, final_k2) = split_integral final_k in
    let (ks0, ks1) = split_integral k in
    let b1 = b0 + ks0 in
    let both = set (set cells b0 final_k1) b1 final_k2 in
    let first = fill_final_k fuel both b0 final_k1 ks0 in
    assert (leb k final_k) (
      assert (ltb 0 final_k1) (
        assert (ltb 0 final_k2) (
          assert (ks0 + ks1 == k) (
            (if ltb 1 ks0 then first else some both) >>= λ left.
            let second = fill_final_k fuel left b1 final_k2 ks1 in
            if ltb 1 ks1 then second else some left))))

-- The loop over the blocks, which write to parts of their own.
abbrev pub fill_blocks : PartitionedGraph → List ℕ → ℕ → ℕ → List ℕ → Option (List ℕ)
fill_blocks p k0 k_per_block zero final_ks = some final_ks
fill_blocks p k0 k_per_block (suc b) final_ks =
    fill_blocks p k0 k_per_block b final_ks >>= λ filled.
    fill_final_k k_per_block filled (get_or k0 b 0) (get_or p.final_k b 0) k_per_block

-- `k0`: where the blocks of each old block start.
abbrev pub block_starts : PartitionedGraph → ℕ → ℕ → List ℕ
block_starts p k_prime input_k =
    partial_sum 0
      (0 ∷ (if k_prime == input_k then take p.k p.final_k else replicate p.k (k_prime / p.k)))

-- The assertion on each node.
abbrev pub all_inside : ℕ → ℕ → (ℕ → ℕ) → Bool
all_inside zero k_prime new_block = true
all_inside (suc u) k_prime new_block =
    if ltb (new_block u) k_prime then all_inside u k_prime new_block else false

-- copy_subgraph_partitions, where `threads` is the schedule of init_block_weights.
unfoldable pub copy_subgraph_partitions :
    PartitionedGraph → List (List ℕ) → ℕ → ℕ → List ℕ → List (List ℕ) → Option PartitionedGraph
unfolding change_k
copy_subgraph_partitions p subgraph_partitions k_prime input_k mapping threads =
    let k0 = block_starts p k_prime input_k in
    let ones = replicate k_prime 1 in
    let new_block = λ (u : ℕ).
      get_or k0 (block p u) 0
      + get_or (get_or subgraph_partitions (block p u) []) (get_or mapping u 0) 0 in
    (if not (k_prime == input_k)
      then assert (is_power_of_2 k_prime) (fill_blocks p k0 (k_prime / p.k) p.k ones)
      else some ones)
    >>= λ final_ks. assert (accumulate p.final_k == accumulate final_ks) (
        assert (all_inside (n p.graph) k_prime new_block) (
          init_block_weights
            (record (change_k p k_prime) {
              partition = tabulate (n p.graph) 0 new_block;
              final_k = final_ks;
            })
            threads))
