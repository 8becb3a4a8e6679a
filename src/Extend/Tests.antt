-- ===== src/Extend/Tests.antt =====
-- A path of three nodes in two blocks, each of which is split in two.
use ka_min_par.Prelude.{
  ℕ, zero, suc, ◌+◌, ◌*◌, ◌/◌, ◌≤◌, ◌<◌, ◌≡◌, refl, true, some, List, [], ◌∷◌, arith, get_or,
}
use ka_min_par.Prelude.Sums.{sum_below}
use ka_min_par.Math.{is_power_of_2}
use ka_min_par.Partition.{PartitionedGraph, block}
use ka_min_par.Partition.BlockWeights.{HasBlockWeights}
use ka_min_par.Partition.Tests.{halves, halves-IsPartition, two_threads, two_threads-cover}
use ka_min_par.Extend.{fill_final_k, copy_subgraph_partitions}
use ka_min_par.Extend.FinalK.{Fills, fill_final_k_correct}
use ka_min_par.Extend.Copy.{IsExtension, copy_subgraph_partitions_correct}

fill_final_k_correct_example :
    (filled : List ℕ) × (fill_final_k 3 (0 ∷ 0 ∷ 0 ∷ 0 ∷ []) 1 7 3 ≡ some filled)
    × Fills (0 ∷ 0 ∷ 0 ∷ 0 ∷ []) 1 7 3 filled
fill_final_k_correct_example =
    fill_final_k_correct 3 (0 ∷ 0 ∷ 0 ∷ 0 ∷ []) 1 7 3 (omega arith) (omega arith) (omega arith)
      (omega arith)

fill_final_k_runs : fill_final_k 3 (0 ∷ 0 ∷ 0 ∷ 0 ∷ []) 1 7 3 ≡ some (0 ∷ 2 ∷ 2 ∷ 3 ∷ [])
unfolding fill_final_k
fill_final_k_runs = refl

-- Five blocks are wanted in the end: three of the first block, two of the second.
abbrev to_extend : PartitionedGraph
to_extend = record halves { final_k = 3 ∷ 2 ∷ [] }

abbrev halved_blocks : List (List ℕ)
halved_blocks = (0 ∷ 1 ∷ []) ∷ (1 ∷ []) ∷ []

abbrev positions : List ℕ
positions = 0 ∷ 1 ∷ 0 ∷ []

to_extend-assigned : (u : ℕ) → u < 3 → block to_extend u < 2
to_extend-assigned zero h = omega arith
to_extend-assigned (suc zero) h = omega arith
to_extend-assigned (suc (suc zero)) h = omega arith
to_extend-assigned (suc (suc (suc u))) h = absurd (omega arith)

to_extend-large : (b : ℕ) → b < 2 → 2 ≤ get_or to_extend.final_k b 0
to_extend-large zero h = omega arith
to_extend-large (suc zero) h = omega arith
to_extend-large (suc (suc b)) h = absurd (omega arith)

to_extend-inside :
    (u : ℕ)
    → u < 3
    → get_or (get_or halved_blocks (block to_extend u) []) (get_or positions u 0) 0 < 2
to_extend-inside zero h = omega arith
to_extend-inside (suc zero) h = omega arith
to_extend-inside (suc (suc zero)) h = omega arith
to_extend-inside (suc (suc (suc u))) h = absurd (omega arith)

four : is_power_of_2 4 ≡ true
unfolding is_power_of_2
four = refl

to_extend-IsExtension : IsExtension to_extend halved_blocks 4 5 positions
to_extend-IsExtension = record {
  valid = record {
    few = halves-IsPartition.few;
    sized = refl;
    assigned = halves-IsPartition.assigned;
  };
  assigned = to_extend-assigned;
  final_ks = refl;
  large = to_extend-large;
  several = omega arith;
  divides = refl;
  power = four;
  few = omega arith;
  unfinished = λ e. absurd (omega (arith, e));
  inside = to_extend-inside;
}

copy_subgraph_partitions_correct_example :
    (q : PartitionedGraph) × (copy_subgraph_partitions to_extend halved_blocks 4 5 positions
        two_threads
      ≡ some q)
    × (q.k ≡ 4)
    × (block q 2 ≡ block to_extend 2 * (4 / 2) + 1)
    × (sum_below (4 / 2) (λ i. get_or q.final_k (0 * (4 / 2) + i) 0) ≡ get_or to_extend.final_k 0 0)
    × HasBlockWeights q
copy_subgraph_partitions_correct_example =
    copy_subgraph_partitions_correct to_extend halved_blocks 4 5 positions two_threads
      to_extend-IsExtension two_threads-cover 2 0 (omega arith) (omega arith)
