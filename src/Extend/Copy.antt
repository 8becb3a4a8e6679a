-- ===== src/Extend/Copy.antt =====
-- copy_subgraph_partitions splits each block into the blocks of its subgraph.
use mathlib.Core.List.{Perm}
use native.Mathlib.Nat.{mul-le-mul_right, suc-mul}
use ka_min_par.Prelude.{
  partial_sum, ℕ, zero, suc, ◌+◌, ◌*◌, ◌/◌, ◌≤◌, ◌<◌, ◌≡◌, ◌≢◌, refl, sym, ◌∙◌, ap, inl, inr, true,
  false, some, List, [], ◌∷◌, arith, ◌==◌, Bool-cases, length, length-replicate, get_or,
  get_or_overflow, replicate, ltb,
}
use ka_min_par.Prelude.Sums.{sum_below, sum_below_congr, sum_below_blocks, sum_below_front}
use ka_min_par.Prelude.Loops.{range}
use ka_min_par.Graph.{n, accumulate}
use ka_min_par.Math.{is_power_of_2}
use ka_min_par.Partition.{PartitionedGraph, invalid_block_id, block, tabulate, change_k}
use ka_min_par.Partition.BlockWeights.{
  IsPartition, HasBlockWeights, visited, length-tabulate, get_or-tabulate,
  init_block_weights-HasBlockWeights, init_block_weights_keeps,
}
use ka_min_par.Extend.{fill_final_k, fill_blocks, all_inside, copy_subgraph_partitions}
use ka_min_par.Extend.FinalK.{fill_final_k_correct}

prefix_of_equal :
    (k c acc i : ℕ) → i < k → get_or (partial_sum acc (replicate k c)) i 0 ≡ acc + (i + 1) * c
prefix_of_equal zero c acc i h = absurd (omega arith)
prefix_of_equal (suc k) c acc zero h = let one : (0 + 1) * c ≡ c = omega arith in rw one refl
prefix_of_equal (suc k) c acc (suc i) h =
    let more : (suc i + 1) * c ≡ (i + 1) * c + c =
      ap (λ (j : ℕ). j * c) (omega arith) ∙ suc-mul (i + 1) c in
    omega (arith, prefix_of_equal k c (acc + c) i (omega arith), more)

-- Old block `b` starts at `b` times the blocks of each.
start_of_block : (k c b : ℕ) → b < suc k → get_or (partial_sum 0 (0 ∷ replicate k c)) b 0 ≡ b * c
start_of_block k c zero h = omega arith
start_of_block k c (suc b) h =
    let same : suc b * c ≡ (b + 1) * c = ap (λ (j : ℕ). j * c) (omega arith) in
    omega (arith, prefix_of_equal k c (0 + 0) b (omega arith), same)

accumulate-sum_below : (xs : List ℕ) → accumulate xs ≡ sum_below (length xs) (λ i. get_or xs i 0)
accumulate-sum_below [] = refl
accumulate-sum_below (x ∷ xs) =
    omega (
      arith,
      accumulate-sum_below xs,
      sum_below_front (length xs) (λ i. get_or {A = ℕ} (x ∷ xs) i 0),
    )

module _ (p : PartitionedGraph) (k0 : List ℕ) (kpb : ℕ) (more : 1 < kpb)
    (starts : (b : ℕ) → b < p.k → get_or k0 b 0 ≡ b * kpb)
    (large : (b : ℕ) → b < p.k → kpb ≤ get_or p.final_k b 0) where
  -- The first `count` old blocks have shared out their final numbers.
  record Filled (count size : ℕ) (ks : List ℕ) : Type 0 where
    sized : length ks ≡ size
    shares :
        (b : ℕ) → b < count → sum_below kpb (λ i. get_or ks (b * kpb + i) 0) ≡ get_or p.final_k b 0

  fill_blocks-Filled :
      (ones : List ℕ) (count : ℕ)
      → length ones ≡ p.k * kpb
      → count ≤ p.k
      → (ks : List ℕ) × (fill_blocks p k0 kpb count ones ≡ some ks) × Filled count (length ones) ks
  fill_blocks-Filled ones zero size h =
      (ones, refl, record { sized = refl; shares = λ b q. absurd (omega arith) })
  fill_blocks-Filled ones (suc count) size h =
      let (ks, e, f) = fill_blocks-Filled ones count size (omega arith) in
      let start = starts count (omega arith) in
      let next : (count + 1) * kpb ≡ count * kpb + kpb =
        ap (λ (j : ℕ). j * kpb) (omega arith) ∙ suc-mul count kpb in
      let fits : (count + 1) * kpb ≤ p.k * kpb = mul-le-mul_right kpb (omega arith) in
      let (filled, is, fills) =
        fill_final_k_correct kpb ks (count * kpb) (get_or p.final_k count 0) kpb more
          (large count (omega arith)) (omega arith) (omega (arith, f.sized)) in
      (
        filled,
        rw e (ap (λ (b : ℕ). fill_final_k kpb ks b (get_or p.final_k count 0) kpb) start ∙ is),
        record {
          sized = fills.sized ∙ f.sized;
          shares = λ b q. elim (Bool-cases (b == count)) [
            | inl last ↦ let same : b ≡ count = ground arith in rw same fills.total
            | inr earlier ↦
                let below : (b + 1) * kpb ≤ count * kpb = mul-le-mul_right kpb (ground arith) in
                let width : (b + 1) * kpb ≡ b * kpb + kpb =
                  ap (λ (j : ℕ). j * kpb) (omega arith) ∙ suc-mul b kpb in
                sum_below_congr kpb (λ i. get_or filled (b * kpb + i) 0)
                  (λ i. get_or ks (b * kpb + i) 0) (λ i r. fills.before (b * kpb + i) (omega arith))
                ∙ f.shares b (ground arith)
          ];
        },
      )

  -- All shares together are all final numbers.
  shares_total :
      (ks : List ℕ)
      → length p.final_k ≡ p.k
      → Filled p.k (p.k * kpb) ks
      → accumulate p.final_k ≡ accumulate ks
  shares_total ks size f =
      accumulate-sum_below p.final_k
      ∙ (ap (λ (c : ℕ). sum_below c (λ i. get_or p.final_k i 0)) size
          ∙ (sym (
                sum_below_congr p.k (λ b. sum_below kpb (λ i. get_or ks (b * kpb + i) 0))
                  (λ b. get_or p.final_k b 0) f.shares)
              ∙ (sym (sum_below_blocks p.k kpb (λ i. get_or ks i 0))
                  ∙ (ap (λ (c : ℕ). sum_below c (λ i. get_or ks i 0)) (sym f.sized)
                      ∙ sym (accumulate-sum_below ks)))))

all_inside-true :
    (count k_prime : ℕ) (new_block : ℕ → ℕ)
    → ((u : ℕ) → u < count → new_block u < k_prime)
    → all_inside count k_prime new_block ≡ true
all_inside-true zero k_prime new_block h = refl
all_inside-true (suc u) k_prime new_block h =
    let here : ltb (new_block u) k_prime ≡ true = ground (arith, h u (omega arith)) in
    rw here (all_inside-true u k_prime new_block (λ x q. h x (omega arith)))

-- Every node has a block, and new blocks in the subgraph of its block.
pub record IsExtension (p : PartitionedGraph) (subgraph_partitions : List (List ℕ))
    (k_prime input_k : ℕ) (mapping : List ℕ) : Type 0 where
  pub valid : IsPartition p
  pub assigned : (u : ℕ) → u < n p.graph → block p u < p.k
  pub final_ks : length p.final_k ≡ p.k
  pub large : (b : ℕ) → b < p.k → k_prime / p.k ≤ get_or p.final_k b 0
  pub several : 1 < k_prime / p.k
  pub divides : p.k * (k_prime / p.k) ≡ k_prime
  pub power : is_power_of_2 k_prime ≡ true
  pub few : k_prime ≤ invalid_block_id
  pub unfinished : k_prime ≢ input_k
  pub inside :
      (u : ℕ)
      → u < n p.graph
      → get_or (get_or subgraph_partitions (block p u) []) (get_or mapping u 0) 0 < k_prime / p.k

module _ (p : PartitionedGraph) (subgraph_partitions : List (List ℕ)) (k_prime input_k : ℕ)
    (mapping : List ℕ) (threads : List (List ℕ))
    (v : IsExtension p subgraph_partitions k_prime input_k mapping)
    (same : Perm (visited threads) (range (n p.graph))) where
  abbrev kpb : ℕ
  kpb = k_prime / p.k

  abbrev starts : List ℕ
  starts = partial_sum 0 (0 ∷ replicate p.k kpb)

  abbrev sub_block : ℕ → ℕ
  sub_block u = get_or (get_or subgraph_partitions (block p u) []) (get_or mapping u 0) 0

  abbrev new_block : ℕ → ℕ
  new_block u = get_or starts (block p u) 0 + sub_block u

  new_block-eq : (u : ℕ) → u < n p.graph → new_block u ≡ block p u * kpb + sub_block u
  new_block-eq u h =
      omega (arith, start_of_block p.k kpb (block p u) (omega (arith, v.assigned u h)))

  new_block_below : (u : ℕ) → u < n p.graph → new_block u < k_prime
  new_block_below u h =
      let fits : (block p u + 1) * kpb ≤ p.k * kpb =
        mul-le-mul_right kpb (omega (arith, v.assigned u h)) in
      let next : (block p u + 1) * kpb ≡ block p u * kpb + kpb =
        ap (λ (j : ℕ). j * kpb) (omega arith) ∙ suc-mul (block p u) kpb in
      omega (arith, new_block-eq u h, fits, next, v.inside u h, v.divides)

  -- The partition before its block weights are added up again.
  abbrev relabeled : List ℕ → PartitionedGraph
  relabeled ks = record (change_k p k_prime) {
    partition = tabulate (n p.graph) 0 new_block;
    final_k = ks;
  }

  relabeled-IsPartition : (ks : List ℕ) → IsPartition (relabeled ks)
  unfolding change_k
  relabeled-IsPartition ks = record {
    few = v.few;
    sized = length-tabulate (n p.graph) 0 new_block;
    assigned = λ u h. elim (Bool-cases (ltb u (n p.graph))) [
      | inl node ↦
          let is =
            get_or-tabulate (n p.graph) 0 u u invalid_block_id new_block (omega arith)
              (ground arith) in
          rw is (new_block_below u (ground arith))
      | inr outside ↦ absurd (
          h (
            get_or_overflow (tabulate (n p.graph) 0 new_block) u invalid_block_id
              (ground (arith, length-tabulate (n p.graph) 0 new_block))))
    ];
  }

  -- While the final number of blocks is not reached, copy_subgraph_partitions meets no failed
  -- assertion: each node goes to the block of its subgraph within the new blocks of its old block,
  -- the new blocks of an old block share out its final number, and the block weights are right.
  pub copy_subgraph_partitions_correct :
      (x b : ℕ)
      → x < n p.graph
      → b < p.k
      → (q : PartitionedGraph) × (copy_subgraph_partitions p subgraph_partitions k_prime input_k
            mapping threads
          ≡ some q)
        × (q.k ≡ k_prime)
        × (block q x ≡ block p x * kpb + sub_block x)
        × (sum_below kpb (λ i. get_or q.final_k (b * kpb + i) 0) ≡ get_or p.final_k b 0)
        × HasBlockWeights q
  unfolding copy_subgraph_partitions change_k
  copy_subgraph_partitions_correct x b node old =
      let unfinished : (k_prime == input_k) ≡ false = ground (arith, v.unfinished) in
      let (ks, filled, f) =
        fill_blocks-Filled p starts kpb v.several (λ c q. start_of_block p.k kpb c (omega arith))
          v.large (replicate k_prime 1) p.k (length-replicate k_prime 1 ∙ sym v.divides)
          (omega arith) in
      let shares : Filled p starts kpb v.several (λ c q. start_of_block p.k kpb c (omega arith))
          v.large p.k (p.k * kpb) ks =
        record {
          sized = f.sized ∙ (length-replicate k_prime 1 ∙ sym v.divides);
          shares = f.shares;
        } in
      let total =
        shares_total p starts kpb v.several (λ c q. start_of_block p.k kpb c (omega arith)) v.large
          ks v.final_ks shares in
      let agree : (accumulate p.final_k == accumulate ks) ≡ true = ground (arith, total) in
      let inside = all_inside-true (n p.graph) k_prime new_block new_block_below in
      let (q, made, weights) =
        init_block_weights-HasBlockWeights (relabeled ks) (relabeled-IsPartition ks) threads same
          (length-replicate k_prime 0) in
      let (_, same_k, same_partition, same_final) =
        init_block_weights_keeps (relabeled ks) q threads made in
      (
        q,
        rw (unfinished, v.power, filled, agree, inside) made,
        same_k,
        ap (λ (l : List ℕ). get_or l x invalid_block_id) same_partition
            ∙ (get_or-tabulate (n p.graph) 0 x x invalid_block_id new_block (omega arith) node
                ∙ new_block-eq x node),
        ap (λ (l : List ℕ). sum_below kpb (λ i. get_or l (b * kpb + i) 0)) same_final
            ∙ f.shares b old,
        weights,
      )
