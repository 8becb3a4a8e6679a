-- ===== src/Graph/Buckets.antt =====
-- The degree buckets: which degrees a bucket holds, and how many nodes.
use ka_min_par.Prelude.Histogram.{get_or-scatter_add, length-scatter_add}
use native.Mathlib.Numerals.{add-one}
use ka_min_par.Prelude.{
  partial_sum-step, partial_sum, ℕ, suc, ◌+◌, ◌/◌, ◌%◌, ◌^◌, ◌≤◌, ◌<◌, ◌≡◌, ◌∙◌, inl, inr, true,
  List, arith, ◌==◌, if◌then◌else◌, Bool-cases, length, get_or, get_or-replicate,
}
use ka_min_par.Prelude.Sums.{sum_below_congr, sum_below}
use ka_min_par.Math.{floor_log2}
use ka_min_par.Math.Log.{pow_cancel, pow_mono, floor_log2-lt, floor_log2_bounds, pow-step}
use ka_min_par.Graph.{
  degree_of, Arrays, node_count, degree_bucket, lowest_degree_in_bucket, number_of_degree_buckets,
  count_degrees, no_buckets, init_degree_buckets, construct, bucket_size,
}

-- A degree below 2 ^ 30 lies in its bucket: from the lowest degree of the bucket on, below that of
-- the next.
pub degree_bucket_bounds :
    (d : ℕ)
    → d < 2 ^ 30
    → (lowest_degree_in_bucket (degree_bucket d) ≤ d)
      × (d < lowest_degree_in_bucket (degree_bucket d + 1))
unfolding degree_bucket lowest_degree_in_bucket
degree_bucket_bounds d h = elim (Bool-cases (d == 0)) [
  | inl none_at_all ↦ let e : d ≡ 0 = ground arith in rw e (omega arith, omega arith)
  | inr some_at_all ↦
      let f = floor_log2 32 d in
      let (lo, hi) = floor_log2_bounds 32 d (ground arith) (omega arith) in
      let few : f < 30 = pow_cancel f 30 (omega arith) in
      let half = pow_mono (suc f) 30 few in
      let here : 2 ^ (f + 1) % 2 ^ 32 / 2 ≡ 2 ^ f = rw add-one (omega (arith, pow-step f, half)) in
      let next : 2 ^ (f + 1 + 1) % 2 ^ 32 / 2 ≡ 2 ^ suc f =
        simp add-one (omega (arith, pow-step (suc f), half)) in
      rw some_at_all (omega arith, omega arith)
]

-- Bucket ids are below the number of buckets.
degree_bucket-lt : (d : ℕ) → d < 2 ^ 32 → degree_bucket d < number_of_degree_buckets
unfolding degree_bucket
degree_bucket-lt d h = ground (arith, floor_log2-lt 32 d)

get_or-count_degrees :
    (nodes : List ℕ) (c : ℕ)
    → ((u : ℕ) → u < node_count nodes → degree_of nodes u < 2 ^ 32)
    → get_or (count_degrees nodes no_buckets) c 0
      ≡ sum_below
          (node_count nodes)
          (λ u. if degree_bucket (degree_of nodes u) + 1 == c then 1 else 0)
unfolding count_degrees
get_or-count_degrees nodes c h =
    get_or-scatter_add (λ _. true) (λ u. degree_bucket (degree_of nodes u) + 1) (λ _. 1)
      (node_count nodes) no_buckets c
      (λ u p _. omega (arith, degree_bucket-lt (degree_of nodes u) (h u p)))
    ∙ omega (arith, get_or-replicate {A = ℕ} 34 c 0)

length-count_degrees : (nodes : List ℕ) → length (count_degrees nodes no_buckets) ≡ 34
unfolding count_degrees
length-count_degrees nodes =
    length-scatter_add (λ _. true) (λ u. degree_bucket (degree_of nodes u) + 1) (λ _. 1)
      (node_count nodes) no_buckets

-- In a sorted graph whose degrees fit 32 bits, a bucket is as large as there are nodes of a degree
-- of the bucket.
pub bucket_size_sorted :
    (a : Arrays) (b : ℕ)
    → b < number_of_degree_buckets
    → ((u : ℕ) → u < node_count a.nodes → degree_of a.nodes u < 2 ^ 32)
    → bucket_size (construct a true) b
      ≡ sum_below
          (node_count a.nodes)
          (λ u. if degree_bucket (degree_of a.nodes u) == b then 1 else 0)
unfolding construct init_degree_buckets
bucket_size_sorted a b h fits =
    let counts = count_degrees a.nodes no_buckets in
    let step : get_or (partial_sum 0 counts) (suc b) 0
        ≡ get_or (partial_sum 0 counts) b 0 + get_or counts (suc b) 0 =
      partial_sum-step 0 counts b (omega (arith, length-count_degrees a.nodes)) in
    let same =
      sum_below_congr (node_count a.nodes)
        (λ u. if degree_bucket (degree_of a.nodes u) + 1 == suc b then 1 else 0)
        (λ u. if degree_bucket (degree_of a.nodes u) == b then 1 else 0) (λ u p. ground arith) in
    rw add-one (omega (arith, step, get_or-count_degrees a.nodes (suc b) fits, same))
