-- ===== src/Coarsener/Tests.antt =====
-- Label propagation on a path of three nodes.
use ka_min_par.Prelude.{
  ◌^◌, ℕ, zero, suc, ◌+◌, ◌<◌, ◌≤◌, ◌≡◌, refl, true, false, some, [], ◌∷◌, arith,
}
use ka_min_par.FastResetArray.{FastResetArray}
use ka_min_par.Graph.{edge_weight, node_weight, m, Graph, first_node_in_bucket}
use ka_min_par.Graph.Adjacency.{IsGraph}
use ka_min_par.Graph.Tests.{path, path-IsGraph}
use ka_min_par.Chunks.{iota, iota-IsPermutation, same_order-IsShuffle}
use ka_min_par.Coarsener.{Cluster, Coarsener, rating, perform_label_propagation}
use ka_min_par.Coarsener.Rating.{IsClean}
use ka_min_par.Coarsener.Join.{IsClustering}
use ka_min_par.Coarsener.Propagation.{IsBucketed, perform_label_propagation_correct}

-- The path with its nodes in one bucket.
abbrev bucketed : Graph
bucketed = record path { buckets = 0 ∷ 3 ∷ []; number_of_buckets = 1 }

bucketed-IsGraph : IsGraph bucketed
bucketed-IsGraph = record {
  ascending = path-IsGraph.ascending;
  covered = path-IsGraph.covered;
  targets = path-IsGraph.targets;
}

abbrev unused : Cluster
unused = record { locked = false; weight = 0; leader = 0 }

abbrev no_ratings : FastResetArray ℕ
no_ratings = record { cells = 0 ∷ 0 ∷ 0 ∷ []; used_entries = [] }

abbrev start : Coarsener
start = record {
  clustering = unused ∷ unused ∷ unused ∷ unused ∷ [];
  rating_map = no_ratings;
  current_num_moves = 0;
  precomputed_clustering = false;
  interleaved_locked = false;
}

no_ratings-zero : (x : ℕ) → rating no_ratings x ≡ 0
no_ratings-zero zero = refl
no_ratings-zero (suc zero) = refl
no_ratings-zero (suc (suc zero)) = refl
no_ratings-zero (suc (suc (suc x))) = refl

no_ratings-IsClean : IsClean 3 no_ratings
no_ratings-IsClean = record { sized = refl; unused = refl; zeros = no_ratings-zero }

bucketed-ascending :
    (b : ℕ) → b < 1 → first_node_in_bucket bucketed b ≤ first_node_in_bucket bucketed (b + 1)
bucketed-ascending zero h = omega arith
bucketed-ascending (suc b) h = absurd (omega arith)

bucketed-covered : (b : ℕ) → b < 1 → first_node_in_bucket bucketed (b + 1) ≤ 3
bucketed-covered zero h = omega arith
bucketed-covered (suc b) h = absurd (omega arith)

bucketed-IsBucketed : IsBucketed bucketed
bucketed-IsBucketed = record { ascending = bucketed-ascending; covered = bucketed-covered }

bucketed-light : (x : ℕ) → x < 3 → node_weight bucketed x < 2 ^ 29
bucketed-light zero h = omega arith
bucketed-light (suc zero) h = omega arith
bucketed-light (suc (suc zero)) h = omega arith
bucketed-light (suc (suc (suc x))) h = absurd (omega arith)

bucketed-heavy : (e : ℕ) → e < m bucketed → 0 < edge_weight bucketed e
bucketed-heavy zero h = omega arith
bucketed-heavy (suc zero) h = omega arith
bucketed-heavy (suc (suc zero)) h = omega arith
bucketed-heavy (suc (suc (suc zero))) h = omega arith
bucketed-heavy (suc (suc (suc (suc e)))) h = absurd (omega arith)

perform_label_propagation_correct_example :
    (t : Coarsener) × (perform_label_propagation bucketed
        (λ _ _. false)
        (λ l. l)
        (λ _. iota 0 256)
        1
        9
        start
      ≡ some t)
    × IsClustering bucketed 9 t
    × (t.precomputed_clustering ≡ true)
perform_label_propagation_correct_example =
    perform_label_propagation_correct bucketed 9 (λ _ _. false) (λ l. l) (λ _. iota 0 256) 1 start
      bucketed-IsGraph bucketed-IsBucketed same_order-IsShuffle (λ _. iota-IsPermutation 256)
      (omega arith) (λ _. omega arith) (omega arith) (omega arith) no_ratings-IsClean (omega arith)
      bucketed-light bucketed-heavy
