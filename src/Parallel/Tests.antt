-- ===== src/Parallel/Tests.antt =====
-- A reduction of five numbers in three parts.
use ka_min_par.Prelude.{ℕ, ◌≡◌, refl, List, [], ◌∷◌}
use ka_min_par.Graph.{accumulate, max_element}
use ka_min_par.Parallel.{Reduction, parallel_accumulate, parallel_max_element}
use ka_min_par.Parallel.Reduce.{parallel_accumulate-accumulate}

abbrev numbers : List ℕ
numbers = 3 ∷ 1 ∷ 4 ∷ 1 ∷ 5 ∷ []

abbrev three_parts : Reduction
three_parts =
    Reduction.joined (Reduction.in_order (Reduction.whole 2) (Reduction.whole 1))
      (Reduction.whole 2)

parallel_accumulate-accumulate_example :
    (parallel_accumulate numbers three_parts ≡ accumulate numbers)
    × (parallel_max_element numbers three_parts ≡ max_element numbers)
parallel_accumulate-accumulate_example = parallel_accumulate-accumulate numbers three_parts refl

parallel_accumulate_runs : parallel_accumulate numbers three_parts ≡ 14
unfolding parallel_accumulate
parallel_accumulate_runs = refl
