-- ===== src/Parallel.antt =====
-- accumulate and max_element of kaminpar/parallel.h. How tbb::parallel_reduce cuts the range into
-- parts is an argument: a part is given to a body whole; or its halves go to one body, one after the
-- other; or the right half goes to a new body that is joined to the left one.
pub mod Reduce
mod Tests
use ka_min_par.Prelude.{ℕ, zero, suc, ◌+◌, List, get_or, max}

pub data Reduction : Type 0 where
  whole : ℕ → Reduction
  in_order : Reduction → Reduction → Reduction
  joined : Reduction → Reduction → Reduction

-- The number of indices that a reduction covers.
abbrev pub covered : Reduction → ℕ
covered (Reduction.whole count) = count
covered (Reduction.in_order l r) = covered l + covered r
covered (Reduction.joined l r) = covered l + covered r

module _ (op : ℕ → ℕ → ℕ) (unit : ℕ) where
  -- operator() of a body with the answer `ans` on `count` indices from `i` on.
  abbrev pub run_body : List ℕ → ℕ → ℕ → ℕ → ℕ
  run_body r i zero ans = ans
  run_body r i (suc count) ans = run_body r (i + 1) count (op ans (get_or r i 0))

  -- The answer of a body that had `ans`; a new body starts with `unit`, join combines the answers.
  abbrev pub parallel_reduce : List ℕ → Reduction → ℕ → ℕ → ℕ
  parallel_reduce r (Reduction.whole count) i ans = run_body r i count ans
  parallel_reduce r (Reduction.in_order left right) i ans =
      parallel_reduce r right (i + covered left) (parallel_reduce r left i ans)
  parallel_reduce r (Reduction.joined left right) i ans =
      op (parallel_reduce r left i ans) (parallel_reduce r right (i + covered left) unit)

-- parallel::accumulate
unfoldable pub parallel_accumulate : List ℕ → Reduction → ℕ
parallel_accumulate r parts = parallel_reduce (λ a b. a + b) 0 r parts 0 0

-- parallel::max_element
unfoldable pub parallel_max_element : List ℕ → Reduction → ℕ
parallel_max_element r parts = parallel_reduce max 0 r parts 0 0
