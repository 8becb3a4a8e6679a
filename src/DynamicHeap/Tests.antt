-- ===== src/DynamicHeap/Tests.antt =====
-- Runs of DynamicBinaryHeap over max keys, and the theorems there.
use ka_min_par.Prelude.{ℕ, zero, suc, ◌≡◌, refl, some, List, [], ◌∷◌, arith}
use ka_min_par.Heap.{Comparator, HeapElement, max_comparator, sift_up, sift_down}
use ka_min_par.DynamicHeap.{push, pop}
use ka_min_par.DynamicHeap.Laws.{IsValid}

instance abbrev ratings : Comparator ℕ
ratings = max_comparator 100

abbrev two : List (HeapElement ℕ)
two = record { id = 4; key = 8 } ∷ record { id = 1; key = 5 } ∷ []

two-IsValid : IsValid two
two-IsValid zero p q = absurd (omega arith)
two-IsValid (suc zero) p q = refl
two-IsValid (suc (suc c)) p q = absurd (omega arith)

push_runs :
    push 6 9 two
    ≡ record { id = 6; key = 9 } ∷ record { id = 1; key = 5 } ∷ record { id = 4; key = 8 } ∷ []
unfolding push sift_up
push_runs = refl

pop_runs : pop two ≡ some (record { id = 1; key = 5 } ∷ [])
unfolding pop sift_down
pop_runs = refl
