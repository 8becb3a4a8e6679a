-- ===== src/SparseMap/Tests.antt =====
-- A sparse map over memory that holds other values, and the theorems there.
use ka_min_par.Prelude.{ℕ, ◌<◌, ◌≡◌, ◌==◌, if◌then◌else◌, refl, none, some, [], ◌∷◌, arith}
use ka_min_par.SparseMap.{SparseMap, allocate, add, remove, assign, get}
use ka_min_par.SparseMap.Valid.{IsValid, lookup}
use ka_min_par.SparseMap.Laws.{add_correct}
use ka_min_par.SparseMap.Remove.{sparse_remove_correct}

-- Capacity three; the memory says that key 1 is in entry 0.
abbrev fresh : SparseMap ℕ
fresh = allocate 0 3 (1 ∷ 0 ∷ 7 ∷ []) (
    record { key = 1; value = 8 }
    ∷ record { key = 2; value = 9 }
    ∷ record { key = 2; value = 9 }
    ∷ [])

fresh-IsValid : IsValid 0 fresh
fresh-IsValid = record {
  slots = refl;
  cells = refl;
  few = omega arith;
  inside = λ i p. absurd (omega arith);
  linked = λ i p. absurd (omega arith);
}

in_range : 2 < (add 0 fresh 2 5).capacity
unfolding add
in_range = omega arith

sparse_remove_correct_example :
    IsValid 0 (remove 0 (add 0 fresh 2 5) 2)
    × ((x : ℕ)
        → lookup 0 (remove 0 (add 0 fresh 2 5) 2) x
          ≡ (if 2 == x then none else lookup 0 (add 0 fresh 2 5) x))
sparse_remove_correct_example =
    sparse_remove_correct 0 (add 0 fresh 2 5) 2
      (add_correct 0 fresh 2 fresh-IsValid (omega arith) 5).0 in_range

sparse_runs :
    (get 0 (assign 0 (assign 0 fresh 2 5) 0 4) 2 ≡ some 5)
    × (get 0 (remove 0 (assign 0 (assign 0 fresh 2 5) 0 4) 2) 2 ≡ none)
    × (get 0 (remove 0 (assign 0 (assign 0 fresh 2 5) 0 4) 2) 0 ≡ some 4)
unfolding get assign remove
sparse_runs = (refl, refl, refl)
