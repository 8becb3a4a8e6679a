-- ===== src/BinaryHeap/Tests.antt =====
-- Runs of BinaryHeap over a heap of two elements and capacity three, and the theorems there.
use ka_min_par.Prelude.{
  ℕ, zero, suc, ◌+◌, ◌<◌, ◌≡◌, ◌≢◌, refl, true, false, some, [], ◌∷◌, arith, ltb,
}
use ka_min_par.Heap.{Comparator, max_comparator, at, key_at}
use ka_min_par.Heap.Order.{IsHeap}
use ka_min_par.BinaryHeap.{
  BinaryHeap, invalid_id, pos_of, push, pop, peek_id, peek_key, remove, change_priority, sift_up,
}
use ka_min_par.BinaryHeap.Located.{lookup}
use ka_min_par.BinaryHeap.Update.{IsValid, Updates, Changed, push_correct, change_priority_correct}
use ka_min_par.BinaryHeap.Remove.{Forgets, pop_correct, remove_correct}

instance abbrev gains : Comparator ℕ
gains = max_comparator 100

-- Id 2 with key 7 at the root, id 0 with key 3 below it.
abbrev two : BinaryHeap ℕ
two = record {
  id_pos = 1 ∷ invalid_id ∷ 0 ∷ [];
  heap = record { id = 2; key = 7 } ∷ record { id = 0; key = 3 } ∷ record { id = 0; key = 0 } ∷ [];
  size = 2;
}

two-ids_below : (i : ℕ) → i < 2 → (at two.heap i).id < 3
two-ids_below zero h = omega arith
two-ids_below (suc zero) h = omega arith
two-ids_below (suc (suc i)) h = absurd (omega arith)

two-located : (i : ℕ) → i < 2 → pos_of two (at two.heap i).id ≡ i
two-located zero h = refl
two-located (suc zero) h = refl
two-located (suc (suc i)) h = absurd (omega arith)

two-present :
    (id : ℕ)
    → pos_of two id ≢ invalid_id
    → (pos_of two id < 2) × ((at two.heap (pos_of two id)).id ≡ id)
two-present zero h = (omega arith, refl)
two-present (suc zero) h = absurd (h refl)
two-present (suc (suc zero)) h = (omega arith, refl)
two-present (suc (suc (suc id))) h = absurd (h refl)

two-order : IsHeap 2 two.heap
two-order zero p q = absurd (omega arith)
two-order (suc zero) p q = refl
two-order (suc (suc c)) p q = absurd (omega arith)

two-IsValid : IsValid two
two-IsValid = record {
  located = record {
    fits = omega arith;
    same_length = refl;
    valid_positions = omega arith;
    ids_below = two-ids_below;
    located = two-located;
    present = two-present;
  };
  order = two-order;
}

push_correct_example :
    (t : BinaryHeap ℕ) × (push two 1 9 ≡ some t) × IsValid t × (t.size ≡ 3) × Updates two 1 9 t
push_correct_example = push_correct two 1 9 two-IsValid (omega arith) (omega arith) refl

change_priority_correct_example : Changed two 0 8 two-IsValid refl (change_priority two 0 8)
change_priority_correct_example = change_priority_correct two 0 8 two-IsValid refl

pop_correct_example :
    (t : BinaryHeap ℕ) × (pop two ≡ some t)
    × (peek_id two ≡ some 2)
    × (peek_key two ≡ some 7)
    × IsValid t
    × (t.size + 1 ≡ 2)
    × Forgets two 2 t
    × (ltb 7 (key_at two.heap 1) ≡ false)
pop_correct_example = pop_correct two two-IsValid (omega arith) 1 (omega arith)

two-keys : (j k : ℕ) → lookup two j ≡ some k → ltb k 100 ≡ true
two-keys zero k e = ground arith
two-keys (suc zero) k e = ground arith
two-keys (suc (suc zero)) k e = ground arith
two-keys (suc (suc (suc j))) k e = ground arith

remove_correct_example :
    (t : BinaryHeap ℕ) × (remove two 0 ≡ some t) × IsValid t × (t.size + 1 ≡ 2) × Forgets two 0 t
remove_correct_example = remove_correct two 0 two-IsValid refl two-keys

-- The new maximum rises to the root.
push_runs :
    push two 1 9
    ≡ some (record {
      id_pos = 1 ∷ 0 ∷ 2 ∷ [];
      heap =
          record { id = 1; key = 9 } ∷ record { id = 0; key = 3 } ∷ record { id = 2; key = 7 } ∷ [];
      size = 3;
    })
unfolding push sift_up
push_runs = refl
