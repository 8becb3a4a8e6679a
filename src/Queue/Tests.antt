-- ===== src/Queue/Tests.antt =====
-- Runs of a queue of capacity three, and the theorems there.
use ka_min_par.Prelude.{ℕ, ◌≡◌, refl, Option, some, [], ◌∷◌, ◌>>=◌, arith}
use ka_min_par.Queue.{Queue, construct, front, back, pop_head, push_tail}
use ka_min_par.Queue.Laws.{IsQueue}

-- One element was removed, 4 is left.
abbrev one_left : Queue ℕ
one_left = record { cells = 3 ∷ 4 ∷ 0 ∷ []; head = 1; tail = 2 }

one_left-IsQueue : IsQueue 0 one_left
one_left-IsQueue = record { ordered = omega arith; inside = omega arith }

-- tail() of the queue of 4 reads the slot behind it.
back_runs : back 0 one_left ≡ some 0
unfolding back
back_runs = refl

abbrev second_of_two : Option ℕ
second_of_two =
    push_tail 0 (construct 0 2) 7 >>= λ q. push_tail 0 q 8 >>= λ r. pop_head 0 r >>= λ t. front 0 t

queue_runs : second_of_two ≡ some 8
unfolding push_tail construct pop_head front
queue_runs = refl
