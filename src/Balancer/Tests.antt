-- ===== src/Balancer/Tests.antt =====
-- Moves between the two blocks of a path of three nodes.
use ka_min_par.Prelude.{
  ℕ, zero, suc, ◌+◌, ◌<◌, ◌≤◌, ◌≡◌, ◌≢◌, ◌⊎◌, refl, true, false, some, List, [], ◌∷◌, arith, length,
  get_or, max,
}
use ka_min_par.Graph.{n}
use ka_min_par.Partition.{PartitionedGraph, block, block_weight}
use ka_min_par.Partition.BlockWeights.{HasBlockWeights}
use ka_min_par.Partition.Tests.{halves, halves-HasBlockWeights}
use ka_min_par.Balancer.{move_node_if_possible, move_to_random_block, init_feasible_target_blocks}
use ka_min_par.Balancer.Steps.{is_idle, Balancing, Reach}
use ka_min_par.Balancer.Interleaving.{start, start-IsBalancing, Reach-bound, Reach-done}
use ka_min_par.Balancer.Sequential.{
  moved_state, moved-Reach, moved-idle, move_node_if_possible_correct,
}
use ka_min_par.Balancer.Random.{AllFull, move_to_random_block_correct}

-- Node 1 moves from block 0 to block 1, which may weigh 8.
abbrev after_move : Balancing
after_move =
    moved_state (λ _. 8) halves 1 0 1 halves-HasBlockWeights refl (omega arith) refl (omega arith)
      (omega arith) (omega arith)

after_move-Reach : Reach (λ _. 8) (start (λ _. 8) halves) after_move
after_move-Reach =
    moved-Reach (λ _. 8) halves 1 0 1 halves-HasBlockWeights refl (omega arith) refl (omega arith)
      (omega arith) (omega arith) (omega arith)

Reach-bound_example : block_weight after_move.p 1 ≤ max (block_weight halves 1) 8
Reach-bound_example =
    Reach-bound (λ _. 8) 1 after_move-Reach
      (start-IsBalancing (λ _. 8) halves halves-HasBlockWeights refl)

Reach-done_example :
    HasBlockWeights after_move.p × (after_move.p.graph ≡ halves.graph) × (after_move.p.k ≡ 2)
Reach-done_example =
    Reach-done (λ _. 8) halves after_move halves-HasBlockWeights refl after_move-Reach
      (moved-idle (λ _. 8) halves 1 0 1 halves-HasBlockWeights refl (omega arith) refl (omega arith)
        (omega arith) (omega arith))

-- A thread that has read an old weight.
move_node_if_possible_correct_example :
    (q : PartitionedGraph) × (move_node_if_possible (λ _. 8) halves 1 0 1 ≡ some (true, q))
    × ((s : Balancing) × Reach (λ _. 8) (start (λ _. 8) halves) s
        × (s.p ≡ q)
        × ((f : ℕ) → f < s.p.k → is_idle (s.phases f) ≡ true))
    × HasBlockWeights q
    × (length q.partition ≡ n q.graph)
    × (block q 1 ≡ 1)
    × (block_weight q 1 ≤ max (block_weight halves 1) 8)
move_node_if_possible_correct_example =
    move_node_if_possible_correct (λ _. 8) halves 1 0 1 halves-HasBlockWeights refl (omega arith)
      refl (omega arith) (omega arith) (omega arith) 1 1

abbrev second : List ℕ
second = 1 ∷ []

only_second : (j : ℕ) → j < 1 → (get_or second j 0 < 2) × (get_or second j 0 ≢ block halves 1)
only_second zero h = (omega arith, omega arith)
only_second (suc j) h = absurd (omega arith)

move_to_random_block_correct_example :
    ((q : PartitionedGraph) × (left : List ℕ) × (move_to_random_block
          (λ _. 8)
          1
          (λ _. 0)
          halves
          1
          (1 ∷ [])
        ≡ some (true, q, left))
      × HasBlockWeights q
      × (block_weight halves (block q 1) + 3 ≤ 8))
    ⊎ ((move_to_random_block (λ _. 8) 1 (λ _. 0) halves 1 (1 ∷ []) ≡ some (false, halves, []))
        × AllFull (λ _. 8) halves 1 (1 ∷ []))
move_to_random_block_correct_example =
    move_to_random_block_correct (λ _. 8) halves 1 (λ _. 0) (λ count h. h) halves-HasBlockWeights
      refl (omega arith) (omega arith) (1 ∷ []) only_second

feasible : init_feasible_target_blocks halves (λ _. 5) ≡ 1 ∷ []
unfolding init_feasible_target_blocks
feasible = refl
