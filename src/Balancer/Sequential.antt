-- ===== src/Balancer/Sequential.antt =====
-- move_node_if_possible of a thread that runs alone is one of the orders of steps,
-- and what it does.
use ka_min_par.Prelude.{
  ℕ, ◌+◌, ◌≤◌, ◌<◌, ◌≡◌, ◌≢◌, refl, ◌∙◌, inl, inr, true, false, ◌&&◌, some, arith, ltb, leb, ◌==◌,
  ==_refl, if◌then◌else◌, Bool-cases, length, set, length-set, get_or-set, max,
}
use ka_min_par.Graph.{n, node_weight}
use ka_min_par.Partition.{PartitionedGraph, block, block_weight, invalid_block_id}
use ka_min_par.Partition.BlockWeights.{HasBlockWeights}
use ka_min_par.Balancer.{
  with_weight_added, with_weight_removed, set_block_only, move_node_if_possible,
}
use ka_min_par.Balancer.Steps.{
  Phase, Balancing, with_phase, begin, give_up, claim, release, settle, Reach, here, next, is_idle,
}
use ka_min_par.Balancer.Interleaving.{start, start-IsBalancing, Reach-bound, Reach-done}

module _ (max_block_weight : ℕ → ℕ) (p : PartitionedGraph) (u from to : ℕ) (w : HasBlockWeights p)
    (sized : length p.partition ≡ n p.graph) (node : u < n p.graph) (at : block p u ≡ from)
    (inside : from < p.k) (target : to < p.k) (other : to ≢ from) where
  abbrev moved : PartitionedGraph
  moved = record (with_weight_removed (with_weight_added p u to) u from) {
    partition = set p.partition u to;
  }

  abbrev trying_phases : ℕ → Phase
  trying_phases = with_phase (λ _. Phase.idle) from (Phase.trying u to (block_weight p to))

  abbrev claimed_phases : ℕ → Phase
  claimed_phases = with_phase trying_phases from (Phase.claimed u to)

  abbrev released_phases : ℕ → Phase
  released_phases = with_phase claimed_phases from (Phase.released u to)

  abbrev pub moved_state : Balancing
  moved_state = record { p = moved; phases = with_phase released_phases from Phase.idle }

  own : (phases : ℕ → Phase) (phase : Phase) → with_phase phases from phase from ≡ phase
  own phases phase = rw (==_refl from) refl

  pub moved-Reach :
      block_weight p to + node_weight p.graph u ≤ max_block_weight to
      → Reach max_block_weight (start max_block_weight p) moved_state
  moved-Reach room =
      let s1 : Balancing = record { p = p; phases = trying_phases } in
      let p2 = with_weight_added p u to in
      let s2 : Balancing = record { p = p2; phases = claimed_phases } in
      let s3 : Balancing = record { p = with_weight_removed p2 u from; phases = released_phases } in
      next
        (next
          (next
            (next here
              (begin (start max_block_weight p) from u to refl inside node at target other))
            (claim s1 from u to (block_weight p to)
              (own (λ _. Phase.idle) (Phase.trying u to (block_weight p to))) inside room refl))
          (release s2 from u to (own trying_phases (Phase.claimed u to)) inside))
        (settle s3 from u to (own claimed_phases (Phase.released u to)) inside node target
          (λ same. other (same ∙ at)))

  pub moved-idle : (f : ℕ) → f < moved_state.p.k → is_idle (moved_state.phases f) ≡ true
  moved-idle f h = elim (Bool-cases (from == f)) [
    | inl mine ↦ rw mine refl
    | inr not_mine ↦ rw not_mine refl
  ]

  abbrev given_up : Balancing
  given_up = record { p = p; phases = with_phase trying_phases from Phase.idle }

  given_up-Reach :
      max_block_weight to < block_weight p to + node_weight p.graph u
      → Reach max_block_weight (start max_block_weight p) given_up
  given_up-Reach full =
      next (next here (begin (start max_block_weight p) from u to refl inside node at target other))
        (give_up (record { p = p; phases = trying_phases }) from u to (block_weight p to)
          (own (λ _. Phase.idle) (Phase.trying u to (block_weight p to))) inside full)

  given_up-idle : (f : ℕ) → is_idle (given_up.phases f) ≡ true
  given_up-idle f = elim (Bool-cases (from == f)) [
    | inl mine ↦ rw mine refl
    | inr not_mine ↦ rw not_mine refl
  ]

  -- The call ends where one order of the threads' steps ends that starts with no thread in a move:
  -- the state `s` is reached, no thread is in a move there, and its partition is the call's.
  -- Exactly if the target block has room, the node is moved: no other node `x` is, the block
  -- weights stay right, and no block `b` gets heavier than allowed or than it was.
  pub move_node_if_possible_correct :
      (x b : ℕ)
      → (q : PartitionedGraph) × (move_node_if_possible max_block_weight p u from to
          ≡ some (leb (block_weight p to + node_weight p.graph u) (max_block_weight to), q))
        × ((s : Balancing) × Reach max_block_weight (start max_block_weight p) s
            × (s.p ≡ q)
            × ((f : ℕ) → f < s.p.k → is_idle (s.phases f) ≡ true))
        × HasBlockWeights q
        × (length q.partition ≡ n q.graph)
        × (block q x ≡ (
            if (leb (block_weight p to + node_weight p.graph u) (max_block_weight to) && u == x)
            then to
            else block p x))
        × (block_weight q b ≤ max (block_weight p b) (max_block_weight b))
  unfolding move_node_if_possible set_block_only
  move_node_if_possible_correct x b =
      elim (Bool-cases (leb (block_weight p to + node_weight p.graph u) (max_block_weight to))) [
        | inl room ↦
            let r = moved-Reach (ground (arith, room)) in
            let is_node : ltb u (n p.graph) ≡ true = ground arith in
            let is_block : ltb to p.k ≡ true = ground arith in
            let is_other : (to == block p u) ≡ false = ground arith in
            (
              moved,
              rw (room, is_node, is_block, is_other) refl,
              (moved_state, r, refl, moved-idle),
              (Reach-done max_block_weight p moved_state w sized r moved-idle).0,
              length-set p.partition u to ∙ sized,
              rw room (get_or-set p.partition u x to invalid_block_id (omega (arith, sized, node))),
              Reach-bound max_block_weight b r (start-IsBalancing max_block_weight p w sized),
            )
        | inr full ↦ (
          p,
          rw full refl,
          (given_up, given_up-Reach (ground (arith, full)), refl, λ f h. given_up-idle f),
          w,
          sized,
          rw full refl,
          omega arith,
        )
      ]
