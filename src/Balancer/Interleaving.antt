-- ===== src/Balancer/Interleaving.antt =====
-- All orders of the threads' steps: no block is overloaded by moves, and the weights are right when
-- all threads are done.
use ka_min_par.Prelude.{
  ◌≢◌, ℕ, ◌+◌, ◌-◌, ◌≤◌, ◌<◌, ◌≡◌, refl, ◌∙◌, ap, inl, inr, true, arith, ◌==◌, Bool-cases, length,
  get_or-set, max,
}
use ka_min_par.Prelude.Sums.{sum_below_congr, sum_below_zero}
use ka_min_par.Graph.{n, node_weight}
use ka_min_par.Partition.{block, PartitionedGraph, block_weight}
use ka_min_par.Partition.BlockWeights.{weight_of_block, HasBlockWeights}
use ka_min_par.Balancer.Steps.{
  Phase, Balancing, Step, begin, give_up, fail, claim, release, settle, Reach, here, next, is_idle,
  incoming, outgoing, IsBalancing,
}
use ka_min_par.Balancer.Accounts.{
  quiet, Moves-at, claimed-IsBalancing, released-IsBalancing, settled-IsBalancing,
}

module _ (max_block_weight : ℕ → ℕ) where
  Step-IsBalancing : {s t : Balancing} → Step max_block_weight s t → IsBalancing s → IsBalancing t
  Step-IsBalancing (begin s from u to e h node at target other) v =
      quiet s v from Phase.idle (Phase.trying u to (block_weight s.p to)) e h
        (λ a. (node, at, target, other)) refl refl (λ b. refl) (λ b. refl)
  Step-IsBalancing (give_up s from u to old e h full) v =
      quiet s v from (Phase.trying u to old) Phase.idle e h (λ a. absurd cc) refl refl (λ b. refl)
        (λ b. refl)
  Step-IsBalancing (fail s from u to old e h room) v =
      let moves = Moves-at s v from (Phase.trying u to old) e h refl in
      quiet s v from (Phase.trying u to old) (Phase.trying u to (block_weight s.p to)) e h
        (λ a. moves) refl refl (λ b. refl) (λ b. refl)
  Step-IsBalancing (claim s from u to old e h room same) v =
      claimed-IsBalancing s v from u to old e h
  Step-IsBalancing (release s from u to e h) v = released-IsBalancing s v from u to e h
  Step-IsBalancing (settle s from u to e h node target other) v =
      settled-IsBalancing s v from u to e h

  Reach-IsBalancing : {s t : Balancing} → Reach max_block_weight s t → IsBalancing s → IsBalancing t
  Reach-IsBalancing here v = v
  Reach-IsBalancing (next r step) v = Step-IsBalancing step (Reach-IsBalancing r v)

  -- The assertions of set_block hold wherever a thread is about to call it.
  settle-enabled :
      (s : Balancing) (from u to : ℕ)
      → IsBalancing s
      → s.phases from ≡ Phase.released u to
      → from < s.p.k
      → (u < n s.p.graph) × (to < s.p.k) × (to ≢ block s.p u)
  settle-enabled s from u to v e h =
      let (node, at, target, other) = Moves-at s v from (Phase.released u to) e h refl in
      (node, target, λ same. other (same ∙ at))

  -- A step makes a block heavier only within its limit.
  Step-bound :
      {s t : Balancing} (b : ℕ)
      → Step max_block_weight s t
      → IsBalancing s
      → block_weight t.p b ≤ max (block_weight s.p b) (max_block_weight b)
  Step-bound b (begin s from u to e h node at target other) v = omega arith
  Step-bound b (give_up s from u to old e h full) v = omega arith
  Step-bound b (fail s from u to old e h room) v = omega arith
  Step-bound b (claim s from u to old e h room same) v =
      let target = (Moves-at s v from (Phase.trying u to old) e h refl).2 in
      let at =
        get_or-set s.p.block_weights to b (block_weight s.p to + node_weight s.p.graph u) 0
          (omega (arith, target, v.cells)) in
      elim (Bool-cases (to == b)) [
        | inl hit ↦
            let value = rw hit at at in
            let same_block : to ≡ b = ground arith in
            omega (arith, value, room, same, ap max_block_weight same_block)
        | inr miss ↦ let value = rw miss at at in omega (arith, value)
      ]
  Step-bound b (release s from u to e h) v =
      let at =
        get_or-set s.p.block_weights from b (block_weight s.p from - node_weight s.p.graph u) 0
          (omega (arith, h, v.cells)) in
      elim (Bool-cases (from == b)) [
        | inl hit ↦
            let value = rw hit at at in
            let same_block : from ≡ b = ground arith in
            omega (arith, value, ap (block_weight s.p) same_block)
        | inr miss ↦ let value = rw miss at at in omega (arith, value)
      ]
  Step-bound b (settle s from u to e h node target other) v = omega arith

  -- Whatever steps the threads make in whatever order: a block is never heavier than allowed, or
  -- than it was at first.
  pub Reach-bound :
      {s t : Balancing} (b : ℕ)
      → Reach max_block_weight s t
      → IsBalancing s
      → block_weight t.p b ≤ max (block_weight s.p b) (max_block_weight b)
  Reach-bound b here v = omega arith
  Reach-bound b (next {t} r step) v =
      omega (arith, Reach-bound b r v, Step-bound b step (Reach-IsBalancing r v))

  Step-same :
      {s t : Balancing} → Step max_block_weight s t → (t.p.graph ≡ s.p.graph) × (t.p.k ≡ s.p.k)
  Step-same (begin s from u to e h node at target other) = (refl, refl)
  Step-same (give_up s from u to old e h full) = (refl, refl)
  Step-same (fail s from u to old e h room) = (refl, refl)
  Step-same (claim s from u to old e h room same) = (refl, refl)
  Step-same (release s from u to e h) = (refl, refl)
  Step-same (settle s from u to e h node target other) = (refl, refl)

  Reach-same :
      {s t : Balancing} → Reach max_block_weight s t → (t.p.graph ≡ s.p.graph) × (t.p.k ≡ s.p.k)
  Reach-same here = (refl, refl)
  Reach-same (next {t} r step) =
      let (a, b) = Reach-same r in let (c, d) = Step-same step in (c ∙ a, d ∙ b)

  -- No thread has begun.
  abbrev pub start : PartitionedGraph → Balancing
  start p = record { p = p; phases = λ _. Phase.idle }

  pub start-IsBalancing :
      (p : PartitionedGraph)
      → HasBlockWeights p
      → length p.partition ≡ n p.graph
      → IsBalancing (start p)
  start-IsBalancing p w sized = record {
    cells = w.cells;
    sized = sized;
    nodes = λ f q active. absurd cc;
    blocks = λ f q active. absurd cc;
    targets = λ f q active. absurd cc;
    others = λ f q active. absurd cc;
    accounts = λ b q. omega (arith, w.weights b q, sum_below_zero p.k);
  }

  idle_incoming :
      (weight : ℕ → ℕ) (phase : Phase) (b : ℕ) → is_idle phase ≡ true → incoming weight phase b ≡ 0
  idle_incoming weight Phase.idle b h = refl
  idle_incoming weight (Phase.trying u to old) b h = refl
  idle_incoming weight (Phase.claimed u to) b h = absurd cc
  idle_incoming weight (Phase.released u to) b h = absurd cc

  idle_outgoing :
      (weight : ℕ → ℕ) (phase : Phase) → is_idle phase ≡ true → outgoing weight phase ≡ 0
  idle_outgoing weight Phase.idle h = refl
  idle_outgoing weight (Phase.trying u to old) h = refl
  idle_outgoing weight (Phase.claimed u to) h = refl
  idle_outgoing weight (Phase.released u to) h = absurd cc

  -- From right block weights, whatever the threads do: when none of them is in a move, the block
  -- weights are right again, of the same graph and for as many blocks.
  pub Reach-done :
      (p : PartitionedGraph) (t : Balancing)
      → HasBlockWeights p
      → length p.partition ≡ n p.graph
      → Reach max_block_weight (start p) t
      → ((f : ℕ) → f < t.p.k → is_idle (t.phases f) ≡ true)
      → HasBlockWeights t.p × (t.p.graph ≡ p.graph) × (t.p.k ≡ p.k)
  Reach-done p t w sized r done =
      let v = Reach-IsBalancing r (start-IsBalancing p w sized) in
      let weigh = node_weight t.p.graph in
      let weights : (b : ℕ) → b < t.p.k → block_weight t.p b ≡ weight_of_block t.p b = λ b q.
        (let quiet_ =
            sum_below_congr t.p.k (λ f. incoming weigh (t.phases f) b) (λ _. 0)
              (λ f h. idle_incoming weigh (t.phases f) b (done f h)) in
          omega (
            arith,
            v.accounts b q,
            quiet_,
            sum_below_zero t.p.k,
            idle_outgoing weigh (t.phases b) (done b q),
          )) in
      (record { cells = v.cells; weights = weights }, (Reach-same r).0, (Reach-same r).1)
