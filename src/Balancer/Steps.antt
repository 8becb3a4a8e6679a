-- ===== src/Balancer/Steps.antt =====
-- Threads that move nodes at the same time (kaminpar/refinement/parallel_balancer.cc,
-- perform_round and move_node_if_possible): one thread for each block that nodes leave, and a step
-- for each access to what the threads share.
use ka_min_par.Prelude.{
  ℕ, ◌+◌, ◌≤◌, ◌<◌, ◌≡◌, ◌≢◌, Bool, true, false, ◌==◌, if◌then◌else◌, length, set,
}
use ka_min_par.Prelude.Sums.{sum_below}
use ka_min_par.Graph.{n, node_weight}
use ka_min_par.Partition.{PartitionedGraph, block, block_weight}
use ka_min_par.Partition.BlockWeights.{weight_of_block}
use ka_min_par.Balancer.{with_weight_added, with_weight_removed}

-- Where a thread is in move_node_if_possible: the node, the target block, and in the loop the value
-- that `old_weight` has.
pub data Phase : Type 0 where
  idle : Phase
  trying : ℕ → ℕ → ℕ → Phase
  claimed : ℕ → ℕ → Phase
  released : ℕ → ℕ → Phase

-- The graph that the threads share, and each thread's phase, by the block that its nodes leave.
pub record Balancing : Type 0 where
  pub p : PartitionedGraph
  pub phases : ℕ → Phase

abbrev pub with_phase : (ℕ → Phase) → ℕ → Phase → ℕ → Phase
with_phase phases from phase x = if from == x then phase else phases x

-- A step of one thread. compare_exchange_weak may fail for no reason.
pub data Step (max_block_weight : ℕ → ℕ) : Balancing → Balancing → Type 0 where
  begin :
      (s : Balancing) (from u to : ℕ)
      → s.phases from ≡ idle
      → from < s.p.k
      → u < n s.p.graph
      → block s.p u ≡ from
      → to < s.p.k
      → to ≢ from
      → Step max_block_weight s
          (record s { phases = with_phase s.phases from (trying u to (block_weight s.p to)) })
  give_up :
      (s : Balancing) (from u to old : ℕ)
      → s.phases from ≡ trying u to old
      → from < s.p.k
      → max_block_weight to < old + node_weight s.p.graph u
      → Step max_block_weight s (record s { phases = with_phase s.phases from idle })
  fail :
      (s : Balancing) (from u to old : ℕ)
      → s.phases from ≡ trying u to old
      → from < s.p.k
      → old + node_weight s.p.graph u ≤ max_block_weight to
      → Step max_block_weight s
          (record s { phases = with_phase s.phases from (trying u to (block_weight s.p to)) })
  claim :
      (s : Balancing) (from u to old : ℕ)
      → s.phases from ≡ trying u to old
      → from < s.p.k
      → old + node_weight s.p.graph u ≤ max_block_weight to
      → block_weight s.p to ≡ old
      → Step max_block_weight s (record {
        p = with_weight_added s.p u to;
        phases = with_phase s.phases from (claimed u to);
      })
  release :
      (s : Balancing) (from u to : ℕ)
      → s.phases from ≡ claimed u to
      → from < s.p.k
      → Step max_block_weight s (record {
        p = with_weight_removed s.p u from;
        phases = with_phase s.phases from (released u to);
      })
  settle :
      (s : Balancing) (from u to : ℕ)
      → s.phases from ≡ released u to
      → from < s.p.k
      → u < n s.p.graph
      → to < s.p.k
      → to ≢ block s.p u
      → Step max_block_weight s (record {
        p = record s.p { partition = set s.p.partition u to };
        phases = with_phase s.phases from idle;
      })

pub data Reach (max_block_weight : ℕ → ℕ) (s : Balancing) : Balancing → Type 0 where
  here : Reach max_block_weight s s
  next :
      {t z : Balancing}
      → Reach max_block_weight s t
      → Step max_block_weight t z
      → Reach max_block_weight s z

-- The node of a phase, its target, and whether it is one of a thread that moves.
abbrev pub node_of : Phase → ℕ
node_of idle = 0
node_of (trying u to old) = u
node_of (claimed u to) = u
node_of (released u to) = u

abbrev pub target_of : Phase → ℕ
target_of idle = 0
target_of (trying u to old) = to
target_of (claimed u to) = to
target_of (released u to) = to

abbrev pub is_idle : Phase → Bool
is_idle idle = true
is_idle (trying u to old) = false
is_idle (claimed u to) = false
is_idle (released u to) = false

-- The weight that the target has already, and the weight that the old block has no more.
abbrev pub incoming : (ℕ → ℕ) → Phase → ℕ → ℕ
incoming weight idle b = 0
incoming weight (trying u to old) b = 0
incoming weight (claimed u to) b = if to == b then weight u else 0
incoming weight (released u to) b = if to == b then weight u else 0

abbrev pub outgoing : (ℕ → ℕ) → Phase → ℕ
outgoing weight idle = 0
outgoing weight (trying u to old) = 0
outgoing weight (claimed u to) = 0
outgoing weight (released u to) = weight u

-- A thread moves a node of its block to another block; the weight of a block is that of its nodes,
-- up to the moves in progress.
pub record IsBalancing (s : Balancing) : Type 0 where
  pub cells : length s.p.block_weights ≡ s.p.k
  pub sized : length s.p.partition ≡ n s.p.graph
  pub nodes :
      (f : ℕ) → f < s.p.k → is_idle (s.phases f) ≡ false → node_of (s.phases f) < n s.p.graph
  pub blocks :
      (f : ℕ) → f < s.p.k → is_idle (s.phases f) ≡ false → block s.p (node_of (s.phases f)) ≡ f
  pub targets : (f : ℕ) → f < s.p.k → is_idle (s.phases f) ≡ false → target_of (s.phases f) < s.p.k
  pub others : (f : ℕ) → f < s.p.k → is_idle (s.phases f) ≡ false → target_of (s.phases f) ≢ f
  pub accounts :
      (b : ℕ)
      → b < s.p.k
      → block_weight s.p b + outgoing (node_weight s.p.graph) (s.phases b)
        ≡ weight_of_block s.p b
          + sum_below s.p.k (λ f. incoming (node_weight s.p.graph) (s.phases f) b)
