-- ===== src/Refiner.antt =====
-- InitialTwoWayFMRefiner (kaminpar/initial_partitioning/initial_refiner.h) with the policies
-- MaxOverloadSelectionPolicy, BalancedMinCutAcceptancePolicy and SimpleStoppingPolicy: the state of a
-- round and the policies. The limits on block weights (PartitionContext) and the random bits are
-- arguments; a failed assertion is the fault `none`. The adaptive stopping policy computes with
-- doubles and is left out.
pub mod Moves
pub mod Search
pub mod Gain
pub mod Marks
pub mod Fuel
pub mod Rollback
mod Tests
use ka_min_par.Prelude.{
  ℕ, zero, suc, ◌+◌, ◌-◌, ◌*◌, ◌^◌, Bool, true, false, not, ◌&&◌, ◌||◌, Option, none, some, List,
  [], ◌∷◌, ltb, leb, ◌==◌, if◌then◌else◌, length, get_or, set, assert, ◌>>=◌,
}
use ka_min_par.Prelude.Int.{ℤ, plus_part, minus_part, minus, ltb_ℤ, eqb_ℤ}
use ka_min_par.BinaryHeap.{BinaryHeap, is_empty, peek_key}
use ka_min_par.Bipartition.Greedy.{gain_comparator}
use ka_min_par.Marker.{Marker}
use ka_min_par.Partition.{PartitionedGraph, block_weight}

infixl 65 ◌+ℤ◌
abbrev pub ◌+ℤ◌ : ℤ → ℤ → ℤ
a +ℤ b = minus (plus_part a + plus_part b) (minus_part a + minus_part b)

-- The limits and options: num_fruitless_moves of the FM context, perfectly_balanced_block_weight
-- and max_block_weight of the partition context.
pub record Options : Type 0 where
  pub num_fruitless_moves : ℕ
  pub perfect : ℕ → ℕ
  pub limit : ℕ → ℕ

-- The members of the refiner, and the local variables of round.
pub record Round : Type 0 where
  pub p : PartitionedGraph
  pub queue_0 : BinaryHeap ℤ
  pub queue_1 : BinaryHeap ℤ
  pub marker : Marker
  pub weighted_degrees : List ℕ
  pub num_steps : ℕ
  pub moves : List ℕ
  pub accepted_overload : ℕ
  pub current_overload : ℕ
  pub accepted_delta : ℤ
  pub current_delta : ℤ

-- `_queues[b]`
abbrev pub queue_of : Round → ℕ → BinaryHeap ℤ
queue_of r b = if b == 0 then r.queue_0 else r.queue_1

abbrev pub with_queue : Round → ℕ → BinaryHeap ℤ → Round
with_queue r b q = if b == 0 then record r { queue_0 = q } else record r { queue_1 = q }

-- SimpleStoppingPolicy::should_stop
abbrev pub should_stop : Options → Round → Bool
should_stop o r = ltb o.num_fruitless_moves r.num_steps

-- MaxWeightSelectionPolicy: the block that is heavier, above its perfect weight.
unfoldable pub max_weight_block : Options → PartitionedGraph → Bool → ℕ
max_weight_block o p coin =
    let weight_0 = block_weight p 0 + o.perfect 1 in
    let weight_1 = block_weight p 1 + o.perfect 0 in
    if ltb weight_0 weight_1 || (weight_0 == weight_1 && coin) then 1 else 0

-- The loss of the best move from a block, and the largest Gain if there is none.
abbrev pub loss_of : BinaryHeap ℤ → Option ℤ
loss_of q = if is_empty q then some (ℤ.pos (2 ^ 31 - 1)) else peek_key q

-- MaxGainSelectionPolicy
unfoldable pub max_gain_block : Options → Round → Bool → Option ℕ
max_gain_block o r coin = loss_of r.queue_0 >>= λ loss_0. loss_of r.queue_1 >>= λ loss_1. some (
    if eqb_ℤ loss_0 loss_1
    then max_weight_block o r.p coin
    else (if ltb_ℤ loss_1 loss_0 then 1 else 0))

-- MaxOverloadSelectionPolicy
unfoldable pub max_overload_block : Options → Round → Bool → Option ℕ
max_overload_block o r coin =
    let overload_0 = block_weight r.p 0 - o.limit 0 in
    let overload_1 = block_weight r.p 1 - o.limit 1 in
    if overload_0 == 0 && overload_1 == 0
    then max_gain_block o r coin
    else some (if ltb overload_0 overload_1 || (overload_1 == overload_0 && coin) then 1 else 0)

-- BalancedMinCutAcceptancePolicy
unfoldable pub is_accepted : Round → Bool
is_accepted r = leb r.current_overload r.accepted_overload && ltb_ℤ r.current_delta r.accepted_delta
