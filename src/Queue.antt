-- ===== src/Queue.antt =====
-- Queue of kaminpar/datastructure/queue.h. A failed assertion, or an access out of range, is the
-- fault `none`. `initial` is T(), and `cells` is `_data`.
pub mod Laws
mod Tests
use ka_min_par.Prelude.{
  ℕ, zero, suc, ◌+◌, ◌-◌, Bool, true, false, not, Option, none, some, List, [], ◌∷◌, ◌++◌, ltb,
  ◌==◌, length, get_or, set, replicate, take, assert,
}

pub record Queue (T : Type 0) : Type 0 where
  pub cells : List T
  pub head : ℕ
  pub tail : ℕ

module _ {T : Type 0} (initial : T) where
  unfoldable pub construct : ℕ → Queue T
  construct capacity = record { cells = replicate capacity initial; head = 0; tail = 0 }

  abbrev pub empty : Queue T → Bool
  empty q = q.head == q.tail

  abbrev pub size : Queue T → ℕ
  size q = q.tail - q.head

  abbrev pub capacity : Queue T → ℕ
  capacity q = length q.cells

  -- head()
  unfoldable pub front : Queue T → Option T
  front q = assert (not (empty q)) (some (get_or q.cells q.head initial))

  -- tail(), which reads the slot after the last element.
  unfoldable pub back : Queue T → Option T
  back q =
      assert (not (empty q))
        (assert (ltb q.tail (length q.cells)) (some (get_or q.cells q.tail initial)))

  -- operator[]
  unfoldable pub get : Queue T → ℕ → Option T
  get q pos =
      assert (ltb (q.head + pos) (length q.cells)) (some (get_or q.cells (q.head + pos) initial))

  unfoldable pub clear : Queue T → Queue T
  clear q = record q { head = 0; tail = 0 }

  unfoldable pub resize : Queue T → ℕ → Queue T
  unfolding clear
  resize q n = clear (record q { cells = take n q.cells ++ replicate (n - length q.cells) initial })

  unfoldable pub pop_head : Queue T → Option (Queue T)
  pop_head q = assert (ltb q.head q.tail) (some (record q { head = q.head + 1 }))

  unfoldable pub push_head : Queue T → T → Option (Queue T)
  push_head q x =
      assert (ltb 0 q.head)
        (some (record q { cells = set q.cells (q.head - 1) x; head = q.head - 1 }))

  unfoldable pub push_tail : Queue T → T → Option (Queue T)
  push_tail q x =
      assert (ltb q.tail (length q.cells))
        (some (record q { cells = set q.cells q.tail x; tail = q.tail + 1 }))

  unfoldable pub pop_tail : Queue T → Option (Queue T)
  pop_tail q = assert (ltb q.head q.tail) (some (record q { tail = q.tail - 1 }))
