-- ===== src/FastResetArray.antt =====
-- FastResetArray of kaminpar/datastructure/fast_reset_array.h: an array that lists the entries that
-- were changed, so that clear visits only those. `initial` is value_type(), `is_initial` the
-- comparison with it, and `cells` is `_data`. A failed assertion is the fault `none`.
pub mod Laws
mod Tests
use ka_min_par.Prelude.{
  ℕ, zero, suc, ◌-◌, Bool, true, false, not, Option, none, some, List, [], ◌∷◌, ◌++◌, ltb, ◌==◌,
  if◌then◌else◌, length, get_or, set, replicate, take, assert, ◌>>=◌,
}
use ka_min_par.Prelude.Loops.{for_each}

pub record FastResetArray (T : Type 0) : Type 0 where
  pub cells : List T
  pub used_entries : List ℕ

module _ {T : Type 0} (initial : T) (is_initial : T → Bool) where
  unfoldable pub construct : ℕ → FastResetArray T
  construct capacity = record { cells = replicate capacity initial; used_entries = [] }

  abbrev pub get : FastResetArray T → ℕ → T
  get a pos = get_or a.cells pos initial

  -- What operator[] does before it returns a reference to the entry.
  unfoldable pub access : FastResetArray T → ℕ → Option (FastResetArray T)
  access a pos = assert (ltb pos (length a.cells)) (
      some (
        if is_initial (get a pos)
        then record a { used_entries = a.used_entries ++ pos ∷ [] }
        else a))

  -- set, and any write through operator[].
  unfoldable pub set_entry : FastResetArray T → ℕ → T → Option (FastResetArray T)
  unfolding access
  set_entry a pos new_value =
      access a pos >>= λ b. some (record b { cells = set b.cells pos new_value })

  unfoldable pub clear : FastResetArray T → FastResetArray T
  clear a = record {
    cells = for_each a.used_entries (λ pos cells. set cells pos initial) a.cells;
    used_entries = [];
  }

  unfoldable pub resize : FastResetArray T → ℕ → FastResetArray T
  resize a capacity = record a {
    cells = take capacity a.cells ++ replicate (capacity - length a.cells) initial;
  }

  abbrev pub size : FastResetArray T → ℕ
  size a = length a.used_entries
