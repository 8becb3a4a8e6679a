-- ===== src/Marker.antt =====
-- Marker of kaminpar/datastructure/marker.h, for elements of 64 bits and `width` concurrent markers,
-- the template's num_concurrent_markers. The masks are written as what they do to the bits: the
-- mask `~((1u << width) - 1u)` is an unsigned number of 32 bits, so it clears all bits from 32 on.
pub mod Bits
pub mod Laws
mod Tests
use ka_min_par.Prelude.{
  ℕ, zero, suc, ◌+◌, ◌-◌, ◌*◌, ◌/◌, ◌%◌, ◌^◌, Bool, true, false, ◌&&◌, Option, none, some, List, [],
  ltb, ◌==◌, if◌then◌else◌, length, get_or, set, replicate, take, ◌++◌, assert,
}

pub record Marker : Type 0 where
  pub cells : List ℕ
  pub marker_id : ℕ
  pub first_unmarked : List ℕ

-- `(d & (1 << i)) != 0`
abbrev pub has_bit : ℕ → ℕ → Bool
has_bit d zero = d % 2 == 1
has_bit d (suc i) = has_bit (d / 2) i

-- `d | (1 << i)`
abbrev pub with_bit : ℕ → ℕ → ℕ
with_bit d zero = d / 2 * 2 + 1
with_bit d (suc i) = with_bit (d / 2) i * 2 + d % 2

-- `d >> i`
abbrev pub shift_right : ℕ → ℕ → ℕ
shift_right d zero = d
shift_right d (suc i) = shift_right (d / 2) i

module _ (width : ℕ) where
  -- `d & ~((1u << width) - 1u)`
  abbrev pub masked : ℕ → ℕ
  masked d = shift_right (d % 2 ^ 32) width * 2 ^ width

  abbrev pub construct : ℕ → Marker
  construct capacity = record {
    cells = replicate capacity 0;
    marker_id = 0;
    first_unmarked = replicate width 0;
  }

  unfoldable pub get : Marker → ℕ → ℕ → Bool
  get m element marker =
      masked (get_or m.cells element 0) == m.marker_id && has_bit (get_or m.cells element 0) marker

  -- set, without the search for the first unmarked element
  unfoldable pub mark : Marker → ℕ → ℕ → Marker
  mark m element marker =
      let d = get_or m.cells element 0 in
      record m {
        cells =
            set m.cells element
              (if masked d == m.marker_id then with_bit d marker else with_bit m.marker_id marker);
      }

  -- The search from `first` on, for at most `fuel` elements.
  abbrev pub skip_marked : Marker → ℕ → ℕ → ℕ → ℕ
  skip_marked m marker zero first = first
  skip_marked m marker (suc fuel) first =
      let rest = skip_marked m marker fuel (first + 1) in
      if ltb first (length m.cells) && get m first marker then rest else first

  -- set<true>
  unfoldable pub mark_tracked : Marker → ℕ → ℕ → Marker
  unfolding mark
  mark_tracked m element marker =
      let marked = mark m element marker in
      record marked {
        first_unmarked = set marked.first_unmarked marker (
            skip_marked marked marker (length marked.cells)
              (get_or marked.first_unmarked marker 0));
      }

  abbrev pub first_unmarked_element : Marker → ℕ → ℕ
  first_unmarked_element m marker = get_or m.first_unmarked marker 0

  -- reset: the next multiple of `1 << width`, with a fresh start before the last one of 64 bits.
  unfoldable pub reset : Marker → Marker
  reset m =
      let next = (shift_right m.marker_id width + 1) * 2 ^ width in
      if next + (2 ^ width - 1) == 2 ^ 64 - 1
      then record {
        cells = replicate (length m.cells) 0;
        marker_id = 0;
        first_unmarked = replicate width 0;
      }
      else record m { marker_id = next; first_unmarked = replicate width 0 }

  unfoldable pub resize : Marker → ℕ → Marker
  resize m capacity = record m {
    cells = take capacity m.cells ++ replicate (capacity - length m.cells) 0;
  }
