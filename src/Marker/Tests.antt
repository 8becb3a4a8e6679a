-- ===== src/Marker/Tests.antt =====
-- Three elements with two markers in the second round, and the theorems there.
use ka_min_par.Prelude.{
  ℕ, zero, suc, ◌^◌, ◌≤◌, ◌≡◌, ◌==◌, ◌&&◌, ◌||◌, refl, true, false, [], ◌∷◌, arith, get_or,
}
use ka_min_par.Marker.{Marker, shift_right, get, mark, mark_tracked, reset, first_unmarked_element}
use ka_min_par.Marker.Laws.{IsMarker, mark_correct, reset_correct, get_overflow}

-- Element 1 was marked in the first round, element 2 is in this one.
abbrev second_round : Marker
second_round = record { cells = 0 ∷ 3 ∷ 5 ∷ []; marker_id = 4; first_unmarked = 0 ∷ 0 ∷ [] }

second_round-earlier : (x : ℕ) → shift_right (get_or second_round.cells x 0) 2 ≤ 1
second_round-earlier zero = omega arith
second_round-earlier (suc zero) = omega arith
second_round-earlier (suc (suc zero)) = omega arith
second_round-earlier (suc (suc (suc x))) = omega arith

second_round-IsMarker : IsMarker 2 second_round
second_round-IsMarker = record {
  multiple = refl;
  fits = omega arith;
  earlier = second_round-earlier;
}

mark_correct_example :
    IsMarker 2 (mark 2 second_round 1 0)
    × (get 2 (mark 2 second_round 1 0) 1 1 ≡ ((1 == 1 && 0 == 1) || get 2 second_round 1 1))
mark_correct_example =
    mark_correct 2 second_round second_round-IsMarker 1 0 (omega arith) (omega arith) 1 1
      (omega arith)

reset_correct_example :
    IsMarker 2 (reset 2 second_round) × (get 2 (reset 2 second_round) 2 0 ≡ false)
reset_correct_example = reset_correct 2 second_round 2 0 second_round-IsMarker (omega arith)

abbrev late_round : Marker
late_round = record { cells = 0 ∷ []; marker_id = 2 ^ 32; first_unmarked = 0 ∷ [] }

late_id : 2 ^ 32 ≤ (mark 1 late_round 0 0).marker_id
unfolding mark
late_id = omega arith

get_overflow_example : get 1 (mark 1 late_round 0 0) 0 0 ≡ false
get_overflow_example = get_overflow 1 (mark 1 late_round 0 0) 0 0 late_id

marker_runs :
    (get 2 (mark 2 second_round 1 0) 1 0 ≡ true)
    × (get 2 second_round 1 0 ≡ false)
    × (first_unmarked_element 2 (mark_tracked 2 second_round 0 0) 0 ≡ 1)
unfolding get mark mark_tracked
marker_runs = (refl, refl, refl)
