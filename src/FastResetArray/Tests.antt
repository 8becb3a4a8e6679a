-- ===== src/FastResetArray/Tests.antt =====
-- An array of three entries, and the theorems there.
use ka_min_par.Prelude.{ℕ, ◌≡◌, ◌==◌, ==_iff, refl, Bool, true, [], ◌∷◌}
use ka_min_par.FastResetArray.{FastResetArray, clear}

abbrev is_zero : ℕ → Bool
is_zero x = x == 0

is_zero_eq : (x : ℕ) → is_zero x ≡ true → x ≡ 0
is_zero_eq x h = (==_iff x 0).0 h

abbrev one_changed : FastResetArray ℕ
one_changed = record { cells = 0 ∷ 5 ∷ 0 ∷ []; used_entries = 1 ∷ [] }

array_runs : clear 0 is_zero one_changed ≡ record { cells = 0 ∷ 0 ∷ 0 ∷ []; used_entries = [] }
unfolding clear
array_runs = refl
