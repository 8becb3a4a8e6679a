-- ===== src/Io/Metis/Prefix.antt =====
-- The entries of an array that were read so far.
use ka_min_par.Prelude.{
  ℕ, zero, suc, ◌+◌, ◌≤◌, ◌<◌, ◌≡◌, refl, sym, ap, inl, inr, Bool, true, ◌&&◌, List, [], ◌∷◌, ◌++◌,
  arith, ◌==◌, Bool-cases, length, get_or, take,
}
use ka_min_par.Graph.{is_empty, accumulate}

abbrev pub all_ones : List ℕ → Bool
all_ones [] = true
all_ones (w ∷ ws) = w == 1 && all_ones ws

module _ {ℓ} {A : Type ℓ} where
  pub take-suc :
      (n : ℕ) (xs : List A) (d : A)
      → n < length xs
      → take (suc n) xs ≡ take n xs ++ get_or xs n d ∷ []
  take-suc n [] d h = absurd (omega arith)
  take-suc zero (x ∷ xs) d h = refl
  take-suc (suc n) (x ∷ xs) d h = ap (◌∷◌ x) (take-suc n xs d (omega arith))

  pub take_overflow : (n : ℕ) (xs : List A) → length xs ≤ n → take n xs ≡ xs
  take_overflow zero [] h = refl
  take_overflow zero (x ∷ xs) h = absurd (omega arith)
  take_overflow (suc n) [] h = refl
  take_overflow (suc n) (x ∷ xs) h = ap (◌∷◌ x) (take_overflow n xs (omega arith))

  pub length-is_empty : (xs : List A) → is_empty xs ≡ true → length xs ≡ 0
  length-is_empty [] e = refl
  length-is_empty (x ∷ xs) e = absurd cc

pub all_ones-append : (xs : List ℕ) (w : ℕ) → all_ones (xs ++ w ∷ []) ≡ all_ones xs && w == 1
all_ones-append [] w = elim (Bool-cases (w == 1)) [ inl e ↦ rw e refl | inr e ↦ rw e refl ]
all_ones-append (x ∷ xs) w = elim (Bool-cases (x == 1)) [
  | inl e ↦ rw e (all_ones-append xs w)
  | inr e ↦ rw e refl
]

pub accumulate-append : (xs : List ℕ) (w : ℕ) → accumulate (xs ++ w ∷ []) ≡ accumulate xs + w
accumulate-append [] w = omega arith
accumulate-append (x ∷ xs) w = omega (arith, accumulate-append xs w)

pub accumulate-take : (n : ℕ) (xs : List ℕ) → accumulate (take n xs) ≤ accumulate xs
accumulate-take zero xs = omega arith
accumulate-take (suc n) [] = omega arith
accumulate-take (suc n) (x ∷ xs) = omega (arith, accumulate-take n xs)

-- The total of one more weight, which stays within the total of all.
pub accumulate-take-suc :
    (n : ℕ) (xs : List ℕ)
    → n < length xs
    → (accumulate (take n xs) + get_or xs n 0 ≡ accumulate (take (suc n) xs))
      × (accumulate (take n xs) + get_or xs n 0 ≤ accumulate xs)
accumulate-take-suc n xs h =
    let e : accumulate (take (suc n) xs) ≡ accumulate (take n xs) + get_or xs n 0 =
      rw (take-suc n xs 0 h) (accumulate-append (take n xs) (get_or xs n 0)) in
    (sym e, omega (arith, e, accumulate-take (suc n) xs))
