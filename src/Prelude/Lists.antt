-- ===== src/Prelude/Lists.antt =====
-- Vectors as lists under native indices. A read out of range gives the default that the caller
-- names, and a write out of range changes nothing; the components prove that neither is met.
use Prim.Native.Nat.{ℕ, zero, suc, ◌+◌, ◌-◌, ◌<◌, ◌≤◌}
use mathlib.Core.Path.{◌≡◌, refl, ap, ◌∙◌}
use mathlib.Core.Logic.{◌≢◌, inl, inr}
use mathlib.Core.List.{List, [], ◌∷◌, ◌++◌}
use native.Mathlib.Omega.{arith}
use ka_min_par.Prelude.Tests.{Bool-cases, ◌==◌, if◌then◌else◌}

module _ {ℓ} {A : Type ℓ} where
  abbrev pub length : List A → ℕ
  length [] = 0
  length (x ∷ xs) = suc (length xs)

  abbrev pub get_or : List A → ℕ → A → A
  get_or [] i d = d
  get_or (x ∷ xs) zero d = x
  get_or (x ∷ xs) (suc i) d = get_or xs i d

  abbrev pub set : List A → ℕ → A → List A
  set [] i v = []
  set (x ∷ xs) zero v = v ∷ xs
  set (x ∷ xs) (suc i) v = x ∷ set xs i v

  abbrev pub take : ℕ → List A → List A
  take zero xs = []
  take (suc n) [] = []
  take (suc n) (x ∷ xs) = x ∷ take n xs

  abbrev pub drop : ℕ → List A → List A
  drop zero xs = xs
  drop (suc n) [] = []
  drop (suc n) (x ∷ xs) = drop n xs

  abbrev pub replicate : ℕ → A → List A
  replicate zero a = []
  replicate (suc n) a = a ∷ replicate n a

module _ {ℓ} {A : Type ℓ} where
  pub length-append : (xs ys : List A) → length (xs ++ ys) ≡ length xs + length ys
  length-append [] ys = omega arith
  length-append (x ∷ xs) ys = omega (arith, length-append xs ys)

  pub length-set : (xs : List A) (i : ℕ) (v : A) → length (set xs i v) ≡ length xs
  length-set [] i v = refl
  length-set (x ∷ xs) zero v = refl
  length-set (x ∷ xs) (suc i) v = ap suc (length-set xs i v)

  pub length-replicate : (n : ℕ) (a : A) → length (replicate n a) ≡ n
  length-replicate zero a = refl
  length-replicate (suc n) a = ap suc (length-replicate n a)

  pub get_or-replicate : (n i : ℕ) (a : A) → get_or (replicate n a) i a ≡ a
  get_or-replicate zero i a = refl
  get_or-replicate (suc n) zero a = refl
  get_or-replicate (suc n) (suc i) a = get_or-replicate n i a

  -- A write is read back at its own index, and leaves the others.
  pub get_or-set :
      (xs : List A) (i j : ℕ) (v d : A)
      → i < length xs
      → get_or (set xs i v) j d ≡ (if i == j then v else get_or xs j d)
  get_or-set [] i j v d h = absurd (omega arith)
  get_or-set (x ∷ xs) zero zero v d h = refl
  get_or-set (x ∷ xs) zero (suc j) v d h = ground arith
  get_or-set (x ∷ xs) (suc i) zero v d h = ground arith
  get_or-set (x ∷ xs) (suc i) (suc j) v d h = ground (arith, get_or-set xs i j v d)

  pub get_or-set_self :
      (xs : List A) (i : ℕ) (v d : A) → i < length xs → get_or (set xs i v) i d ≡ v
  get_or-set_self xs i v d h = ground (arith, get_or-set xs i i v d)

  pub get_or-set_ne :
      (xs : List A) (i j : ℕ) (v d : A) → i ≢ j → get_or (set xs i v) j d ≡ get_or xs j d
  get_or-set_ne [] i j v d h = refl
  get_or-set_ne (x ∷ xs) zero zero v d h = absurd (h refl)
  get_or-set_ne (x ∷ xs) zero (suc j) v d h = refl
  get_or-set_ne (x ∷ xs) (suc i) zero v d h = refl
  get_or-set_ne (x ∷ xs) (suc i) (suc j) v d h = get_or-set_ne xs i j v d (λ e. h (ap suc e))

  pub get_or-append_left :
      (xs ys : List A) (i : ℕ) (d : A) → i < length xs → get_or (xs ++ ys) i d ≡ get_or xs i d
  get_or-append_left [] ys i d h = absurd (omega arith)
  get_or-append_left (x ∷ xs) ys zero d h = refl
  get_or-append_left (x ∷ xs) ys (suc i) d h = get_or-append_left xs ys i d (omega arith)

  pub get_or-append_right :
      (xs ys : List A) (i : ℕ) (d : A)
      → length xs ≤ i
      → get_or (xs ++ ys) i d ≡ get_or ys (i - length xs) d
  get_or-append_right [] ys i d h = ap (λ j. get_or ys j d) (omega arith)
  get_or-append_right (x ∷ xs) ys zero d h = absurd (omega arith)
  get_or-append_right (x ∷ xs) ys (suc i) d h =
      get_or-append_right xs ys i d (omega arith) ∙ ap (λ j. get_or ys j d) (omega arith)

  pub get_or-append_last : (xs : List A) (y d : A) → get_or (xs ++ y ∷ []) (length xs) d ≡ y
  get_or-append_last [] y d = refl
  get_or-append_last (x ∷ xs) y d = get_or-append_last xs y d

  pub get_or_overflow : (xs : List A) (i : ℕ) (d : A) → length xs ≤ i → get_or xs i d ≡ d
  get_or_overflow [] i d h = refl
  get_or_overflow (x ∷ xs) zero d h = absurd (omega arith)
  get_or_overflow (x ∷ xs) (suc i) d h = get_or_overflow xs i d (omega arith)

module _ {ℓ} {A : Type ℓ} where
  pub length-take_le : (n : ℕ) (xs : List A) → n ≤ length xs → length (take n xs) ≡ n
  length-take_le zero xs h = refl
  length-take_le (suc n) [] h = absurd (omega arith)
  length-take_le (suc n) (x ∷ xs) h = ap suc (length-take_le n xs (omega arith))

  pub get_or-take :
      (n : ℕ) (xs : List A) (i : ℕ) (d : A) → i < n → get_or (take n xs) i d ≡ get_or xs i d
  get_or-take zero xs i d h = absurd (omega arith)
  get_or-take (suc n) [] i d h = refl
  get_or-take (suc n) (x ∷ xs) zero d h = refl
  get_or-take (suc n) (x ∷ xs) (suc i) d h = get_or-take n xs i d (omega arith)

  pub drop_overflow : (n : ℕ) (xs : List A) → length xs ≤ n → drop n xs ≡ []
  drop_overflow zero [] h = refl
  drop_overflow zero (x ∷ xs) h = absurd (omega arith)
  drop_overflow (suc n) [] h = refl
  drop_overflow (suc n) (x ∷ xs) h = drop_overflow n xs (omega arith)

  -- All entries but the last, and the last.
  pub take-append_last :
      (n : ℕ) (xs : List A) (d : A) → length xs ≡ suc n → take n xs ++ get_or xs n d ∷ [] ≡ xs
  take-append_last n [] d h = absurd (omega arith)
  take-append_last zero (x ∷ []) d h = refl
  take-append_last zero (x ∷ y ∷ xs) d h = absurd (omega arith)
  take-append_last (suc n) (x ∷ xs) d h = ap (◌∷◌ x) (take-append_last n xs d (omega arith))

  -- A write of the default is read back also where it is out of range.
  pub get_or-set_default :
      (xs : List A) (i j : ℕ) (d : A)
      → get_or (set xs i d) j d ≡ (if i == j then d else get_or xs j d)
  get_or-set_default [] i j d = elim (Bool-cases (i == j)) [ inl e ↦ rw e | inr e ↦ rw e ]
  get_or-set_default (x ∷ xs) zero zero d = refl
  get_or-set_default (x ∷ xs) zero (suc j) d = ground arith
  get_or-set_default (x ∷ xs) (suc i) zero d = ground arith
  get_or-set_default (x ∷ xs) (suc i) (suc j) d = ground (arith, get_or-set_default xs i j d)

-- std::partial_sum in place, after entries that add up to `acc`.
abbrev pub partial_sum : ℕ → List ℕ → List ℕ
partial_sum acc [] = []
partial_sum acc (x ∷ xs) = (acc + x) ∷ partial_sum (acc + x) xs

pub length-partial_sum : (acc : ℕ) (xs : List ℕ) → length (partial_sum acc xs) ≡ length xs
length-partial_sum acc [] = refl
length-partial_sum acc (x ∷ xs) = ap suc (length-partial_sum (acc + x) xs)

-- Neighbouring prefix sums differ by the entry between them.
pub partial_sum-step :
    (acc : ℕ) (xs : List ℕ) (i : ℕ)
    → suc i < length xs
    → get_or (partial_sum acc xs) (suc i) 0 ≡ get_or (partial_sum acc xs) i 0 + get_or xs (suc i) 0
partial_sum-step acc [] i h = absurd (omega arith)
partial_sum-step acc (x ∷ []) i h = absurd (omega arith)
partial_sum-step acc (x ∷ y ∷ xs) zero h = refl
partial_sum-step acc (x ∷ y ∷ xs) (suc i) h = partial_sum-step (acc + x) (y ∷ xs) i (omega arith)
