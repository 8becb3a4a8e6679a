-- ===== src/Io/Decimal.antt =====
-- A number that was written is scanned again, with any rest behind it.
use ka_min_par.Prelude.{
  ℕ, zero, suc, ◌+◌, ◌-◌, ◌*◌, ◌/◌, ◌%◌, ◌^◌, ◌<◌, ◌≡◌, refl, ◌∙◌, ap, inl, inr, true, false, ◌||◌,
  List, [], ◌∷◌, ◌++◌, arith, ltb, ◌==◌, Bool-cases,
}
use mathlib.Core.List.{append_assoc}
use native.Mathlib.Omega.{pow_step}
use ka_min_par.Io.{is_digit, skip_spaces, scan_digits, scan_uint, digits, write_uint}

-- One digit is scanned.
scan_digits-digit :
    (number d : ℕ) (rest : List ℕ)
    → d < 10
    → number * 10 + d < 2 ^ 64
    → scan_digits number ((b'0' + d) ∷ rest) ≡ scan_digits (number * 10 + d) rest
unfolding scan_digits
scan_digits-digit number d rest h fits =
    let digit : is_digit (b'0' + d) ≡ true = ground arith in
    let value : (number * 10 + (b'0' + d - b'0')) % 2 ^ 64 ≡ number * 10 + d = omega arith in
    rw (digit, value) refl

scan_digits-digits :
    (fuel n : ℕ) (rest : List ℕ)
    → n < 10 ^ suc fuel
    → n < 2 ^ 64
    → scan_digits 0 (digits fuel n ++ rest) ≡ scan_digits n rest
scan_digits-digits zero n rest h fits =
    let small : n % 10 ≡ n = omega arith in
    scan_digits-digit 0 (n % 10) rest (omega arith) (omega arith)
    ∙ ap (λ k. scan_digits k rest) (omega arith)
scan_digits-digits (suc fuel) n rest h fits = elim (Bool-cases (ltb n 10)) [
  | inl small ↦ rw small (
      scan_digits-digit 0 n rest (ground arith) (omega arith)
      ∙ ap (λ k. scan_digits k rest) (omega arith))
  | inr large ↦
      let last = (b'0' + n % 10) ∷ [] in
      let fewer : n / 10 < 10 ^ suc fuel =
        let power : 10 ^ suc (suc fuel) ≡ 10 * 10 ^ suc fuel = pow_step 10 (suc fuel) in
        omega arith in
      rw (large, append_assoc)
        (scan_digits-digits fuel (n / 10) (last ++ rest) fewer (omega arith)
          ∙ scan_digits-digit (n / 10) (n % 10) rest (omega arith) (omega arith)
          ∙ ap (λ k. scan_digits k rest) (omega arith))
]

-- A number that was written is scanned up to the next character that is no digit, and the spaces
-- from there on are skipped.
pub scan_uint-write_uint :
    (n c : ℕ) (rest : List ℕ)
    → n < 2 ^ 64
    → is_digit c ≡ false
    → scan_uint (write_uint n ++ (c ∷ rest)) ≡ (n, skip_spaces (c ∷ rest))
unfolding scan_uint write_uint
scan_uint-write_uint n c rest fits e =
    let stop : scan_digits n (c ∷ rest) ≡ (n, c ∷ rest) = unfold scan_digits in rw e refl in
    rw (scan_digits-digits 20 n (c ∷ rest) (omega arith) fits, stop) refl

digits-is_digit :
    (fuel n : ℕ) (rest : List ℕ)
    → (d : ℕ) × (tail : List ℕ) × (digits fuel n ++ rest ≡ d ∷ tail) × (is_digit d ≡ true)
digits-is_digit zero n rest = (b'0' + n % 10, rest, refl, ground arith)
digits-is_digit (suc fuel) n rest = elim (Bool-cases (ltb n 10)) [
  | inl small ↦ rw small (b'0' + n, rest, refl, ground arith)
  | inr large ↦
      rw (large, append_assoc) (digits-is_digit fuel (n / 10) ((b'0' + n % 10) ∷ [] ++ rest))
]

-- What was written starts with a digit.
pub write_uint-is_digit :
    (n : ℕ) (rest : List ℕ)
    → (d : ℕ) × (tail : List ℕ) × (write_uint n ++ rest ≡ d ∷ tail) × (is_digit d ≡ true)
unfolding write_uint
write_uint-is_digit n rest = digits-is_digit 20 n rest

pub skip_spaces-write_uint :
    (n : ℕ) (rest : List ℕ) → skip_spaces (write_uint n ++ rest) ≡ write_uint n ++ rest
unfolding skip_spaces
skip_spaces-write_uint n rest =
    let (d, tail, e, digit) = write_uint-is_digit n rest in
    let stop : (d == b' ' || d == b'\t') ≡ false = ground arith in rw (e, stop) refl
