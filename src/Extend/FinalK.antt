-- ===== src/Extend/FinalK.antt =====
-- fill_final_k shares out the final number of blocks among the new blocks.
use ka_min_par.Prelude.{
  ℕ, zero, suc, ◌+◌, ◌/◌, ◌≤◌, ◌<◌, ◌≡◌, ◌≢◌, refl, ◌∙◌, ap, inl, inr, true, some, List, arith,
  ◌==◌, if◌then◌else◌, Bool-cases, length, get_or, set, length-set, get_or-set_ne, get_or-set_self,
  ltb, leb,
}
use ka_min_par.Prelude.Sums.{sum_below, sum_below_congr, sum_below_append}
use ka_min_par.Extend.{fill_final_k}

-- The entries from `b0` on add up to `final_k`, and the others are those of before.
pub record Fills (cells : List ℕ) (b0 final_k k : ℕ) (filled : List ℕ) : Type 0 where
  pub sized : length filled ≡ length cells
  pub total : sum_below k (λ i. get_or filled (b0 + i) 0) ≡ final_k
  pub before : (i : ℕ) → i < b0 → get_or filled i 0 ≡ get_or cells i 0
  pub after : (i : ℕ) → b0 + k ≤ i → get_or filled i 0 ≡ get_or cells i 0

-- One entry that is set.
one_entry :
    (cells : List ℕ) (b0 final_k : ℕ) → get_or cells b0 0 ≡ final_k → Fills cells b0 final_k 1 cells
one_entry cells b0 final_k e = record {
  sized = refl;
  total = let at_start : b0 + 0 ≡ b0 = omega arith in rw at_start (omega (arith, e));
  before = λ i p. refl;
  after = λ i p. refl;
}

-- What fill_final_k does with `fuel` rounds.
abbrev FillsWith : ℕ → Type 0
FillsWith fuel =
    (cells : List ℕ) (b0 final_k k : ℕ)
    → 1 < k
    → k ≤ final_k
    → k ≤ fuel
    → b0 + k ≤ length cells
    → (filled : List ℕ) × (fill_final_k fuel cells b0 final_k k ≡ some filled)
      × Fills cells b0 final_k k filled

-- One of the two parts: a single block has its entry already.
fill_part :
    (fuel : ℕ) (cells : List ℕ) (b0 final_k k : ℕ)
    → FillsWith fuel
    → 0 < k
    → k ≤ final_k
    → k ≤ fuel
    → b0 + k ≤ length cells
    → get_or cells b0 0 ≡ final_k
    → (filled : List ℕ) × ((if ltb 1 k then fill_final_k fuel cells b0 final_k k else some cells)
        ≡ some filled)
      × Fills cells b0 final_k k filled
fill_part fuel cells b0 final_k k rounds p q r s e = elim (Bool-cases (ltb 1 k)) [
  | inl more ↦
      let (filled, is, fills) = rounds cells b0 final_k k (ground arith) q r s in
      (filled, rw more is, fills)
  | inr one ↦
      let single : 1 ≡ k = ground arith in
      (cells, rw one refl, rw single at (one_entry cells b0 final_k e))
]

-- The two parts together.
both_parts :
    (cells left filled : List ℕ) (b0 f1 f2 k1 k2 : ℕ)
    → 0 < k1
    → 0 < k2
    → b0 + k1 < length cells
    → Fills (set (set cells b0 f1) (b0 + k1) f2) b0 f1 k1 left
    → Fills left (b0 + k1) f2 k2 filled
    → Fills cells b0 (f1 + f2) (k1 + k2) filled
both_parts cells left filled b0 f1 f2 k1 k2 p q inside l r =
    let both = set (set cells b0 f1) (b0 + k1) f2 in
    let untouched = λ (i : ℕ) (h : b0 ≢ i) (h' : b0 + k1 ≢ i).
      get_or-set_ne (set cells b0 f1) (b0 + k1) i f2 0 h' ∙ get_or-set_ne cells b0 i f1 0 h in
    record {
      sized =
          r.sized
          ∙ (l.sized ∙ (length-set (set cells b0 f1) (b0 + k1) f2 ∙ length-set cells b0 f1));
      total =
          let low =
            sum_below_congr k1 (λ i. get_or filled (b0 + i) 0) (λ i. get_or left (b0 + i) 0)
              (λ i h. r.before (b0 + i) (omega arith)) in
          let high =
            sum_below_congr k2 (λ i. get_or filled (b0 + (k1 + i)) 0)
              (λ i. get_or filled (b0 + k1 + i) 0)
              (λ i h. ap (λ (j : ℕ). get_or filled j 0) (omega arith)) in
          omega (
            arith,
            sum_below_append k1 k2 (λ i. get_or filled (b0 + i) 0),
            low,
            high,
            l.total,
            r.total,
          );
      before = λ i h.
          r.before i (omega arith) ∙ (l.before i h ∙ untouched i (omega arith) (omega arith));
      after = λ i h.
          r.after i (omega arith)
          ∙ (l.after i (omega arith) ∙ untouched i (omega arith) (omega arith));
    }

-- With enough fuel, fill_final_k for at least two blocks and a final number that is not smaller
-- meets no failed assertion, writes the entries of these blocks alone, and they add up to the final
-- number of blocks.
pub fill_final_k_correct :
    (fuel : ℕ) (cells : List ℕ) (b0 final_k k : ℕ)
    → 1 < k
    → k ≤ final_k
    → k ≤ fuel
    → b0 + k ≤ length cells
    → (filled : List ℕ) × (fill_final_k fuel cells b0 final_k k ≡ some filled)
      × Fills cells b0 final_k k filled
unfolding fill_final_k
fill_final_k_correct zero cells b0 final_k k p q r s = absurd (omega arith)
fill_final_k_correct (suc fuel) cells b0 final_k k p q r s =
    let f1 = (final_k + 1) / 2 in
    let f2 = final_k / 2 in
    let k1 = (k + 1) / 2 in
    let k2 = k / 2 in
    let both = set (set cells b0 f1) (b0 + k1) f2 in
    let sized : length both ≡ length cells =
      length-set (set cells b0 f1) (b0 + k1) f2 ∙ length-set cells b0 f1 in
    let at_start : get_or both b0 0 ≡ f1 =
      get_or-set_ne (set cells b0 f1) (b0 + k1) b0 f2 0 (omega arith)
      ∙ get_or-set_self cells b0 f1 0 (omega arith) in
    let at_second : get_or both (b0 + k1) 0 ≡ f2 =
      get_or-set_self (set cells b0 f1) (b0 + k1) f2 0 (omega (arith, length-set cells b0 f1)) in
    let (left, is_left, l) =
      fill_part fuel both b0 f1 k1 (fill_final_k_correct fuel) (omega arith) (omega arith)
        (omega arith) (omega (arith, sized)) at_start in
    let (filled, is_filled, r) =
      fill_part fuel left (b0 + k1) f2 k2 (fill_final_k_correct fuel) (omega arith) (omega arith)
        (omega arith) (omega (arith, sized, l.sized))
        (l.after (b0 + k1) (omega arith) ∙ at_second) in
    let enough : leb k final_k ≡ true = ground arith in
    let some1 : ltb 0 f1 ≡ true = ground arith in
    let some2 : ltb 0 f2 ≡ true = ground arith in
    let halves : (k1 + k2 == k) ≡ true = ground arith in
    let whole : f1 + f2 ≡ final_k = omega arith in
    let whole_k : k1 + k2 ≡ k = omega arith in
    (
      filled,
      rw (enough, some1, some2, halves, is_left) is_filled,
      rw (whole, whole_k) at
          (both_parts cells left filled b0 f1 f2 k1 k2 (omega arith) (omega arith) (omega arith) l
            r),
    )
