-- ===== src/Heap/Order.antt =====
-- The heap order of the first `n` entries of a vector, and what a swap does to a vector.
use mathlib.Core.List.{Perm}
use mathlib.Core.List.Perm
use ka_min_par.Prelude.{
  sym, true, ℕ, zero, suc, ◌<◌, ◌≡◌, ◌∙◌, inl, inr, false, List, [], ◌∷◌, arith, ◌==◌,
  if◌then◌else◌, length, get_or, set, length-set, get_or-set, Bool-cases,
}
use mathlib.Core.Bool.{false≢true}
use ka_min_par.Heap.{Comparator, HeapElement, parent, at, key_at, no_element, swap}

-- Writing at `i` trades the entry there for the new one.
pub set-perm {ℓ} :
    {A : Type ℓ} (a : List A) (i : ℕ) (v d : A)
    → i < length a
    → Perm (get_or a i d ∷ set a i v) (v ∷ a)
set-perm [] i v d h = absurd (omega arith)
set-perm (x ∷ a) zero v d h = Perm.swap v x a
set-perm (x ∷ a) (suc i) v d h =
    Perm.trans (Perm.swap x (get_or a i d) (set a i v))
      (Perm.trans (Perm.cons x (set-perm a i v d (omega arith))) (Perm.swap v x a))

module _ {ℓ} {K : Type ℓ} ⦃cmp : Comparator K⦄ where
  -- No element lies above its parent.
  abbrev pub IsHeap : ℕ → List (HeapElement K) → Type 0
  IsHeap n a = (c : ℕ) → 0 < c → c < n → cmp.below (key_at a (parent c)) (key_at a c) ≡ false

  pub length-swap : (a : List (HeapElement K)) (i j : ℕ) → length (swap a i j) ≡ length a
  unfolding swap
  length-swap a i j = length-set (set a i (at a j)) j (at a i) ∙ length-set a i (at a j)

  pub below_irrefl : (a : K) → cmp.below a a ≡ false
  below_irrefl a = elim (Bool-cases (cmp.below a a)) [
    | inl yes' ↦ cmp.asymmetric a a yes'
    | inr no' ↦ no'
  ]

  pub same_not_below : (a b : K) → cmp.same a b ≡ true → cmp.below b a ≡ false
  same_not_below a b h = rw (cmp.same_eq a b h) (below_irrefl b)

  pub eq_of_not_below : (a b : K) → cmp.below a b ≡ false → cmp.below b a ≡ false → a ≡ b
  eq_of_not_below a b p q = elim (Bool-cases (cmp.same a b)) [
    | inl equal ↦ cmp.same_eq a b equal
    | inr other ↦ absurd (false≢true (sym q ∙ cmp.connected a b p other))
  ]

  module _ (a : List (HeapElement K)) (i j : ℕ) (hi : i < length a) (hj : j < length a) where
    pub at-swap :
        (c : ℕ) → at (swap a i j) c ≡ (if j == c then at a i else if i == c then at a j else at a c)
    unfolding swap
    at-swap c = ground (
      arith,
      length-set a i (at a j),
      get_or-set (set a i (at a j)) j c (at a i) no_element,
      get_or-set a i c (at a j) no_element hi,
    )

    pub key_at-swap :
        (c : ℕ)
        → key_at (swap a i j) c
          ≡ (if j == c then key_at a i else if i == c then key_at a j else key_at a c)
    key_at-swap c = ground (arith, at-swap c)

    pub swap-perm : Perm (swap a i j) a
    unfolding swap
    swap-perm =
        let b = set a i (at a j) in
        let same : at b j ≡ at a j = ground (arith, get_or-set a i j (at a j) no_element hi) in
        let traded : Perm (at b j ∷ swap a i j) (at a i ∷ b) =
          set-perm b j (at a i) no_element (omega (arith, length-set a i (at a j))) in
        Perm.cons_inv (Perm.trans (rw same at traded) (set-perm a i (at a j) no_element hi))

  root_top_below :
      (k n : ℕ) (a : List (HeapElement K)) (i : ℕ)
      → i < k
      → i < n
      → IsHeap n a
      → cmp.below (key_at a 0) (key_at a i) ≡ false
  root_top_below zero n a i h p v = absurd (omega arith)
  root_top_below (suc k) n a i h p v = elim (Bool-cases (i == 0)) [
    | inl root ↦ let e : i ≡ 0 = ground arith in rw e (below_irrefl (key_at a 0))
    | inr inner ↦
        cmp.negatively_transitive (key_at a 0) (key_at a (parent i)) (key_at a i)
          (root_top_below k n a (parent i) (ground arith) (ground arith) v) (v i (ground arith) p)
  ]

  -- No element of a heap lies above its root.
  pub root_top :
      (n : ℕ) (a : List (HeapElement K)) (i : ℕ)
      → i < n
      → IsHeap n a
      → cmp.below (key_at a 0) (key_at a i) ≡ false
  root_top n a i p v = root_top_below (suc i) n a i (omega arith) p v
