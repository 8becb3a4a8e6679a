-- ===== src/Heap.antt =====
-- The 4-ary heaps of kaminpar/datastructure/binary_heap.h: what their classes share. The element of
-- a heap, the comparators, and the two loops `sift_up` and `sift_down` of DynamicBinaryHeap, over
-- the first `n` entries of a vector. A class template over `Comparator<Key>` is a section over an
-- instance of `Comparator`.
pub mod Order
pub mod Up
pub mod Down
use ka_min_par.Prelude.{
  ◌^◌, ==_iff, ℕ, zero, suc, ◌+◌, ◌-◌, ◌*◌, ◌/◌, min, ◌<◌, ◌≡◌, Bool, true, false, ◌||◌, List,
  arith, ltb, ◌==◌, if◌then◌else◌, get_or, set,
}

-- `_comparator(a, b)`: the element with key `a` lies below the one with key `b`; `==` on keys;
-- `kMinValue`, the key that takes an element to the root; and the value that a read out of range
-- would give (the key of a default HeapElement), which no theorem depends on. The laws say that
-- the comparator is a strict total order whose equality is `==`.
pub record Comparator {ℓ} (K : Type ℓ) : Type ℓ where
  pub below : K → K → Bool
  pub same : K → K → Bool
  pub min_value : K
  pub out_of_range : K
  pub asymmetric : (a b : K) → below a b ≡ true → below b a ≡ false
  pub negatively_transitive :
      (a b c : K) → below a b ≡ false → below b c ≡ false → below a c ≡ false
  pub connected : (a b : K) → below a b ≡ false → same a b ≡ false → below b a ≡ true
  pub same_eq : (a b : K) → same a b ≡ true → a ≡ b

-- max_heap_comparator: `b > a`.
abbrev pub max_heap_comparator : ℕ → ℕ → Bool
max_heap_comparator a b = ltb a b

-- min_heap_comparator: `a > b`.
abbrev pub min_heap_comparator : ℕ → ℕ → Bool
min_heap_comparator a b = ltb b a

pub max_negatively_transitive :
    (a b c : ℕ)
    → max_heap_comparator a b ≡ false
    → max_heap_comparator b c ≡ false
    → max_heap_comparator a c ≡ false
max_negatively_transitive a b c p q = ground arith

pub max_connected : (a b : ℕ) → ltb a b ≡ false → (a == b) ≡ false → ltb b a ≡ true
max_connected a b p q = ground arith

pub ltb_asymmetric : (a b : ℕ) → ltb a b ≡ true → ltb b a ≡ false
ltb_asymmetric a b p = ground arith

pub min_connected : (a b : ℕ) → ltb b a ≡ false → (a == b) ≡ false → ltb a b ≡ true
min_connected a b p q = ground arith

-- Over an unsigned key type whose largest value is `limit`.
abbrev pub max_comparator : ℕ → Comparator ℕ
max_comparator limit = record {
  min_value = limit;
  below = max_heap_comparator;
  same = ◌==◌;
  out_of_range = 0;
  asymmetric = ltb_asymmetric;
  negatively_transitive = max_negatively_transitive;
  connected = max_connected;
  same_eq = λ a b h. (==_iff a b).0 h;
}

abbrev pub min_comparator : Comparator ℕ
min_comparator = record {
  min_value = 0;
  below = min_heap_comparator;
  same = ◌==◌;
  out_of_range = 0;
  asymmetric = λ a b p. ltb_asymmetric b a p;
  negatively_transitive = λ a b c p q. max_negatively_transitive c b a q p;
  connected = min_connected;
  same_eq = λ a b h. (==_iff a b).0 h;
}

pub record HeapElement {ℓ} (K : Type ℓ) : Type ℓ where
  pub id : ℕ
  pub key : K

-- kTreeArity
abbrev pub tree_arity : ℕ
tree_arity = 4

abbrev pub parent : ℕ → ℕ
parent c = (c - 1) / tree_arity

abbrev pub first_child : ℕ → ℕ
first_child pos = tree_arity * pos + 1

-- one past the last child of `pos` among the first `n` entries
abbrev pub child_end : ℕ → ℕ → ℕ
child_end n pos = min (tree_arity * pos + tree_arity + 1) n

module _ {ℓ} {K : Type ℓ} ⦃cmp : Comparator K⦄ where
  abbrev pub no_element : HeapElement K
  no_element = record { id = 2 ^ 64 - 1; key = cmp.out_of_range }

  abbrev pub at : List (HeapElement K) → ℕ → HeapElement K
  at a i = get_or a i no_element

  abbrev pub key_at : List (HeapElement K) → ℕ → K
  key_at a i = (get_or a i no_element).key

  -- std::swap(_heap[i], _heap[j])
  unfoldable pub swap : List (HeapElement K) → ℕ → ℕ → List (HeapElement K)
  swap a i j = set (set a i (at a j)) j (at a i)

  -- The round of the loop in sift_up at `pos`; the loop goes on at the parent in any case.
  unfoldable pub rise : List (HeapElement K) → ℕ → List (HeapElement K)
  rise a pos =
      if cmp.below (key_at a (parent pos)) (key_at a pos) then swap a pos (parent pos) else a

  unfoldable pub sift_up_loop : ℕ → List (HeapElement K) → ℕ → List (HeapElement K)
  sift_up_loop zero a pos = a
  sift_up_loop (suc fuel) a pos =
      let rest = sift_up_loop fuel (rise a pos) (parent pos) in if pos == 0 then a else rest

  -- The parent of a position is below it, so `pos` rounds are enough.
  unfoldable pub sift_up : List (HeapElement K) → ℕ → List (HeapElement K)
  unfolding sift_up_loop rise swap
  sift_up a pos = sift_up_loop pos a pos

  -- The loop over the other children, `rounds` of which are left, from `c` on.
  unfoldable pub scan_children : ℕ → ℕ → List (HeapElement K) → ℕ → ℕ
  scan_children zero c a smallest = smallest
  scan_children (suc rounds) c a smallest =
      scan_children rounds (c + 1) a
        (if cmp.below (key_at a smallest) (key_at a c) then c else smallest)

  unfoldable pub smallest_child : ℕ → List (HeapElement K) → ℕ → ℕ
  unfolding scan_children
  smallest_child n a pos =
      scan_children (child_end n pos - (first_child pos + 1)) (first_child pos + 1) a
        (first_child pos)

  unfoldable pub sift_down_loop : ℕ → ℕ → List (HeapElement K) → ℕ → List (HeapElement K)
  sift_down_loop zero n a pos = a
  sift_down_loop (suc fuel) n a pos =
      let child = smallest_child n a pos in
      let rest = sift_down_loop fuel n (swap a pos child) child in
      if ltb (first_child pos) n
      then (if cmp.below (key_at a child) (key_at a pos) || cmp.same (key_at a child) (key_at a pos)
          then a
          else rest)
      else a

  -- A child lies past its parent, so `n` rounds are enough.
  unfoldable pub sift_down : ℕ → List (HeapElement K) → ℕ → List (HeapElement K)
  unfolding sift_down_loop smallest_child swap
  sift_down n a pos = sift_down_loop n n a pos
