-- ===== src/Queue/Laws.antt =====
-- A queue is the list of its elements from head to tail, and the operations are those of a list
-- with two ends.
use ka_min_par.Prelude.{
  ℕ, zero, suc, ◌+◌, ◌-◌, ◌≤◌, ◌<◌, ◌≡◌, ◌≢◌, refl, ◌∙◌, ap, true, false, some, List, [], ◌∷◌, ◌++◌,
  arith, ltb, length, get_or, set, get_or-set_self, get_or-set_ne, length-set,
}
use ka_min_par.Queue.{Queue, empty, front, pop_head, push_head, push_tail, pop_tail}

module _ {T : Type 0} (initial : T) where
  -- The elements of `xs` from `i` on, `count` of them.
  abbrev pub slice : List T → ℕ → ℕ → List T
  slice xs i zero = []
  slice xs i (suc count) = get_or xs i initial ∷ slice xs (i + 1) count

  abbrev pub contents : Queue T → List T
  contents q = slice q.cells q.head (q.tail - q.head)

  pub record IsQueue (q : Queue T) : Type 0 where
    pub ordered : q.head ≤ q.tail
    pub inside : q.tail ≤ length q.cells

  slice-last :
      (xs : List T) (i count : ℕ)
      → slice xs i (suc count) ≡ slice xs i count ++ get_or xs (i + count) initial ∷ []
  slice-last xs i zero = ap (λ (j : ℕ). get_or xs j initial ∷ []) (omega arith)
  slice-last xs i (suc count) = ap (◌∷◌ (get_or xs i initial)) (
      slice-last xs (i + 1) count
      ∙ ap (λ (j : ℕ). slice xs (i + 1) count ++ get_or xs j initial ∷ []) (omega arith))

  -- A write outside of the slice.
  slice-set :
      (xs : List T) (i count j : ℕ) (x : T)
      → ((c : ℕ) → c < count → j ≢ i + c)
      → slice (set xs j x) i count ≡ slice xs i count
  slice-set xs i zero j x h = refl
  slice-set xs i (suc count) j x h =
      rw
        (
          get_or-set_ne xs j i x initial (λ e. h 0 (omega arith) (omega (arith, e))),
          slice-set xs (i + 1) count j x (λ c p e. h (suc c) (omega arith) (omega (arith, e))),
        )
        refl

  -- push_tail succeeds while the tail is below the capacity, and adds the element at the end.
  pub push_tail_correct :
      (q : Queue T) (x : T)
      → IsQueue q
      → q.tail < length q.cells
      → (r : Queue T) × (push_tail initial q x ≡ some r)
        × IsQueue r
        × (contents r ≡ contents q ++ x ∷ [])
  unfolding push_tail
  push_tail_correct q x v h =
      let room : ltb q.tail (length q.cells) ≡ true = ground arith in
      let more : q.tail + 1 - q.head ≡ suc (q.tail - q.head) = omega (arith, v.ordered) in
      let end : q.head + (q.tail - q.head) ≡ q.tail = omega (arith, v.ordered) in
      (
        record q { cells = set q.cells q.tail x; tail = q.tail + 1 },
        rw room refl,
        record {
          ordered = omega (arith, v.ordered);
          inside = omega (arith, length-set q.cells q.tail x);
        },
        rw more (
            slice-last (set q.cells q.tail x) q.head (q.tail - q.head)
            ∙ rw
                (
                  end,
                  get_or-set_self q.cells q.tail x initial h,
                  slice-set q.cells q.head (q.tail - q.head) q.tail x
                      (λ c p e. absurd (omega (arith, e))),
                )
                refl),
      )

  -- push_head succeeds while the head is above 0, and adds the element in front.
  pub push_head_correct :
      (q : Queue T) (x : T)
      → IsQueue q
      → 0 < q.head
      → (r : Queue T) × (push_head initial q x ≡ some r) × IsQueue r × (contents r ≡ x ∷ contents q)
  unfolding push_head
  push_head_correct q x v h =
      let room : ltb 0 q.head ≡ true = ground arith in
      let more : q.tail - (q.head - 1) ≡ suc (q.tail - q.head) = omega (arith, v.ordered) in
      let next : q.head - 1 + 1 ≡ q.head = omega arith in
      (
        record q { cells = set q.cells (q.head - 1) x; head = q.head - 1 },
        rw room refl,
        record {
          ordered = omega (arith, v.ordered);
          inside = omega (arith, length-set q.cells (q.head - 1) x, v.inside);
        },
        rw
            (
              more,
              next,
              get_or-set_self q.cells (q.head - 1) x initial (omega (arith, v.ordered, v.inside)),
              slice-set q.cells q.head (q.tail - q.head) (q.head - 1) x
                  (λ c p e. absurd (omega (arith, e))),
            )
            refl,
      )

  -- Of a queue that is not empty, pop_head removes the first element, which head() returns.
  pub pop_head_correct :
      (q : Queue T)
      → IsQueue q
      → empty initial q ≡ false
      → (r : Queue T) × (x : T) × (pop_head initial q ≡ some r)
        × IsQueue r
        × (front initial q ≡ some x)
        × (contents q ≡ x ∷ contents r)
  unfolding pop_head front
  pop_head_correct q v h =
      let some_left : q.head < q.tail = ground (arith, v.ordered) in
      let room : ltb q.head q.tail ≡ true = ground arith in
      let more : q.tail - q.head ≡ suc (q.tail - (q.head + 1)) = omega arith in
      (
        record q { head = q.head + 1 },
        get_or q.cells q.head initial,
        rw room refl,
        record { ordered = omega arith; inside = v.inside },
        rw h refl,
        rw more refl,
      )

  -- Of a queue that is not empty, pop_tail removes the last element.
  pub pop_tail_correct :
      (q : Queue T)
      → IsQueue q
      → empty initial q ≡ false
      → (r : Queue T) × (x : T) × (pop_tail initial q ≡ some r)
        × IsQueue r
        × (contents q ≡ contents r ++ x ∷ [])
  unfolding pop_tail
  pop_tail_correct q v h =
      let some_left : q.head < q.tail = ground (arith, v.ordered) in
      let room : ltb q.head q.tail ≡ true = ground arith in
      let more : q.tail - q.head ≡ suc (q.tail - 1 - q.head) = omega arith in
      (
        record q { tail = q.tail - 1 },
        get_or q.cells (q.head + (q.tail - 1 - q.head)) initial,
        rw room refl,
        record { ordered = omega arith; inside = omega (arith, v.inside) },
        rw more (slice-last q.cells q.head (q.tail - 1 - q.head)),
      )
