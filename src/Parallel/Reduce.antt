-- ===== src/Parallel/Reduce.antt =====
-- However the range is cut, the parallel reductions are the sequential ones of the standard library.
use ka_min_par.Prelude.{
  ℕ, zero, suc, ◌+◌, ◌≡◌, refl, sym, ◌∙◌, ap, List, [], ◌∷◌, arith, length, get_or, max,
}
use ka_min_par.Graph.{accumulate, max_element}
use ka_min_par.Parallel.{
  Reduction, covered, run_body, parallel_reduce, parallel_accumulate, parallel_max_element,
}

module _ (op : ℕ → ℕ → ℕ) (unit : ℕ) (assoc : (a b c : ℕ) → op (op a b) c ≡ op a (op b c))
    (unit_right : (a : ℕ) → op a unit ≡ a) (unit_left : (a : ℕ) → op unit a ≡ a) where
  run_body-append :
      (r : List ℕ) (i a b ans : ℕ)
      → run_body op unit r i (a + b) ans ≡ run_body op unit r (i + a) b (run_body op unit r i a ans)
  run_body-append r i zero b ans =
      let e : i + 0 ≡ i = omega arith in let e' : 0 + b ≡ b = omega arith in rw (e, e') refl
  run_body-append r i (suc a) b ans =
      let e : i + suc a ≡ i + 1 + a = omega arith in
      let e' : suc a + b ≡ suc (a + b) = omega arith in
      rw (e, e') (run_body-append r (i + 1) a b (op ans (get_or r i 0)))

  run_body_from :
      (r : List ℕ) (i count ans : ℕ)
      → run_body op unit r i count ans ≡ op ans (run_body op unit r i count unit)
  run_body_from r i zero ans = sym (unit_right ans)
  run_body_from r i (suc count) ans =
      run_body_from r (i + 1) count (op ans (get_or r i 0))
      ∙ (assoc ans (get_or r i 0) (run_body op unit r (i + 1) count unit)
          ∙ ap (op ans) (
              sym (run_body_from r (i + 1) count (get_or r i 0))
              ∙ ap (run_body op unit r (i + 1) count) (sym (unit_left (get_or r i 0)))))

  parallel_reduce-run_body :
      (r : List ℕ) (parts : Reduction) (i ans : ℕ)
      → parallel_reduce op unit r parts i ans ≡ run_body op unit r i (covered parts) ans
  parallel_reduce-run_body r (Reduction.whole count) i ans = refl
  parallel_reduce-run_body r (Reduction.in_order left right) i ans =
      parallel_reduce-run_body r right (i + covered left) (parallel_reduce op unit r left i ans)
      ∙ (ap (run_body op unit r (i + covered left) (covered right))
            (parallel_reduce-run_body r left i ans)
          ∙ sym (run_body-append r i (covered left) (covered right) ans))
  parallel_reduce-run_body r (Reduction.joined left right) i ans =
      ap (λ (x : ℕ). op x (parallel_reduce op unit r right (i + covered left) unit))
        (parallel_reduce-run_body r left i ans)
      ∙ (ap (op (run_body op unit r i (covered left) ans))
            (parallel_reduce-run_body r right (i + covered left) unit)
          ∙ (sym (
                run_body_from r (i + covered left) (covered right)
                  (run_body op unit r i (covered left) ans))
              ∙ sym (run_body-append r i (covered left) (covered right) ans)))

-- A body that is given the rest of a vector.
run_body-shift :
    (op : ℕ → ℕ → ℕ) (unit x : ℕ) (r : List ℕ) (i count ans : ℕ)
    → run_body op unit (x ∷ r) (suc i) count ans ≡ run_body op unit r i count ans
run_body-shift op unit x r i zero ans = refl
run_body-shift op unit x r i (suc count) ans =
    let e : suc i + 1 ≡ suc (i + 1) = omega arith in
    rw e (run_body-shift op unit x r (i + 1) count (op ans (get_or r i 0)))

run_body-accumulate :
    (r : List ℕ) (ans : ℕ) → run_body (λ a b. a + b) 0 r 0 (length r) ans ≡ ans + accumulate r
run_body-accumulate [] ans = omega arith
run_body-accumulate (x ∷ r) ans =
    run_body-shift (λ a b. a + b) 0 x r 0 (length r) (ans + x)
    ∙ omega (arith, run_body-accumulate r (ans + x))

run_body-max_element :
    (r : List ℕ) (ans : ℕ) → run_body max 0 r 0 (length r) ans ≡ max ans (max_element r)
run_body-max_element [] ans = omega arith
run_body-max_element (x ∷ r) ans =
    run_body-shift max 0 x r 0 (length r) (max ans x)
    ∙ omega (arith, run_body-max_element r (max ans x))

-- If the parts cover the vector, the parallel accumulate and max_element are the sequential ones,
-- however the range is cut.
pub parallel_accumulate-accumulate :
    (r : List ℕ) (parts : Reduction)
    → covered parts ≡ length r
    → (parallel_accumulate r parts ≡ accumulate r) × (parallel_max_element r parts ≡ max_element r)
unfolding parallel_accumulate parallel_max_element
parallel_accumulate-accumulate r parts h = (
  parallel_reduce-run_body (λ a b. a + b) 0 (λ a b c. omega arith) (λ a. omega arith)
        (λ a. omega arith) r parts 0 0
      ∙ (ap (λ (c : ℕ). run_body (λ a b. a + b) 0 r 0 c 0) h
          ∙ (run_body-accumulate r 0 ∙ omega arith)),
  parallel_reduce-run_body max 0 (λ a b c. omega arith) (λ a. omega arith) (λ a. omega arith) r
        parts 0 0
      ∙ (ap (λ (c : ℕ). run_body max 0 r 0 c 0) h ∙ (run_body-max_element r 0 ∙ omega arith)),
)
