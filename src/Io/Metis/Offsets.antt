-- ===== src/Io/Metis/Offsets.antt =====
-- The offsets of a graph that grow by one entry.
use ka_min_par.Prelude.{
  ℕ, zero, suc, ◌+◌, ◌≤◌, ◌<◌, ◌≡◌, refl, sym, ◌∙◌, ap, inl, inr, ◌||◌, List, [], ◌∷◌, ◌++◌, arith,
  ◌==◌, Bool-cases, length, length-append, get_or, get_or-append_left, get_or-append_last,
}
use ka_min_par.Io.Metis.Nodes.{isolated_below}

-- Offsets that start at 0 and ascend.
pub record IsOffsets (nodes : List ℕ) : Type 0 where
  pub first : get_or nodes 0 0 ≡ 0
  pub ascending : (u : ℕ) → suc u < length nodes → get_or nodes u 0 ≤ get_or nodes (suc u) 0

pub IsOffsets-append :
    (nodes : List ℕ) (e f : ℕ)
    → IsOffsets (nodes ++ e ∷ [])
    → e ≤ f
    → IsOffsets ((nodes ++ e ∷ []) ++ f ∷ [])
IsOffsets-append nodes e f v h =
    let before = nodes ++ e ∷ [] in
    let size : length before ≡ suc (length nodes) = omega (arith, length-append nodes (e ∷ [])) in
    let all : length (before ++ f ∷ []) ≡ suc (suc (length nodes)) =
      omega (arith, length-append before (f ∷ [])) in
    let kept : (u : ℕ) → u ≤ length nodes → get_or (before ++ f ∷ []) u 0 ≡ get_or before u 0 =
      λ u p. get_or-append_left before (f ∷ []) u 0 (omega arith) in
    let end : get_or (before ++ f ∷ []) (suc (length nodes)) 0 ≡ f =
      ap (λ i. get_or (before ++ f ∷ []) i 0) (sym size) ∙ get_or-append_last before f 0 in
    let last : get_or before (length nodes) 0 ≡ e = get_or-append_last nodes e 0 in
    record {
      first = kept 0 (omega arith) ∙ v.first;
      ascending = λ u p. elim (Bool-cases (u == length nodes)) [
        | inl here ↦
            let same : u ≡ length nodes = ground arith in
            rw same (omega (arith, kept (length nodes) (omega arith), end, last))
        | inr other ↦
            let smaller : u < length nodes = ground arith in
            omega
              (arith, kept u (omega arith), kept (suc u) (omega arith), v.ascending u (omega arith))
      ];
    }

isolated_below-append :
    (nodes : List ℕ) (f i : ℕ)
    → i < length nodes
    → isolated_below (nodes ++ f ∷ []) i ≡ isolated_below nodes i
isolated_below-append nodes f zero h = refl
isolated_below-append nodes f (suc i) h =
    rw
      (
        isolated_below-append nodes f i (omega arith),
        get_or-append_left nodes (f ∷ []) i 0 (omega arith),
        get_or-append_left nodes (f ∷ []) (i + 1) 0 (omega arith),
      )
      refl

pub isolated_below-append_last :
    (nodes : List ℕ) (e f i : ℕ)
    → length nodes ≡ i
    → isolated_below ((nodes ++ e ∷ []) ++ f ∷ []) (suc i)
      ≡ isolated_below (nodes ++ e ∷ []) i || e == f
isolated_below-append_last nodes e f i h =
    let before = nodes ++ e ∷ [] in
    let size : length before ≡ i + 1 = omega (arith, length-append nodes (e ∷ [])) in
    let start : get_or (before ++ f ∷ []) i 0 ≡ e =
      get_or-append_left before (f ∷ []) i 0 (omega arith)
      ∙ ap (λ j. get_or before j 0) (sym h)
      ∙ get_or-append_last nodes e 0 in
    let end : get_or (before ++ f ∷ []) (i + 1) 0 ≡ f =
      ap (λ j. get_or (before ++ f ∷ []) j 0) (sym size) ∙ get_or-append_last before f 0 in
    rw (isolated_below-append before f i (omega arith), start, end) refl
