-- ===== src/Coarsener/Pick.antt =====
-- The cluster that is picked for a node has room for it, and the ratings are clean again.
use ka_min_par.Chunks.{IsDistinct}
use ka_min_par.Prelude.{
  zero, suc, get_or-set, lt→ltb, ltb, false, ◌^◌, ℕ, ◌+◌, ◌≤◌, ◌<◌, ◌≡◌, ◌⊎◌, refl, ◌∙◌, ap, inl,
  inr, Bool, true, some, List, [], ◌∷◌, arith, ◌==◌, ==_refl, if◌then◌else◌, Bool-cases, length,
  get_or, set,
}
use ka_min_par.Prelude.Loops.{for_each}
use ka_min_par.FastResetArray.{FastResetArray}
use ka_min_par.FastResetArray.Laws.{is_listed, get_or-reset, length-reset}
use ka_min_par.Graph.{edge_weight, Graph, first_edge, edge_target}
use ka_min_par.Graph.Validate.{degree_at}
use ka_min_par.Coarsener.{
  has_room, Coarsener, is_zero, leader_of, weight_at, rating, is_better, pick_best, pick_cluster,
  pick_cluster_from_rating_map,
}
use ka_min_par.Coarsener.Rating.{is_zero_eq, IsClean, IsClean-IsRated, rate_neighbors-IsRated}

module _ (g : Graph) (coin : ℕ → ℕ → Bool) (s : Coarsener) (u u_weight limit : ℕ) where
  -- A cell that is not 0 is in range.
  positive_in_range : (xs : List ℕ) (i : ℕ) → 0 < get_or xs i 0 → i < length xs
  positive_in_range [] i h = absurd (omega arith)
  positive_in_range (x ∷ xs) zero h = omega arith
  positive_in_range (x ∷ xs) (suc i) h = omega (arith, positive_in_range xs i h)

  -- The cluster picked: the first one, or a used one with room for the node.
  abbrev Picked : (ℕ → Type 0) → ℕ → Type 0
  Picked P best = (best ≡ u) ⊎ (P best × (weight_at s best + u_weight ≤ limit))

  -- The loop over distinct used entries that are rated ends without a fault, with their cells reset.
  pick_best_correct :
      (P : ℕ → Type 0) (used : List ℕ) (best best_gain : ℕ) (cells : List ℕ)
      → ((x : ℕ) → P x → weight_at s x < 2 ^ 29)
      → IsDistinct used
      → ((x : ℕ) → is_listed used x ≡ true → P x × (0 < get_or cells x 0))
      → Picked P best
      → (last : ℕ) × (pick_best g coin s u u_weight limit used best best_gain cells
          ≡ some (last, for_each used (λ pos c. set c pos 0) cells))
        × Picked P last
  pick_best_correct P [] best best_gain cells small d h b = (best, refl, b)
  pick_best_correct P (c ∷ used) best best_gain cells small d h b =
      let gain = get_or cells c 0 in
      let (holds, rated) = h c (ground (arith, ==_refl c)) in
      let inside = positive_in_range cells c rated in
      let no_fault : (gain == 0) ≡ false = ground (arith, rated) in
      let better = is_better g coin s u u_weight limit best_gain c gain in
      let fits : ltb (weight_at s c) (2 ^ 29) ≡ true = lt→ltb _ _ (small c holds) in
      let chosen : Picked P (if better then c else best) = elim (Bool-cases better) [
        | inl taken ↦
            let test : has_room (weight_at s c) u_weight limit ≡ true = ground (arith, taken) in
            let room : weight_at s c + u_weight ≤ limit = ground (arith, rw fits at test) in
            rw taken (inr (holds, room))
        | inr worse ↦ rw worse b
      ] in
      let (last, made, which) =
        pick_best_correct P used (if better then c else best) (if better then gain else best_gain)
          (set cells c 0) small d.1
          (λ x l.
            let apart : (c == x) ≡ false = elim (Bool-cases (c == x)) [
              | inr other ↦ other
              | inl same ↦
                  let e : c ≡ x = ground arith in
                  absurd (ground (arith, ap (is_listed used) e, d.0, l))
            ] in
            let (holds', rated') = h x (ground (arith, l)) in
            let kept = rw apart at (get_or-set cells c x 0 0 inside) in
            (holds', omega (arith, kept, rated')))
          chosen in
      (last, rw no_fault made, which)

  -- pick_cluster succeeds if the ratings are clean and the neighbors' leaders are in range.
  pub pick_cluster_correct :
      (size : ℕ) (P : ℕ → Type 0)
      → IsClean size s.rating_map
      → ((i : ℕ)
          → i < degree_at g u
          → (leader_of s (edge_target g (first_edge g u + i)) < size)
            × (P (leader_of s (edge_target g (first_edge g u + i)))
                × (0 < edge_weight g (first_edge g u + i))))
      → ((x : ℕ) → P x → weight_at s x < 2 ^ 29)
      → (best : ℕ) × (r : FastResetArray ℕ) × (pick_cluster g coin s u u_weight limit
          ≡ some (best, r))
        × IsClean size r
        × ((best ≡ u) ⊎ (P best × (weight_at s best + u_weight ≤ limit)))
  unfolding pick_cluster pick_cluster_from_rating_map
  pick_cluster_correct size P clean near small =
      let empty : (length s.rating_map.used_entries == 0) ≡ true = rw clean.unused refl in
      let (t, made, v) =
        rate_neighbors-IsRated g coin s size P (first_edge g u) (degree_at g u) s.rating_map
          (IsClean-IsRated size P s.rating_map clean) near in
      let (best, picked, which) =
        pick_best_correct P t.used_entries u 0 t.cells small v.distinct
          (λ x l. (v.listed x l, v.positive x l)) (inl refl) in
      (
        best,
        record {
          cells = for_each t.used_entries (λ pos c. set c pos 0) t.cells;
          used_entries = [];
        },
        rw (empty, made, picked) refl,
        record {
          sized = length-reset 0 is_zero is_zero_eq t.used_entries t.cells ∙ v.sized;
          unused = refl;
          zeros = λ x.
              (get_or-reset 0 is_zero is_zero_eq t.used_entries t.cells x
                ∙ elim (Bool-cases (is_listed t.used_entries x)) [
                  | inl l ↦ rw l refl
                  | inr unlisted ↦ elim (Bool-cases (is_zero (rating t x))) [
                    | inl z ↦ rw unlisted (is_zero_eq (rating t x) z)
                    | inr nz ↦ absurd (ground (arith, v.tracked x nz, unlisted))
                  ]
                ]);
        },
        which,
      )
