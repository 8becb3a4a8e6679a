-- ===== src/Isolated/Info.antt =====
-- However the nodes are spread over threads, the isolated nodes are counted.
use mathlib.Core.List.{Perm}
use ka_min_par.Prelude.{
  ℕ, ◌+◌, ◌-◌, ◌≡◌, refl, ◌∙◌, ap, inl, inr, true, ◌||◌, some, List, [], ◌∷◌, arith, ◌==◌,
  if◌then◌else◌, Bool-cases, length, get_or,
}
use ka_min_par.Prelude.Sums.{sum_below}
use ka_min_par.Prelude.Loops.{sum_list, sum_list-append, sum_list-perm, sum_list-range, range}
use ka_min_par.Graph.{is_empty}
use ka_min_par.Partition.BlockWeights.{visited}
use ka_min_par.Isolated.{isolated_of, combine_infos, find_isolated_nodes_info}

module _ (nodes node_weights : List ℕ) where
  -- A node without edges, as 1, and its weight.
  abbrev pub is_isolated : ℕ → ℕ
  is_isolated u = if get_or nodes u 0 == get_or nodes (u + 1) 0 then 1 else 0

  abbrev pub isolated_weight : ℕ → ℕ
  isolated_weight u =
      if get_or nodes u 0 == get_or nodes (u + 1) 0
      then (if is_empty node_weights then 1 else get_or node_weights u 0)
      else 0

  isolated_of-sums :
      (visits : List ℕ) (info : ℕ × ℕ)
      → ((isolated_of nodes node_weights visits info).0 ≡ info.0 + sum_list visits is_isolated)
        × ((isolated_of nodes node_weights visits info).1
            ≡ info.1 + sum_list visits isolated_weight)
  isolated_of-sums [] info = (omega arith, omega arith)
  isolated_of-sums (u ∷ visits) info =
      let w = if is_empty node_weights then 1 else get_or node_weights u 0 in
      let added : ℕ × ℕ = (info.0 + 1, info.1 + w) in
      let next_info = if get_or nodes u 0 == get_or nodes (u + 1) 0 then added else info in
      let rest = isolated_of-sums visits next_info in
      let counted : next_info.0 ≡ info.0 + is_isolated u =
        elim (Bool-cases (get_or nodes u 0 == get_or nodes (u + 1) 0)) [
          | inl alone ↦ rw alone refl
          | inr connected ↦ rw connected (omega arith)
        ] in
      let weighed : next_info.1 ≡ info.1 + isolated_weight u =
        elim (Bool-cases (get_or nodes u 0 == get_or nodes (u + 1) 0)) [
          | inl alone ↦ rw alone refl
          | inr connected ↦ rw connected (omega arith)
        ] in
      (
        rest.0 ∙ ap (λ c. c + sum_list visits is_isolated) counted ∙ omega arith,
        rest.1 ∙ ap (λ c. c + sum_list visits isolated_weight) weighed ∙ omega arith,
      )

  combine_infos-sums :
      (threads : List (List ℕ))
      → ((combine_infos nodes node_weights threads).0 ≡ sum_list (visited threads) is_isolated)
        × ((combine_infos nodes node_weights threads).1
            ≡ sum_list (visited threads) isolated_weight)
  combine_infos-sums [] = (refl, refl)
  combine_infos-sums (visits ∷ threads) =
      let mine = isolated_of-sums visits (0, 0) in
      let others = combine_infos-sums threads in
      (
        omega (arith, mine.0, others.0, sum_list-append visits (visited threads) is_isolated),
        omega (arith, mine.1, others.1, sum_list-append visits (visited threads) isolated_weight),
      )

  -- If the threads visit together each node once, the number and the weight of the nodes without
  -- edges are found.
  pub find_isolated_nodes_info_correct :
      (threads : List (List ℕ))
      → (is_empty node_weights || (length node_weights + 1 == length nodes)) ≡ true
      → Perm (visited threads) (range (length nodes - 1))
      → find_isolated_nodes_info nodes node_weights threads
        ≡ some
            (sum_below (length nodes - 1) is_isolated, sum_below (length nodes - 1) isolated_weight)
  unfolding find_isolated_nodes_info
  find_isolated_nodes_info_correct threads sized same =
      let (a, b) = combine_infos-sums threads in
      let count =
        a ∙ sum_list-perm is_isolated same ∙ sum_list-range (length nodes - 1) is_isolated in
      let weight =
        b
        ∙ sum_list-perm isolated_weight same
        ∙ sum_list-range (length nodes - 1) isolated_weight in
      rw sized (
        ap (λ c. some (c, (combine_infos nodes node_weights threads).1)) count
        ∙ ap (λ w. some (sum_below (length nodes - 1) is_isolated, w)) weight)
