-- ===== src/Metrics/Tests.antt =====
-- The metrics of a path of three nodes in two blocks.
use ka_min_par.Prelude.{◌≡◌, ◌↔◌, refl, true, some, arith}
use ka_min_par.Graph.Tests.{path-IsGraph, path-IsSymmetric}
use ka_min_par.Partition.Tests.{halves, two_threads, two_threads-cover}
use ka_min_par.Metrics.{
  halve_cut, add_cut_of, edge_cut_seq, edge_cut_par, total_overload, is_balanced,
}
use ka_min_par.Metrics.EdgeCut.{cut_weight, edge_cut_seq_correct, edge_cut_par-edge_cut_seq}
use ka_min_par.Metrics.Balance.{is_balanced-total_overload}

edge_cut_seq_correct_example : edge_cut_seq halves ≡ some (cut_weight halves)
edge_cut_seq_correct_example =
    edge_cut_seq_correct halves path-IsGraph path-IsSymmetric (omega arith)

edge_cut_par-edge_cut_seq_example : edge_cut_par halves two_threads ≡ edge_cut_seq halves
edge_cut_par-edge_cut_seq_example = edge_cut_par-edge_cut_seq halves two_threads two_threads-cover

is_balanced-total_overload_example :
    (is_balanced halves (λ _. 6) ≡ true) ↔ (total_overload halves (λ _. 6) ≡ 0)
is_balanced-total_overload_example = is_balanced-total_overload halves (λ _. 6)

edge_cut_seq_runs : edge_cut_seq halves ≡ some 7
unfolding edge_cut_seq add_cut_of halve_cut
edge_cut_seq_runs = refl
