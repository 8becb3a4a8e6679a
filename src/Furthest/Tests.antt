-- ===== src/Furthest/Tests.antt =====
-- The search on a path of three nodes, from its first node.
use ka_min_par.Prelude.{
  ℕ, ◌<◌, ◌≡◌, ◌⊎◌, refl, false, some, [], ◌∷◌, arith, replicate, get_or-replicate,
}
use ka_min_par.Graph.{n}
use ka_min_par.Graph.Tests.{path, path-IsGraph}
use ka_min_par.Marker.{Marker, get}
use ka_min_par.Queue.{Queue}
use ka_min_par.Furthest.{infinity, find_furthest_away_node}
use ka_min_par.Furthest.Levels.{Reachable}
use ka_min_par.Furthest.Reach.{IsNew, find_furthest_away_node_correct}

abbrev no_nodes : Queue ℕ
no_nodes = record { cells = replicate 3 0; head = 0; tail = 0 }

abbrev no_marks : Marker
no_marks = record { cells = replicate 3 0; marker_id = 0; first_unmarked = 0 ∷ [] }

no_marks-get : (x : ℕ) → get 1 no_marks x 0 ≡ false
unfolding get
no_marks-get x = rw (get_or-replicate {A = ℕ} 3 x 0) refl

no_marks-IsNew : IsNew 3 no_marks
no_marks-IsNew = record {
  reached = record {
    valid = record {
      multiple = refl;
      fits = omega arith;
      earlier = λ x. rw (get_or-replicate {A = ℕ} 3 x 0) (omega arith);
    };
    cells = omega arith;
    sized = refl;
    first = record { below = λ x p. absurd (omega arith); unmarked = λ p. no_marks-get 0 };
  };
  none_marked = no_marks-get;
}

find_furthest_away_node_correct_example :
    (node distance : ℕ) × (q : Queue ℕ) × (marks : Marker) × (find_furthest_away_node path 0
        no_nodes no_marks
      ≡ some (node, distance, q, marks))
    × (node < n path)
    × (((distance ≡ infinity) × (¬ (Reachable path 0 node)))
        ⊎ (Reachable path 0 node × Reachable path 0 2))
find_furthest_away_node_correct_example =
    find_furthest_away_node_correct path path-IsGraph 0 no_nodes no_marks 2 (omega arith)
      (record { head = refl; tail = refl; room = omega arith }) no_marks-IsNew (omega arith)
