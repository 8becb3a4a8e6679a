-- ===== src/Bipartition/Bfs/Tests.antt =====
-- The breadth-first bipartitioner on a path of three nodes, from its ends.
use ka_min_par.Prelude.{
  ℕ, zero, suc, ◌<◌, ◌≡◌, refl, false, some, [], ◌∷◌, arith, replicate, get_or-replicate,
}
use ka_min_par.Graph.Tests.{path, path-IsGraph}
use ka_min_par.Marker.{Marker, get}
use ka_min_par.Queue.{Queue}
use ka_min_par.Bipartition.{block_of}
use ka_min_par.Bipartition.Weights.{IsBipartition}
use ka_min_par.Bipartition.Bfs.{alternating, Growth, marks, bfs_bipartition}
use ka_min_par.Bipartition.Bfs.Start.{IsUnmarked, IsCleared, bfs_bipartition_correct}

abbrev cleared : Queue ℕ
cleared = record { cells = replicate 3 0; head = 0; tail = 0 }

cleared-IsCleared : IsCleared 3 cleared
cleared-IsCleared = record { head = refl; tail = refl; room = omega arith }

abbrev unmarked : Marker
unmarked = record { cells = replicate 3 0; marker_id = 0; first_unmarked = 0 ∷ 0 ∷ 0 ∷ [] }

unmarked-get : (x j : ℕ) → j < marks → get marks unmarked x j ≡ false
unfolding get
unmarked-get x zero h = rw (get_or-replicate {A = ℕ} 3 x 0) refl
unmarked-get x (suc zero) h = rw (get_or-replicate {A = ℕ} 3 x 0) refl
unmarked-get x (suc (suc zero)) h = rw (get_or-replicate {A = ℕ} 3 x 0) refl
unmarked-get x (suc (suc (suc j))) h = absurd (omega arith)

unmarked-IsUnmarked : IsUnmarked 3 unmarked
unmarked-IsUnmarked = record {
  valid = record {
    multiple = refl;
    fits = omega arith;
    earlier = λ x. rw (get_or-replicate {A = ℕ} 3 x 0) (omega arith);
  };
  cells = omega arith;
  sized = refl;
  none_marked = unmarked-get;
  starts = refl;
}

abbrev limit : ℕ → ℕ
limit b = 5

bfs_bipartition_correct_example :
    (t : Growth) × (bfs_bipartition path limit limit alternating 0 2 cleared cleared unmarked
      ≡ some t)
    × IsBipartition path t.base
    × (block_of t.base 1 < 2)
bfs_bipartition_correct_example =
    bfs_bipartition_correct path path-IsGraph limit limit alternating 0 2 cleared cleared unmarked 1
      (omega arith) (omega arith) cleared-IsCleared cleared-IsCleared unmarked-IsUnmarked
      (omega arith)
