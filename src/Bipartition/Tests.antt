-- ===== src/Bipartition/Tests.antt =====
-- Bipartitions of a path of three nodes.
use ka_min_par.Prelude.{
  ℕ, zero, suc, ◌<◌, ◌≡◌, ◌≢◌, ◌==◌, if◌then◌else◌, refl, some, [], ◌∷◌, arith,
}
use ka_min_par.Prelude.Int.{ℤ}
use ka_min_par.BinaryHeap.{BinaryHeap, invalid_id, pos_of}
use ka_min_par.BinaryHeap.Update.{IsValid}
use ka_min_par.Marker.{Marker}
use ka_min_par.Graph.Tests.{path}
use ka_min_par.Bipartition.{Bipartition, block_of, random_bipartition}
use ka_min_par.Bipartition.Weights.{IsBipartition}
use ka_min_par.Bipartition.Random.{random_bipartition_correct}
use ka_min_par.Bipartition.Greedy.{gain_comparator, Growing, grow_from}
use ka_min_par.Bipartition.Greedy.Skip.{grow_from_alone}

random_bipartition_correct_example :
    (s : Bipartition) × (random_bipartition path (λ _. 5) (λ u. u) ≡ some s)
    × IsBipartition path s
    × (block_of s 1 < 2)
random_bipartition_correct_example =
    random_bipartition_correct path (λ _. 5) (λ u. u) 1 (omega arith)

abbrev no_nodes : BinaryHeap ℤ
no_nodes = record {
  id_pos = invalid_id ∷ invalid_id ∷ invalid_id ∷ [];
  heap =
      record { id = 0; key = ℤ.pos 0 }
      ∷ record { id = 0; key = ℤ.pos 0 }
      ∷ record { id = 0; key = ℤ.pos 0 }
      ∷ [];
  size = 0;
}

no_nodes-present : (id : ℕ) → pos_of no_nodes id ≢ invalid_id → (pos_of no_nodes id < 0) × (0 ≡ id)
no_nodes-present zero h = absurd (h refl)
no_nodes-present (suc zero) h = absurd (h refl)
no_nodes-present (suc (suc zero)) h = absurd (h refl)
no_nodes-present (suc (suc (suc id))) h = absurd (h refl)

no_nodes-IsValid : IsValid no_nodes
no_nodes-IsValid = record {
  located = record {
    fits = omega arith;
    same_length = refl;
    valid_positions = omega arith;
    ids_below = λ i p. absurd (omega arith);
    located = λ i p. absurd (omega arith);
    present = λ id h. absurd (omega (arith, (no_nodes-present id h).0));
  };
  order = λ c p q. absurd (omega arith);
}

abbrev unmarked : Marker
unmarked = record { cells = 0 ∷ 0 ∷ 0 ∷ []; marker_id = 0; first_unmarked = 0 ∷ [] }

abbrev all_in_first : Growing
all_in_first = record {
  base = record { partition = 0 ∷ 0 ∷ 0 ∷ []; block_weights = 9 ∷ 0 ∷ [] };
  queue = no_nodes;
  marker = unmarked;
}

grow_from_alone_example :
    (t : Growing) × (grow_from path (λ _. 5) 1 all_in_first ≡ some t)
    × IsValid t.queue
    × (t.queue.size ≡ 0)
    × (block_of t.base 0 ≡ (if 1 == 0 then 1 else block_of all_in_first.base 0))
grow_from_alone_example =
    grow_from_alone path (λ _. 5) all_in_first 1 no_nodes-IsValid refl (omega arith) (omega arith)
      refl 0 (omega arith)
