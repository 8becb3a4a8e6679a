-- ===== src/Io/Metis/Edges.antt =====
-- The reader takes back the edges of a node that the writer has put out.
use ka_min_par.Prelude.{
  Option, ℕ, zero, suc, ◌+◌, ◌-◌, ◌*◌, ◌%◌, ◌^◌, ◌≤◌, ◌<◌, ◌≡◌, refl, ◌∙◌, inl, inr, Bool, true,
  false, not, ◌&&◌, some, List, ◌∷◌, ◌++◌, arith, ltb, ◌==◌, Bool-cases, length, get_or, take,
  length-take_le, lt→ltb,
}
use mathlib.Core.List.{append_assoc}
use ka_min_par.Graph.{Arrays, is_empty, accumulate}
use ka_min_par.Io.{current, is_digit, skip_spaces, scan_uint, write_uint, concat_from}
use ka_min_par.Io.Decimal.{scan_uint-write_uint, write_uint-is_digit, skip_spaces-write_uint}
use ka_min_par.Io.Metis.Prefix.{
  all_ones, take-suc, take_overflow, length-is_empty, all_ones-append, accumulate-take-suc,
}
use ka_min_par.Io.Metis.{
  GraphHeader, Reading, read_edge, read_edges, read_edge_weight, weight_limit,
}
use ka_min_par.Io.Metis.Write.{write_edge, write_weight}

-- A number and a space in front of text that does not start with a space.
pub scan_uint-number :
    (n : ℕ) (rest : List ℕ)
    → n < 2 ^ 64
    → skip_spaces rest ≡ rest
    → scan_uint (write_uint n ++ (b' ' ∷ rest)) ≡ (n, rest)
scan_uint-number n rest fits stable =
    let skip : skip_spaces (b' ' ∷ rest) ≡ rest = unfold skip_spaces in stable in
    scan_uint-write_uint n b' ' rest fits refl ∙ rw skip refl

module _ (a : Arrays) where
  -- The text of `count` edges from `e` on, in front of the end of a line.
  unfoldable pub edge_text : ℕ → ℕ → List ℕ → List ℕ
  edge_text e count rest = concat_from e count (write_edge a) ++ (b'\n' ∷ rest)

  pub edge_text-suc :
      (e count : ℕ) (rest : List ℕ)
      → edge_text e (suc count) rest ≡ write_edge a e ++ edge_text (suc e) count rest
  unfolding edge_text
  edge_text-suc e count rest =
      append_assoc (write_edge a e) (concat_from (suc e) count (write_edge a)) (b'\n' ∷ rest)

  pub skip_spaces-edge_text :
      (e count : ℕ) (rest : List ℕ) → skip_spaces (edge_text e count rest) ≡ edge_text e count rest
  unfolding write_edge
  skip_spaces-edge_text e zero rest = unfold edge_text skip_spaces in refl
  skip_spaces-edge_text e (suc count) rest =
      rw (edge_text-suc e count rest, append_assoc) (skip_spaces-write_uint _ _)

  pub current-edge_text :
      (behind : Option ℕ) (e count : ℕ) (rest : List ℕ)
      → (c : ℕ) × (current behind (edge_text e (suc count) rest) ≡ some c) × (is_digit c ≡ true)
  unfolding write_edge
  current-edge_text behind e count rest =
      let (c, tail, starts, digit) =
        write_uint-is_digit ((get_or a.edges e 0 + 1) % 2 ^ 32)
          (b' ' ∷ (write_weight a.edge_weights e ++ edge_text (suc e) count rest)) in
      (c, rw (edge_text-suc e count rest, append_assoc, starts) refl, digit)

module _ (a : Arrays) (m : ℕ) where
  abbrev pub header_of : GraphHeader
  header_of = record {
    number_of_nodes = length a.nodes - 1;
    number_of_edges = m;
    has_node_weights = not (is_empty a.node_weights);
    has_edge_weights = not (is_empty a.edge_weights);
  }

  -- The variables after the offsets of `i` nodes, the weights of `j` nodes, and `e` edges.
  abbrev pub reading_at : ℕ → ℕ → ℕ → Bool → List ℕ → Reading
  reading_at i j e isolated rest = record {
    rest = rest;
    nodes = take i a.nodes;
    edges = take e a.edges;
    node_weights = take j a.node_weights;
    edge_weights = take e a.edge_weights;
    unit_node_weights = all_ones (take j a.node_weights);
    unit_edge_weights = all_ones (take e a.edge_weights);
    info = record {
      total_node_weight = accumulate (take j a.node_weights);
      total_edge_weight = accumulate (take e a.edge_weights);
      has_isolated_nodes = isolated;
    };
  }

  -- Edges that the format can carry: ids after 1 is added, and a total, fit their types.
  pub record HasEdges : Type 0 where
    pub even : length a.edges ≡ 2 * m
    pub ids : (e : ℕ) → e < length a.edges → suc (get_or a.edges e 0) < 2 ^ 32
    pub weighted : is_empty a.edge_weights ≡ false → length a.edge_weights ≡ length a.edges
    pub total : accumulate a.edge_weights < weight_limit

  module _ (fits : HasEdges) (few : length a.edges < weight_limit) (i j : ℕ) (isolated : Bool) where
    read_edge-write_edge :
        (e : ℕ) (rest : List ℕ)
        → e < length a.edges
        → skip_spaces rest ≡ rest
        → read_edge header_of (reading_at i j e isolated (write_edge a e ++ rest))
          ≡ some (reading_at i j (suc e) isolated rest)
    unfolding read_edge write_edge read_edge_weight write_weight
    read_edge-write_edge e rest h stable =
        let id = get_or a.edges e 0 in
        let small = fits.ids e h in
        let written : ((id + 1) % 2 ^ 32 + (2 ^ 64 - 1)) % 2 ^ 64 % 2 ^ 32 ≡ id = omega arith in
        let fitted : (id + 1) % 2 ^ 32 < 2 ^ 64 = omega arith in
        let room : ltb (length (take e a.edges)) (2 * m % 2 ^ 64) ≡ true =
          rw (length-take_le e a.edges (omega arith))
            (lt→ltb e (2 * m % 2 ^ 64) (omega (arith, fits.even, few))) in
        elim (Bool-cases (is_empty a.edge_weights)) [
          | inl no_weights ↦
              let none_left = length-is_empty a.edge_weights no_weights in
              let before = take_overflow e a.edge_weights (omega arith) in
              let after = take_overflow (suc e) a.edge_weights (omega arith) in
              rw
                (
                  no_weights,
                  append_assoc,
                  scan_uint-number _ rest fitted stable,
                  room,
                  written,
                  take-suc e a.edges 0 h,
                  before,
                  after,
                )
                refl
          | inr weights ↦
              let size = fits.weighted weights in
              let weight = get_or a.edge_weights e 0 in
              let sum = accumulate-take-suc e a.edge_weights (omega arith) in
              let bounded : (accumulate (take e a.edge_weights) + weight) % 2 ^ 32
                  ≡ accumulate (take e a.edge_weights) + weight =
                omega (arith, fits.total, sum.1) in
              let exact : weight % 2 ^ 32 ≡ weight = omega (arith, fits.total, sum.1) in
              let first =
                scan_uint-number ((id + 1) % 2 ^ 32) (write_uint weight ++ (b' ' ∷ rest)) fitted
                  (skip_spaces-write_uint weight (b' ' ∷ rest)) in
              let second = scan_uint-number weight rest (omega (arith, fits.total, sum.1)) stable in
              let last = take-suc e a.edge_weights 0 (omega arith) in
              let ones : all_ones (take (suc e) a.edge_weights)
                  ≡ all_ones (take e a.edge_weights) && weight == 1 =
                rw last (all_ones-append (take e a.edge_weights) weight) in
              rw
                (
                  weights,
                  append_assoc,
                  append_assoc,
                  first,
                  second,
                  room,
                  written,
                  exact,
                  bounded,
                  sum.0,
                  ← last,
                  take-suc e a.edges 0 h,
                  ones,
                )
                refl
        ]

    pub read_edges-write_edge :
        (behind : Option ℕ) (count fuel e : ℕ) (rest : List ℕ)
        → e + count ≤ length a.edges
        → count < fuel
        → read_edges behind fuel header_of (reading_at i j e isolated (edge_text a e count rest))
          ≡ some (reading_at i j (e + count) isolated (b'\n' ∷ rest))
    unfolding read_edges
    read_edges-write_edge behind count zero e rest h p = absurd (omega arith)
    read_edges-write_edge behind zero (suc fuel) e rest h p =
        let same : e + 0 ≡ e = omega arith in unfold edge_text in rw same refl
    read_edges-write_edge behind (suc count) (suc fuel) e rest h p =
        let (c, starts, digit) = current-edge_text a behind e count rest in
        let step =
          read_edge-write_edge e (edge_text a (suc e) count rest) (omega arith)
            (skip_spaces-edge_text a (suc e) count rest) in
        let same : suc e + count ≡ e + suc count = omega arith in
        rw (starts, digit, edge_text-suc a e count rest, step)
          (read_edges-write_edge behind count fuel (suc e) rest (omega arith) (omega arith)
            ∙ rw same refl)
