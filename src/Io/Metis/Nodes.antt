-- ===== src/Io/Metis/Nodes.antt =====
-- The reader takes back the lines of the nodes that the writer has put out.
use ka_min_par.Prelude.{
  Option, ℕ, zero, suc, ◌+◌, ◌-◌, ◌%◌, ◌^◌, ◌≤◌, ◌<◌, ◌≡◌, refl, sym, ◌∙◌, inl, inr, Bool, false,
  ◌&&◌, ◌||◌, some, List, [], ◌∷◌, ◌++◌, arith, ◌==◌, Bool-cases, length, get_or, take,
  length-take_le, length-append,
}
use mathlib.Core.List.{append_assoc}
use ka_min_par.Graph.{Arrays, is_empty, accumulate}
use ka_min_par.Io.{current, skip_spaces, skip_comments, skip_nl, write_uint, concat_from}
use ka_min_par.Io.Decimal.{write_uint-is_digit, skip_spaces-write_uint}
use ka_min_par.Io.Metis.{
  Reading, skip_comment_lines, skip_line_end, read_node_weight, read_node, read_nodes, weight_limit,
}
use ka_min_par.Io.Metis.Write.{write_node, write_edge, write_weight}
use ka_min_par.Io.Metis.Edges.{
  scan_uint-number, edge_text, edge_text-suc, skip_spaces-edge_text, current-edge_text, header_of,
  reading_at, HasEdges, read_edges-write_edge,
}
use ka_min_par.Io.Metis.Prefix.{
  all_ones, take-suc, take_overflow, length-is_empty, all_ones-append, accumulate-take-suc,
}

-- Text that starts with neither a space nor a comment is left as it is.
pub skip_comment_lines_none :
    (behind : Option ℕ) (s : List ℕ) (c : ℕ)
    → skip_spaces s ≡ s
    → current behind s ≡ some c
    → (c == b'%') ≡ false
    → skip_comment_lines behind s ≡ some s
unfolding skip_comment_lines skip_comments
skip_comment_lines_none behind s c stable starts no_comment = rw (stable, starts, no_comment) refl

skip_line_end_lem :
    (behind : Option ℕ) (rest : List ℕ) → skip_line_end behind (b'\n' ∷ rest) ≡ some rest
unfolding skip_line_end skip_nl
skip_line_end_lem behind rest = refl

module _ (a : Arrays) where
  -- The text of a node, in front of the next line.
  node_text : ℕ → List ℕ → List ℕ
  node_text u rest =
      write_weight a.node_weights u
      ++ edge_text a (get_or a.nodes u 0) (get_or a.nodes (u + 1) 0 - get_or a.nodes u 0) rest

  node_text_lem : (u : ℕ) (rest : List ℕ) → write_node a u ++ rest ≡ node_text u rest
  unfolding write_node node_text edge_text
  node_text_lem u rest = rw (append_assoc, append_assoc) refl

  current-edge_text_any :
      (behind : Option ℕ) (e count : ℕ) (rest : List ℕ)
      → (c : ℕ) × (current behind (edge_text a e count rest) ≡ some c) × ((c == b'%') ≡ false)
  current-edge_text_any behind e zero rest = (b'\n', unfold edge_text in refl, refl)
  current-edge_text_any behind e (suc count) rest =
      let (c, starts, digit) = current-edge_text a behind e count rest in (c, starts, ground arith)

  length-write_edge : (e : ℕ) → 0 < length (write_edge a e)
  unfolding write_edge
  length-write_edge e =
      let text = b' ' ∷ write_weight a.edge_weights e in
      let (d, tail, starts, digit) = write_uint-is_digit ((get_or a.edges e 0 + 1) % 2 ^ 32) text in
      rw starts (omega arith)

  length-edge_text : (e count : ℕ) (rest : List ℕ) → count < length (edge_text a e count rest)
  length-edge_text e zero rest = unfold edge_text in omega arith
  length-edge_text e (suc count) rest =
      let some_text = length-write_edge e in
      rw (edge_text-suc a e count rest) (
        omega (
          arith,
          length-append (write_edge a e) (edge_text a (suc e) count rest),
          length-edge_text (suc e) count rest,
        ))

  skip_comment_lines-node_text :
      (behind : Option ℕ) (u : ℕ) (rest : List ℕ)
      → skip_comment_lines behind (node_text u rest) ≡ some (node_text u rest)
  unfolding node_text write_weight
  skip_comment_lines-node_text behind u rest =
      let e = get_or a.nodes u 0 in
      let count = get_or a.nodes (u + 1) 0 - e in
      elim (Bool-cases (is_empty a.node_weights)) [
        | inl no_weights ↦
            let (c, starts, no_comment) = current-edge_text_any behind e count rest in
            rw no_weights (
              skip_comment_lines_none behind _ c (skip_spaces-edge_text a e count rest) starts
                no_comment)
        | inr weights ↦
            let weight = get_or a.node_weights u 0 in
            let text = b' ' ∷ edge_text a e count rest in
            let (c, tail, starts, digit) = write_uint-is_digit weight text in
            rw (weights, append_assoc)
              (skip_comment_lines_none behind (write_uint weight ++ text) c
                (skip_spaces-write_uint weight text) (rw starts refl) (ground arith))
      ]

-- Whether one of the first nodes has no edge, from the offsets.
abbrev pub isolated_below : List ℕ → ℕ → Bool
isolated_below nodes zero = false
isolated_below nodes (suc u) = isolated_below nodes u || get_or nodes u 0 == get_or nodes (u + 1) 0

module _ (a : Arrays) (m : ℕ) where
  -- Nodes that the format can carry: the offsets start at 0 and end at the number of edges.
  pub record HasNodes : Type 0 where
    pub not_empty : 0 < length a.nodes
    pub first : get_or a.nodes 0 0 ≡ 0
    pub ascending : (u : ℕ) → u < length a.nodes - 1 → get_or a.nodes u 0 ≤ get_or a.nodes (u + 1) 0
    pub covered : (u : ℕ) → u < length a.nodes → get_or a.nodes u 0 ≤ length a.edges
    pub last : get_or a.nodes (length a.nodes - 1) 0 ≡ length a.edges
    pub weighted : is_empty a.node_weights ≡ false → length a.node_weights ≡ length a.nodes - 1
    pub total : accumulate a.node_weights < weight_limit

  -- The variables before the line of `u`.
  abbrev pub before_node : ℕ → List ℕ → Reading
  before_node u rest = reading_at a m u u (get_or a.nodes u 0) (isolated_below a.nodes u) rest

  module _ (edges : HasEdges a m) (few : length a.edges < weight_limit) (nodes : HasNodes) where
    read_node_weight-write_weight :
        (u e : ℕ) (isolated : Bool) (rest : List ℕ)
        → u < length a.nodes - 1
        → skip_spaces rest ≡ rest
        → read_node_weight
            (header_of a m)
            (reading_at a m (suc u) u e isolated (write_weight a.node_weights u ++ rest))
          ≡ reading_at a m (suc u) (suc u) e isolated rest
    unfolding read_node_weight write_weight
    read_node_weight-write_weight u e isolated rest h stable =
        elim (Bool-cases (is_empty a.node_weights)) [
          | inl no_weights ↦
              let none_left = length-is_empty a.node_weights no_weights in
              let before = take_overflow u a.node_weights (omega arith) in
              let after = take_overflow (suc u) a.node_weights (omega arith) in
              rw (no_weights, before, after) refl
          | inr weights ↦
              let size = nodes.weighted weights in
              let weight = get_or a.node_weights u 0 in
              let sum = accumulate-take-suc u a.node_weights (omega arith) in
              let bounded : (accumulate (take u a.node_weights) + weight) % 2 ^ 32
                  ≡ accumulate (take u a.node_weights) + weight =
                omega (arith, nodes.total, sum.1) in
              let exact : weight % 2 ^ 32 ≡ weight = omega (arith, nodes.total, sum.1) in
              let scanned =
                scan_uint-number weight rest (omega (arith, nodes.total, sum.1)) stable in
              let last = take-suc u a.node_weights 0 (omega arith) in
              let ones : all_ones (take (suc u) a.node_weights)
                  ≡ all_ones (take u a.node_weights) && weight == 1 =
                rw last (all_ones-append (take u a.node_weights) weight) in
              rw (weights, append_assoc, scanned, exact, bounded, sum.0, ← last, ones) refl
        ]

    read_node-write_node :
        (behind : Option ℕ) (u : ℕ) (rest : List ℕ)
        → u < length a.nodes - 1
        → read_node behind (header_of a m) (before_node u (write_node a u ++ rest))
          ≡ some (before_node (suc u) rest)
    unfolding read_node
    read_node-write_node behind u rest h =
        let e = get_or a.nodes u 0 in
        let count = get_or a.nodes (u + 1) 0 - e in
        let up = nodes.ascending u h in
        let covered = nodes.covered (u + 1) (omega arith) in
        let end : e + count ≡ get_or a.nodes (u + 1) 0 = omega arith in
        let next : u + 1 ≡ suc u = omega arith in
        let pushed : take u a.nodes ++ length (take e a.edges) ∷ [] ≡ take (suc u) a.nodes =
          rw (length-take_le e a.edges (omega arith)) (sym (take-suc u a.nodes 0 (omega arith))) in
        let weight =
          read_node_weight-write_weight u e (isolated_below a.nodes u) (edge_text a e count rest) h
            (skip_spaces-edge_text a e count rest) in
        let text = edge_text a e count rest in
        let fuel = length-edge_text a e count rest in
        let loop =
          read_edges-write_edge a m edges few (suc u) (suc u) (isolated_below a.nodes u) behind
            count (suc (length text)) e rest (omega arith) (omega arith) in
        let text_lem = node_text_lem a u rest in
        rw (text_lem, skip_comment_lines-node_text a behind u rest, pushed)
          (unfold node_text in
            rw
              (
                weight,
                loop,
                skip_line_end_lem behind rest,
                end,
                length-take_le e a.edges (omega arith),
                length-take_le (get_or a.nodes (u + 1) 0) a.edges covered,
                next,
              )
              refl)

    -- The loop over the nodes, from `u` on.
    pub read_nodes-write_node :
        (behind : Option ℕ) (count u : ℕ)
        → u + count ≤ length a.nodes - 1
        → read_nodes behind count
            (header_of a m)
            (before_node u (concat_from u count (write_node a)))
          ≡ some (before_node (u + count) [])
    unfolding read_nodes
    read_nodes-write_node behind zero u h = let same : u + 0 ≡ u = omega arith in rw same refl
    read_nodes-write_node behind (suc count) u h =
        let step =
          read_node-write_node behind u (concat_from (suc u) count (write_node a)) (omega arith) in
        let same : suc u + count ≡ u + suc count = omega arith in
        rw step (read_nodes-write_node behind count (suc u) (omega arith) ∙ rw same refl)
