-- ===== src/Io/Metis/RoundTrip.antt =====
-- What write_file puts out, read gives back.
use ka_min_par.Prelude.{
  ℕ, ◌+◌, ◌-◌, ◌*◌, ◌%◌, ◌^◌, ◌≤◌, ◌<◌, ◌≡◌, refl, inl, inr, Bool, true, false, not, some, List, [],
  ◌∷◌, ◌++◌, arith, ltb, if◌then◌else◌, Bool-cases, length, take, take-append_last, lt→ltb, ==_refl,
}
use ka_min_par.Graph.{construct, Arrays, is_empty, accumulate}
use ka_min_par.Io.{behind_file, concat_from}
use ka_min_par.Io.Metis.{
  read_graph, read_format, GraphInfo, weight_limit, finish_reading, start_reading, read,
}
use ka_min_par.Io.Metis.Write.{write, write_file, write_node}
use ka_min_par.Io.Metis.Edges.{header_of, HasEdges}
use ka_min_par.Io.Metis.Prefix.{all_ones, take_overflow, length-is_empty}
use ka_min_par.Io.Metis.Nodes.{HasNodes, isolated_below, before_node, read_nodes-write_node}
use ka_min_par.Io.Metis.Header.{has_newline, read_graph_header-write_header}

-- The arrays without weights that are all 1.
abbrev pub without_unit_weights : Arrays → Arrays
without_unit_weights a = record a {
  node_weights = if all_ones a.node_weights then [] else a.node_weights;
  edge_weights = if all_ones a.edge_weights then [] else a.edge_weights;
}

-- What is known of a graph from its arrays.
abbrev pub info_of : Arrays → GraphInfo
info_of a = record {
  total_node_weight =
      if all_ones a.node_weights then length a.nodes - 1 else accumulate a.node_weights;
  total_edge_weight = if all_ones a.edge_weights then length a.edges else accumulate a.edge_weights;
  has_isolated_nodes = isolated_below a.nodes (length a.nodes - 1);
}

kept_below :
    (weights : List ℕ) (unit : Bool)
    → accumulate weights < weight_limit
    → ltb (accumulate (if unit then [] else weights)) weight_limit ≡ true
kept_below weights true h = refl
kept_below weights false h = lt→ltb _ _ h

module _ (a : Arrays) (m : ℕ) (edges : HasEdges a m) (nodes : HasNodes a m) where
  node_weights_all : take (length a.nodes - 1) a.node_weights ≡ a.node_weights
  node_weights_all = elim (Bool-cases (is_empty a.node_weights)) [
    | inl no_weights ↦
        take_overflow _ a.node_weights (omega (arith, length-is_empty a.node_weights no_weights))
    | inr weights ↦ take_overflow _ a.node_weights (omega (arith, nodes.weighted weights))
  ]

  edge_weights_all : take (length a.edges) a.edge_weights ≡ a.edge_weights
  edge_weights_all = elim (Bool-cases (is_empty a.edge_weights)) [
    | inl no_weights ↦
        take_overflow _ a.edge_weights (omega (arith, length-is_empty a.edge_weights no_weights))
    | inr weights ↦ take_overflow _ a.edge_weights (omega (arith, edges.weighted weights))
  ]

  finish_reading-before_node :
      length a.nodes ≤ weight_limit
      → length a.edges < weight_limit
      → finish_reading (header_of a m) (before_node a m (length a.nodes - 1) [])
        ≡ some (without_unit_weights a, info_of a)
  unfolding finish_reading
  finish_reading-before_node few_nodes few_edges =
      let sized : 2 * m % 2 ^ 64 ≡ length a.edges = omega (arith, edges.even, few_edges) in
      let nodes_fit : (length a.nodes - 1) % 2 ^ 32 ≡ length a.nodes - 1 =
        omega (arith, few_nodes) in
      let edges_fit : length a.edges % 2 ^ 32 ≡ length a.edges = omega (arith, few_edges) in
      let all_edges = take_overflow (length a.edges) a.edges (omega arith) in
      let offsets : take (length a.nodes - 1) a.nodes ++ length a.edges ∷ [] ≡ a.nodes =
        rw (← nodes.last)
          (take-append_last (length a.nodes - 1) a.nodes 0 (omega (arith, nodes.not_empty))) in
      rw
        (
          nodes.last,
          all_edges,
          node_weights_all,
          edge_weights_all,
          offsets,
          sized,
          nodes_fit,
          edges_fit,
          ==_refl (length a.edges),
        )
        refl

  before_first : (rest : List ℕ) → before_node a m 0 rest ≡ start_reading rest
  before_first rest = rw nodes.first refl

  -- A graph that was written with a comment of one line is read back: the same offsets and edges, the
  -- weights unless all of them are 1, and the totals with the mark for isolated nodes. The arrays are
  -- those of a graph of fewer than 2^31 nodes and edges, in pairs, whose ids leave room for the 1 that
  -- the format adds, with a weight for each node or none, one for each edge or none, and totals
  -- below 2^31.
  pub read-write_file :
      (page_size : ℕ) (comment : List ℕ)
      → has_newline comment ≡ false
      → length a.nodes ≤ weight_limit
      → length a.edges < weight_limit
      → read page_size (write_file a comment) ≡ some (without_unit_weights a, info_of a)
  unfolding read write_file
  read-write_file page_size comment no_newline few_nodes few_edges =
      let n = length a.nodes - 1 in
      let body = concat_from 0 n (write_node a) in
      let behind = behind_file page_size (write_file a comment) in
      let header =
        read_graph_header-write_header a m (omega arith) edges.even behind comment body
          (omega (arith, edges.even)) no_newline in
      let bounded : ltb n (2 ^ 32) ≡ true = lt→ltb _ _ (omega (arith, nodes.not_empty)) in
      let bounded_edges : ltb (2 * m % 2 ^ 64) (2 ^ 32) ≡ true =
        lt→ltb _ _ (omega (arith, edges.even)) in
      let loop = read_nodes-write_node a m edges few_edges nodes behind n 0 (omega arith) in
      let all : 0 + n ≡ n = omega arith in
      rw (header, bounded, bounded_edges, ← before_first body, loop, all)
        (finish_reading-before_node few_nodes few_edges)

  -- The format that is read from what was written.
  read_format-write_file :
      (page_size : ℕ) (comment : List ℕ)
      → has_newline comment ≡ false
      → length a.nodes ≤ weight_limit
      → length a.edges < weight_limit
      → read_format page_size (write_file a comment)
        ≡ some (length a.nodes - 1, m, not (is_empty a.node_weights), not (is_empty a.edge_weights))
  unfolding read_format write_file
  read_format-write_file page_size comment no_newline few_nodes few_edges =
      let n = length a.nodes - 1 in
      let body = concat_from 0 n (write_node a) in
      let behind = behind_file page_size (write_file a comment) in
      let header =
        read_graph_header-write_header a m (omega arith) edges.even behind comment body
          (omega (arith, edges.even)) no_newline in
      let nodes_fit : n % 2 ^ 32 ≡ n = omega arith in
      let edges_fit : m % 2 ^ 32 ≡ m = omega (arith, edges.even) in
      rw (header, nodes_fit, edges_fit) refl

  -- A graph that was written is read back as the graph of the same arrays without weights that are
  -- all 1.
  read_graph-write :
      (page_size : ℕ) (sorted : Bool) (comment : List ℕ)
      → has_newline comment ≡ false
      → length a.nodes ≤ weight_limit
      → length a.edges < weight_limit
      → read_graph page_size (write (construct a sorted) comment) false false
        ≡ some (construct (without_unit_weights a) false)
  unfolding read_graph write
  read_graph-write page_size sorted comment no_newline few_nodes few_edges =
      let back = read-write_file page_size comment no_newline few_nodes few_edges in
      let node_total =
        kept_below a.node_weights (all_ones a.node_weights) (omega (arith, nodes.total)) in
      let edge_total =
        kept_below a.edge_weights (all_ones a.edge_weights) (omega (arith, edges.total)) in
      unfold construct in rw (back, node_total, edge_total) refl
