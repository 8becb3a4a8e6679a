-- ===== src/Io/Metis.antt =====
-- The METIS format of graphs: the reader, metis::read of kaminpar/io.cc. The arrays that
-- the reader fills hold the entries that it has written; a write past the resized array is a fault.
-- A weight or total is the residue modulo 2^32 that stands for it in two's complement. `none` are a
-- fault, a failed assertion, and a file of 2^32 nodes or more, for which the loop over the nodes,
-- whose counter has 32 bits, does not end.
pub mod Write
pub mod Prefix
pub mod Edges
pub mod Nodes
pub mod Header
pub mod Shape
pub mod Offsets
pub mod Valid
pub mod RoundTrip
use ka_min_par.Prelude.{
  ℕ, zero, suc, leb, ◌+◌, ◌-◌, ◌*◌, ◌/◌, ◌%◌, ◌^◌, Bool, true, false, not, ◌&&◌, ◌||◌, Option, none,
  some, List, [], ◌∷◌, ◌++◌, ltb, ◌==◌, if◌then◌else◌, length, get_or, assert, ◌>>=◌,
}
use ka_min_par.Graph.{Arrays, Graph, accumulate, construct}
use ka_min_par.Io.{
  behind_file, current, is_digit, skip_spaces, skip_nl, scan_uint, skip_comments, write_uint,
  concat_from,
}

pub record GraphHeader : Type 0 where
  pub number_of_nodes : ℕ
  pub number_of_edges : ℕ
  pub has_node_weights : Bool
  pub has_edge_weights : Bool

pub record GraphInfo : Type 0 where
  pub total_node_weight : ℕ
  pub total_edge_weight : ℕ
  pub has_isolated_nodes : Bool

-- What follows the spaces and the comments at a position.
unfoldable pub skip_comment_lines : Option ℕ → List ℕ → Option (List ℕ)
skip_comment_lines behind s = skip_comments behind (suc (length s)) (skip_spaces s)

-- The format is left out where the line ends behind the number of edges.
unfoldable pub scan_format : Option ℕ → List ℕ → Option (ℕ × List ℕ)
scan_format behind s = current behind s >>= λ c. some (if c == b'\n' then (0, s) else scan_uint s)

unfoldable pub read_graph_header : Option ℕ → List ℕ → Option (GraphHeader × List ℕ)
read_graph_header behind s = skip_comment_lines behind s >>= λ s.
    let number_of_nodes = scan_uint s in
    let number_of_edges = scan_uint number_of_nodes.1 in
    scan_format behind number_of_edges.1 >>= λ format. skip_nl format.1 >>= λ rest.
    assert (format.0 / 100 == 0) (
      some (
        record {
          number_of_nodes = number_of_nodes.0;
          number_of_edges = number_of_edges.0;
          has_node_weights = not (format.0 % 100 / 10 == 0);
          has_edge_weights = not (format.0 % 10 == 0);
        },
        rest,
      ))

-- metis::parse_header
unfoldable pub parse_header : ℕ → List ℕ → Option GraphHeader
parse_header page_size s = read_graph_header (behind_file page_size s) s >>= λ header. some header.0

-- metis::read_format: the numbers are cut to the 32 bits of the caller's variables.
unfoldable pub read_format : ℕ → List ℕ → Option (ℕ × ℕ × Bool × Bool)
read_format page_size s = read_graph_header (behind_file page_size s) s >>= λ header.
    let h = header.0 in
    some (
      h.number_of_nodes % 2 ^ 32,
      h.number_of_edges % 2 ^ 32,
      h.has_node_weights,
      h.has_edge_weights,
    )

-- The variables of `read`.
pub record Reading : Type 0 where
  pub rest : List ℕ
  pub nodes : List ℕ
  pub edges : List ℕ
  pub node_weights : List ℕ
  pub edge_weights : List ℕ
  pub unit_node_weights : Bool
  pub unit_edge_weights : Bool
  pub info : GraphInfo

-- Weights from here on stand for negative ones.
abbrev pub weight_limit : ℕ
weight_limit = 2 ^ 31

-- `edges.resize(header.number_of_edges * 2)`, in 64 bits
abbrev pub edge_capacity : GraphHeader → ℕ
edge_capacity h = 2 * h.number_of_edges % 2 ^ 64

unfoldable pub read_edge_weight : Reading → Reading
read_edge_weight r =
    let scanned = scan_uint r.rest in
    let weight = scanned.0 % 2 ^ 32 in
    record r {
      rest = scanned.1;
      edge_weights = r.edge_weights ++ weight ∷ [];
      unit_edge_weights = r.unit_edge_weights && weight == 1;
      info = record r.info { total_edge_weight = (r.info.total_edge_weight + weight) % 2 ^ 32 };
    }

-- One round of the loop over the edges of a node: the ids in a file start at 1.
unfoldable pub read_edge : GraphHeader → Reading → Option Reading
read_edge h r =
    let target = scan_uint r.rest in
    let read = record r {
      rest = target.1;
      edges = r.edges ++ ((target.0 + (2 ^ 64 - 1)) % 2 ^ 64 % 2 ^ 32) ∷ [];
    } in
    assert (ltb (length r.edges) (edge_capacity h))
      (some (if h.has_edge_weights then read_edge_weight read else read))

-- The loop over the edges of a node, with at most `fuel` tests.
unfoldable pub read_edges : Option ℕ → ℕ → GraphHeader → Reading → Option Reading
read_edges behind zero h r = none
read_edges behind (suc fuel) h r =
    let more = read_edge h r >>= read_edges behind fuel h in
    current behind r.rest >>= λ c. if is_digit c then more else some r

unfoldable pub read_node_weight : GraphHeader → Reading → Reading
read_node_weight h r =
    let scanned = scan_uint r.rest in
    let weight = scanned.0 % 2 ^ 32 in
    let read = record r {
      rest = scanned.1;
      node_weights = r.node_weights ++ weight ∷ [];
      unit_node_weights = r.unit_node_weights && weight == 1;
      info = record r.info { total_node_weight = (r.info.total_node_weight + weight) % 2 ^ 32 };
    } in
    if h.has_node_weights then read else r

-- `if (current() == '\n') skip_nl()`
unfoldable pub skip_line_end : Option ℕ → List ℕ → Option (List ℕ)
skip_line_end behind s = current behind s >>= λ c. if c == b'\n' then skip_nl s else some s

-- One round of the loop over the nodes.
unfoldable pub read_node : Option ℕ → GraphHeader → Reading → Option Reading
read_node behind h r =
    let before = length r.edges in
    skip_comment_lines behind r.rest >>= λ s.
    let weighted = read_node_weight h (record r { rest = s; nodes = r.nodes ++ before ∷ [] }) in
    read_edges behind (suc (length weighted.rest)) h weighted >>= λ r.
    skip_line_end behind r.rest >>= λ s. some (record r {
      rest = s;
      info = record r.info {
        has_isolated_nodes = r.info.has_isolated_nodes || before == length r.edges;
      };
    })

unfoldable pub read_nodes : Option ℕ → ℕ → GraphHeader → Reading → Option Reading
read_nodes behind zero h r = some r
read_nodes behind (suc count) h r = read_node behind h r >>= read_nodes behind count h

-- What follows the loop: weights are only kept if one of them is not 1. The number of edges read has
-- 32 bits, and is compared in 64.
unfoldable pub finish_reading : GraphHeader → Reading → Option (Arrays × GraphInfo)
finish_reading h r = assert (length r.edges == edge_capacity h) (
    some (
      record {
        nodes = r.nodes ++ length r.edges ∷ [];
        edges = r.edges;
        node_weights = if r.unit_node_weights then [] else r.node_weights;
        edge_weights = if r.unit_edge_weights then [] else r.edge_weights;
      },
      record r.info {
        total_node_weight =
            if r.unit_node_weights then h.number_of_nodes % 2 ^ 32 else r.info.total_node_weight;
        total_edge_weight =
            if r.unit_edge_weights then edge_capacity h % 2 ^ 32 else r.info.total_edge_weight;
      },
    ))

abbrev pub start_reading : List ℕ → Reading
start_reading s = record {
  rest = s;
  nodes = [];
  edges = [];
  node_weights = [];
  edge_weights = [];
  unit_node_weights = true;
  unit_edge_weights = true;
  info = record { total_node_weight = 0; total_edge_weight = 0; has_isolated_nodes = false };
}

-- metis::read into arrays. From 2^32 edges on the last assertion fails, if nothing before it does.
unfoldable pub read : ℕ → List ℕ → Option (Arrays × GraphInfo)
read page_size s =
    let behind = behind_file page_size s in
    read_graph_header behind s >>= λ header.
    let h = header.0 in
    assert (ltb h.number_of_nodes (2 ^ 32) && ltb (edge_capacity h) (2 ^ 32))
      (read_nodes behind h.number_of_nodes h (start_reading header.1) >>= finish_reading h)

-- metis::read of a graph, whose weights are not negative and have totals within their type.
unfoldable pub read_graph : ℕ → List ℕ → Bool → Bool → Option Graph
read_graph page_size s ignore_node_weights ignore_edge_weights = read page_size s >>= λ result.
    let a = result.0 in
    let node_weights = if ignore_node_weights then [] else a.node_weights in
    let edge_weights = if ignore_edge_weights then [] else a.edge_weights in
    assert
      (ltb (accumulate node_weights) weight_limit && ltb (accumulate edge_weights) weight_limit)
      (some
        (construct (record a { node_weights = node_weights; edge_weights = edge_weights }) false))
