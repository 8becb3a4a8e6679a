-- ===== src/Io/Tests.antt =====
-- Instances and tests of the reading and writing of files.
use ka_min_par.Prelude.{
  ◌+◌, ℕ, suc, zero, ◌-◌, ◌<◌, ◌≤◌, ◌≡◌, ◌^◌, refl, false, List, [], ◌∷◌, none, some, arith, length,
  get_or,
}
use ka_min_par.Graph.{Arrays}
use ka_min_par.Io.{scan_digits, scan_uint, skip_spaces, skip_comment, skip_comments, skip_nl}
use ka_min_par.Io.Metis.{
  GraphInfo, skip_comment_lines, scan_format, read_graph_header, read_edge, read_edge_weight,
  read_edges, read_node_weight, skip_line_end, read_node, read_nodes, finish_reading, read,
}
use ka_min_par.Io.Metis.Write.{write_file}
use ka_min_par.Io.Metis.Edges.{HasEdges}
use ka_min_par.Io.Metis.Nodes.{HasNodes}
use ka_min_par.Io.Metis.Valid.{IsRead, read-IsRead}
use ka_min_par.Io.Metis.RoundTrip.{without_unit_weights, info_of, read-write_file}
use ka_min_par.Io.Parts.{AreBlocks, read_blocks-Run, read_blocks, read-write}
use ka_min_par.Io.Parts

-- A path of three nodes with weights, those of the edges all 1.
abbrev path : Arrays
path = record {
  nodes = 0 ∷ 1 ∷ 3 ∷ 4 ∷ [];
  edges = 1 ∷ 0 ∷ 2 ∷ 1 ∷ [];
  node_weights = 1 ∷ 2 ∷ 13 ∷ [];
  edge_weights = 1 ∷ 1 ∷ 1 ∷ 1 ∷ [];
}

abbrev comment : List ℕ
comment = b'h' ∷ b'i' ∷ []

path-ids : (e : ℕ) → e < length path.edges → suc (get_or path.edges e 0) < 2 ^ 32
path-ids zero h = omega arith
path-ids (suc zero) h = omega arith
path-ids (suc (suc zero)) h = omega arith
path-ids (suc (suc (suc zero))) h = omega arith
path-ids (suc (suc (suc (suc e)))) h = absurd (omega arith)

path-ascending :
    (u : ℕ) → u < length path.nodes - 1 → get_or path.nodes u 0 ≤ get_or path.nodes (u + 1) 0
path-ascending zero h = omega arith
path-ascending (suc zero) h = omega arith
path-ascending (suc (suc zero)) h = omega arith
path-ascending (suc (suc (suc u))) h = absurd (omega arith)

path-covered : (u : ℕ) → u < length path.nodes → get_or path.nodes u 0 ≤ length path.edges
path-covered zero h = omega arith
path-covered (suc zero) h = omega arith
path-covered (suc (suc zero)) h = omega arith
path-covered (suc (suc (suc zero))) h = omega arith
path-covered (suc (suc (suc (suc u)))) h = absurd (omega arith)

path-HasEdges : HasEdges path 2
path-HasEdges = record { even = refl; ids = path-ids; weighted = λ e. refl; total = omega arith }

path-HasNodes : HasNodes path 2
path-HasNodes = record {
  not_empty = omega arith;
  first = refl;
  ascending = path-ascending;
  covered = path-covered;
  last = refl;
  weighted = λ e. refl;
  total = omega arith;
}

read-write_file_example :
    read 4096 (write_file path comment) ≡ some (without_unit_weights path, info_of path)
read-write_file_example =
    read-write_file path 2 path-HasEdges path-HasNodes 4096 comment refl (omega arith) (omega arith)

-- One edge between two nodes: "2 1", and the edge once for each end.
abbrev one_edge : List ℕ
one_edge = b'2' ∷ b' ' ∷ b'1' ∷ b'\n' ∷ b'2' ∷ b'\n' ∷ b'1' ∷ b'\n' ∷ []

abbrev one_edge_arrays : Arrays
one_edge_arrays = record {
  nodes = 0 ∷ 1 ∷ 2 ∷ [];
  edges = 1 ∷ 0 ∷ [];
  node_weights = [];
  edge_weights = [];
}

abbrev one_edge_info : GraphInfo
one_edge_info = record { total_node_weight = 2; total_edge_weight = 2; has_isolated_nodes = false }

read-one_edge : read 4096 one_edge ≡ some (one_edge_arrays, one_edge_info)
unfolding read read_graph_header skip_comment_lines skip_comments skip_comment skip_spaces
    scan_format scan_uint scan_digits skip_nl read_nodes read_node read_node_weight read_edges
    read_edge read_edge_weight skip_line_end finish_reading
read-one_edge = refl

-- The file unweighted_K3.graph of the repository's tests: the last line has no end.
abbrev unweighted_K3 : List ℕ
unweighted_K3 =
    b'3' ∷ b' ' ∷ b'3' ∷ b'\n' ∷ b'2' ∷ b' ' ∷ b'3' ∷ b'\n' ∷ b'1' ∷ b' ' ∷ b'3' ∷ b'\n' ∷ b'1'
    ∷ b' ' ∷ b'2' ∷ []

read-unweighted_K3 :
    read 4096 unweighted_K3
    ≡ some (
      record {
        nodes = 0 ∷ 2 ∷ 4 ∷ 6 ∷ [];
        edges = 1 ∷ 2 ∷ 0 ∷ 2 ∷ 0 ∷ 1 ∷ [];
        node_weights = [];
        edge_weights = [];
      },
      record { total_node_weight = 3; total_edge_weight = 6; has_isolated_nodes = false },
    )
unfolding read read_graph_header skip_comment_lines skip_comments skip_comment skip_spaces
    scan_format scan_uint scan_digits skip_nl read_nodes read_node read_node_weight read_edges
    read_edge read_edge_weight skip_line_end finish_reading
read-unweighted_K3 = refl

-- If its pages were full, the reader would look for a digit behind the last of them.
read_cut : read 15 unweighted_K3 ≡ none
unfolding read read_graph_header skip_comment_lines skip_comments skip_comment skip_spaces
    scan_format scan_uint scan_digits skip_nl read_nodes read_node read_node_weight read_edges
    read_edge read_edge_weight skip_line_end finish_reading
read_cut = refl

read-IsRead_example : IsRead one_edge_arrays one_edge_info
read-IsRead_example = read-IsRead 4096 one_edge one_edge_arrays one_edge_info read-one_edge

abbrev blocks : List ℕ
blocks = 3 ∷ 0 ∷ 17 ∷ []

blocks-AreBlocks : AreBlocks blocks
blocks-AreBlocks =
    AreBlocks.next (omega arith)
      (AreBlocks.next (omega arith) (AreBlocks.next (omega arith) AreBlocks.none_left))

read-write_example : Parts.read (Parts.write blocks) ≡ some blocks
read-write_example = read-write blocks (omega arith) blocks-AreBlocks

read_blocks-Run_example : Parts.Run (b'7' ∷ b'\n' ∷ []) [] (read_blocks 3 (b'7' ∷ b'\n' ∷ []) [])
read_blocks-Run_example = read_blocks-Run 3 (b'7' ∷ b'\n' ∷ []) [] (omega arith)
