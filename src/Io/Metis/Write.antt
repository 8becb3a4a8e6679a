-- ===== src/Io/Metis/Write.antt =====
-- The writer of the METIS format: metis::write_file of kaminpar/io.cc, as the text that it puts out.
use ka_min_par.Prelude.{
  ℕ, ◌+◌, ◌-◌, ◌/◌, ◌%◌, ◌^◌, Bool, not, ◌||◌, List, [], ◌∷◌, ◌++◌, if◌then◌else◌, length, get_or,
}
use ka_min_par.Graph.{Arrays, Graph, is_empty}
use ka_min_par.Io.{write_uint, concat_from}

-- `static_cast<int>(b)`
abbrev pub bit : Bool → ℕ
bit b = if b then 1 else 0

-- A weight and a space, where there are weights.
unfoldable pub write_weight : List ℕ → ℕ → List ℕ
write_weight weights i =
    if is_empty weights then [] else write_uint (get_or weights i 0) ++ b' ' ∷ []

-- `if (!comment.empty()) out << "% " << comment << "\n"`
unfoldable pub write_comment : List ℕ → List ℕ
write_comment comment = if is_empty comment then [] else b'%' ∷ b' ' ∷ (comment ++ b'\n' ∷ [])

module _ (a : Arrays) where
  unfoldable pub write_edge : ℕ → List ℕ
  write_edge e =
      write_uint ((get_or a.edges e 0 + 1) % 2 ^ 32) ++ (b' ' ∷ write_weight a.edge_weights e)

  unfoldable pub write_node : ℕ → List ℕ
  write_node u =
      write_weight a.node_weights u
      ++ (concat_from (get_or a.nodes u 0) (get_or a.nodes (u + 1) 0 - get_or a.nodes u 0)
            write_edge
          ++ b'\n' ∷ [])

  unfoldable pub write_header : List ℕ
  write_header =
      let write_node_weights = not (is_empty a.node_weights) in
      let write_edge_weights = not (is_empty a.edge_weights) in
      write_uint (length a.nodes - 1)
      ++ (b' '
          ∷ (write_uint (length a.edges / 2)
              ++ ((if write_node_weights || write_edge_weights
                    then b' '
                      ∷ (write_uint (bit write_node_weights) ++ write_uint (bit write_edge_weights))
                    else [])
                  ++ b'\n' ∷ [])))

  -- metis::write_file
  unfoldable pub write_file : List ℕ → List ℕ
  write_file comment =
      write_comment comment ++ (write_header ++ concat_from 0 (length a.nodes - 1) write_node)

-- metis::write
unfoldable pub write : Graph → List ℕ → List ℕ
write g comment =
    write_file
      (record {
        nodes = g.nodes;
        edges = g.edges;
        node_weights = g.node_weights;
        edge_weights = g.edge_weights;
      })
      comment
