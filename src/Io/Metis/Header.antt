-- ===== src/Io/Metis/Header.antt =====
-- The reader takes back the comment and the first line that the writer has put out.
use ka_min_par.Prelude.{
  Option, ℕ, ◌+◌, ◌-◌, ◌*◌, ◌/◌, ◌%◌, ◌^◌, ◌<◌, ◌≡◌, refl, ◌∙◌, inl, inr, Bool, true, false, not,
  ◌||◌, some, List, [], ◌∷◌, ◌++◌, arith, ◌==◌, if◌then◌else◌, Bool-cases, length,
}
use mathlib.Core.List.{append_assoc}
use ka_min_par.Graph.{Arrays, is_empty}
use ka_min_par.Io.{
  current, is_digit, skip_spaces, skip_comment, skip_comments, skip_nl, scan_digits, scan_uint,
  write_uint,
}
use ka_min_par.Io.Decimal.{scan_uint-write_uint, write_uint-is_digit, skip_spaces-write_uint}
use ka_min_par.Io.Metis.{skip_comment_lines, scan_format, read_graph_header}
use ka_min_par.Io.Metis.Write.{bit, write_header, write_comment}
use ka_min_par.Io.Metis.Edges.{scan_uint-number, header_of}
use ka_min_par.Io.Metis.Nodes.{skip_comment_lines_none}

abbrev pub has_newline : List ℕ → Bool
has_newline [] = false
has_newline (c ∷ s) = c == b'\n' || has_newline s

skip_comment-append :
    (comment rest : List ℕ)
    → has_newline comment ≡ false
    → skip_comment (comment ++ (b'\n' ∷ rest)) ≡ rest
unfolding skip_comment
skip_comment-append [] rest h = refl
skip_comment-append (c ∷ comment) rest h = elim (Bool-cases (c == b'\n')) [
  | inl newline ↦ let no_ = rw newline at h in absurd cc
  | inr other ↦ rw other (skip_comment-append comment rest (ground arith))
]

-- A comment is skipped, in front of text that starts with a digit.
skip_comment_lines-write_comment :
    (behind : Option ℕ) (comment rest : List ℕ) (d : ℕ)
    → has_newline comment ≡ false
    → skip_spaces rest ≡ rest
    → current behind rest ≡ some d
    → is_digit d ≡ true
    → skip_comment_lines behind (write_comment comment ++ rest) ≡ some rest
unfolding write_comment
skip_comment_lines-write_comment behind [] rest d h stable starts digit =
    skip_comment_lines_none behind rest d stable starts (ground arith)
skip_comment_lines-write_comment behind (c ∷ comment) rest d h stable starts digit =
    let no_comment : (d == b'%') ≡ false = ground arith in
    let skipped : skip_comment (b'%' ∷ b' ' ∷ ((c ∷ comment) ++ (b'\n' ∷ rest))) ≡ rest =
      skip_comment-append (b'%' ∷ b' ' ∷ c ∷ comment) rest h in
    unfold skip_comment_lines skip_comments skip_spaces in
    rw (append_assoc, skipped, stable, starts, no_comment) refl

-- The end of the first line, after the number of edges and from the format on.
format_text : Bool → Bool → List ℕ → List ℕ
format_text has_node_weights has_edge_weights body =
    (if has_node_weights || has_edge_weights
      then b' ' ∷ (write_uint (bit has_node_weights) ++ write_uint (bit has_edge_weights))
      else [])
    ++ (b'\n' ∷ body)

format_rest : Bool → Bool → List ℕ → List ℕ
format_rest has_node_weights has_edge_weights body =
    if has_node_weights || has_edge_weights
    then (b'0' + bit has_node_weights) ∷ (b'0' + bit has_edge_weights) ∷ b'\n' ∷ body
    else b'\n' ∷ body

skip_spaces-digit : (d : ℕ) (s : List ℕ) → is_digit d ≡ true → skip_spaces (d ∷ s) ≡ d ∷ s
unfolding skip_spaces
skip_spaces-digit d s digit =
    let stop : (d == b' ' || d == b'\t') ≡ false = ground arith in rw stop refl

scan_uint-format_text :
    (has_node_weights has_edge_weights : Bool) (m : ℕ) (body : List ℕ)
    → m < 2 ^ 64
    → scan_uint (write_uint m ++ format_text has_node_weights has_edge_weights body)
      ≡ (m, format_rest has_node_weights has_edge_weights body)
unfolding format_text format_rest
scan_uint-format_text true true m body h =
    unfold write_uint in
    scan_uint-number m (b'1' ∷ b'1' ∷ b'\n' ∷ body) h
      (skip_spaces-digit b'1' (b'1' ∷ b'\n' ∷ body) refl)
scan_uint-format_text true false m body h =
    unfold write_uint in
    scan_uint-number m (b'1' ∷ b'0' ∷ b'\n' ∷ body) h
      (skip_spaces-digit b'1' (b'0' ∷ b'\n' ∷ body) refl)
scan_uint-format_text false true m body h =
    unfold write_uint in
    scan_uint-number m (b'0' ∷ b'1' ∷ b'\n' ∷ body) h
      (skip_spaces-digit b'0' (b'1' ∷ b'\n' ∷ body) refl)
scan_uint-format_text false false m body h =
    scan_uint-write_uint m b'\n' body h refl ∙ unfold skip_spaces in refl

scan_format-format_rest :
    (behind : Option ℕ) (has_node_weights has_edge_weights : Bool) (body : List ℕ)
    → scan_format behind (format_rest has_node_weights has_edge_weights body)
      ≡ some (10 * bit has_node_weights + bit has_edge_weights, b'\n' ∷ body)
unfolding format_rest scan_format scan_uint scan_digits skip_spaces
scan_format-format_rest behind true true body = refl
scan_format-format_rest behind true false body = refl
scan_format-format_rest behind false true body = refl
scan_format-format_rest behind false false body = refl

-- The flags that the format's digits stand for.
format_digits :
    (b c : Bool)
    → (((10 * bit b + bit c) / 100 == 0) ≡ true)
      × (not ((10 * bit b + bit c) % 100 / 10 == 0) ≡ b)
      × (not ((10 * bit b + bit c) % 10 == 0) ≡ c)
format_digits true true = (refl, refl, refl)
format_digits true false = (refl, refl, refl)
format_digits false true = (refl, refl, refl)
format_digits false false = (refl, refl, refl)

module _ (a : Arrays) (m : ℕ) (nodes : length a.nodes < 2 ^ 64)
    (edges : length a.edges ≡ 2 * m) where
  header_text : List ℕ → List ℕ
  header_text body =
      write_uint (length a.nodes - 1)
      ++ (b' '
          ∷ (write_uint m
              ++ format_text (not (is_empty a.node_weights)) (not (is_empty a.edge_weights)) body))

  header_text_lem : (body : List ℕ) → write_header a ++ body ≡ header_text body
  unfolding write_header header_text format_text
  header_text_lem body =
      let half : length a.edges / 2 ≡ m = omega arith in
      rw (append_assoc, append_assoc, append_assoc, half) refl

  -- What the writer puts in front of the lines of the nodes is read back.
  pub read_graph_header-write_header :
      (behind : Option ℕ) (comment body : List ℕ)
      → m < 2 ^ 64
      → has_newline comment ≡ false
      → read_graph_header behind (write_comment comment ++ (write_header a ++ body))
        ≡ some (header_of a m, body)
  unfolding read_graph_header skip_nl
  read_graph_header-write_header behind comment body fits no_newline =
      let n = length a.nodes - 1 in
      let has_nodes = not (is_empty a.node_weights) in
      let has_edges = not (is_empty a.edge_weights) in
      let line = write_uint m ++ format_text has_nodes has_edges body in
      let (d, tail, starts, digit) = write_uint-is_digit n (b' ' ∷ line) in
      let commented =
        skip_comment_lines-write_comment behind comment (write_uint n ++ (b' ' ∷ line)) d no_newline
          (skip_spaces-write_uint n (b' ' ∷ line)) (rw starts refl) digit in
      let first =
        scan_uint-number n line (omega arith)
          (skip_spaces-write_uint m (format_text has_nodes has_edges body)) in
      let second = scan_uint-format_text has_nodes has_edges m body fits in
      let third = scan_format-format_rest behind has_nodes has_edges body in
      let (no_sizes, node_flag, edge_flag) = format_digits has_nodes has_edges in
      rw header_text_lem (
        unfold header_text in
        rw (commented, first, second, third, no_sizes, node_flag, edge_flag) refl)
