-- ===== src/Io/Metis/Valid.antt =====
-- Every file that the reader accepts gives arrays of a graph.
use ka_min_par.Prelude.{
  ◌^◌, Option, ◌%◌, ℕ, zero, suc, ◌+◌, ◌-◌, ◌<◌, ◌≡◌, ◌⊎◌, refl, sym, ◌∙◌, ap, inl, inr, Bool, true,
  false, ◌||◌, some, List, [], ◌∷◌, ◌++◌, arith, ◌==◌, if◌then◌else◌, Bool-cases, assert-some,
  bind_some, length, length-append, get_or, get_or-append_last,
}
use mathlib.Core.Path.{subst}
use ka_min_par.Graph.{Arrays, is_empty, accumulate, total_node_weight_of, total_edge_weight_of}
use ka_min_par.Io.{behind_file, scan_uint}
use ka_min_par.Io.Metis.{
  edge_capacity, GraphHeader, GraphInfo, Reading, skip_comment_lines, skip_line_end, read_edges,
  read_node_weight, read_node, read_nodes, finish_reading, start_reading, read_graph_header, read,
}
use ka_min_par.Io.Metis.Nodes.{isolated_below}
use ka_min_par.Io.Metis.Offsets.{IsOffsets, IsOffsets-append, isolated_below-append_last}
use ka_min_par.Io.Metis.Shape.{
  HasWeights, HasWeights-append, HasWeights-none, IsReading, some_injective, read_edges-IsReading,
}

-- The variables between two lines, after `i` nodes.
record IsBetween (h : GraphHeader) (i : ℕ) (r : Reading) : Type 0 where
  count : length r.nodes ≡ i
  offsets : IsOffsets (r.nodes ++ length r.edges ∷ [])
  flag : r.info.has_isolated_nodes ≡ isolated_below (r.nodes ++ length r.edges ∷ []) i
  node_part :
      HasWeights h.has_node_weights i r.node_weights r.unit_node_weights r.info.total_node_weight
  edge_part :
      HasWeights h.has_edge_weights
        (length r.edges)
        r.edge_weights
        r.unit_edge_weights
        r.info.total_edge_weight

module _ (h : GraphHeader) (i : ℕ) (nodes : List ℕ) (isolated : Bool) (bound : ℕ) where
  read_node_weight-IsReading :
      (r t : Reading)
      → IsReading h nodes isolated i bound r
      → read_node_weight h r ≡ t
      → IsReading h nodes isolated (suc i) bound t
  unfolding read_node_weight
  read_node_weight-IsReading r t v e =
      let weight = (scan_uint r.rest).0 % 2 ^ 32 in
      elim (Bool-cases h.has_node_weights) [
        | inl weights ↦
            let weighted = rw weights at e in
            subst (IsReading h nodes isolated (suc i) bound) weighted (record {
              offsets = v.offsets;
              flag = v.flag;
              longer = v.longer;
              node_part = HasWeights-append _ _ _ _ _ weight weights v.node_part;
              edge_part = v.edge_part;
            })
        | inr no_weights ↦
            let plain : r ≡ t = rw no_weights at e in
            subst (IsReading h nodes isolated (suc i) bound) plain (record {
              offsets = v.offsets;
              flag = v.flag;
              longer = v.longer;
              node_part = HasWeights-none _ _ _ _ _ _ no_weights v.node_part;
              edge_part = v.edge_part;
            })
      ]

module _ (behind : Option ℕ) (h : GraphHeader) where
  read_node-IsBetween :
      (i : ℕ) (r t : Reading)
      → IsBetween h i r
      → read_node behind h r ≡ some t
      → IsBetween h (suc i) t
  unfolding read_node
  read_node-IsBetween i r t v e =
      let before = length r.edges in
      let nodes = r.nodes ++ before ∷ [] in
      let flag = r.info.has_isolated_nodes in
      let (s, skipped, h1) = bind_some (skip_comment_lines behind r.rest) _ t e in
      let start : Reading = record r { rest = s; nodes = nodes } in
      let weighted = read_node_weight h start in
      let (read, loop, h3) =
        bind_some (read_edges behind (suc (length weighted.rest)) h weighted) _ t h1 in
      let (line, line_end, h4) = bind_some (skip_line_end behind read.rest) _ t h3 in
      let started : IsReading h nodes flag i before start = record {
        offsets = refl;
        flag = refl;
        longer = omega arith;
        node_part = v.node_part;
        edge_part = v.edge_part;
      } in
      let w =
        read_edges-IsReading h nodes flag (suc i) before behind (suc (length weighted.rest))
          weighted read
          (read_node_weight-IsReading h i nodes flag before start weighted started refl) loop in
      subst (IsBetween h (suc i)) (some_injective h4) (record {
        count =
            subst (λ ns. length ns ≡ suc i) (sym w.offsets)
              (omega (arith, length-append r.nodes (before ∷ []), v.count));
        offsets =
            subst (λ ns. IsOffsets (ns ++ length read.edges ∷ [])) (sym w.offsets)
              (IsOffsets-append r.nodes before (length read.edges) v.offsets w.longer);
        flag =
            subst
              (λ ns.
                (read.info.has_isolated_nodes || before == length read.edges)
                ≡ isolated_below (ns ++ length read.edges ∷ []) (suc i))
              (sym w.offsets)
              (ap (λ b. b || before == length read.edges) (w.flag ∙ v.flag)
                ∙ sym (isolated_below-append_last r.nodes before (length read.edges) i v.count));
        node_part = w.node_part;
        edge_part = w.edge_part;
      })

  read_nodes-IsBetween :
      (count i : ℕ) (r t : Reading)
      → IsBetween h i r
      → read_nodes behind count h r ≡ some t
      → IsBetween h (i + count) t
  unfolding read_nodes
  read_nodes-IsBetween zero i r t v e =
      let same : i ≡ i + 0 = omega arith in
      subst (λ j. IsBetween h j t) same (subst (IsBetween h i) (some_injective e) v)
  read_nodes-IsBetween (suc count) i r t v e =
      let (s, one, others) = bind_some (read_node behind h r) (read_nodes behind count h) t e in
      let same : suc i + count ≡ i + suc count = omega arith in
      subst (λ j. IsBetween h j t) same
        (read_nodes-IsBetween count (suc i) s t (read_node-IsBetween i r s v one) others)

-- The arrays of a graph, with the totals that the graph's constructor computes from them.
pub record IsRead (a : Arrays) (info : GraphInfo) : Type 0 where
  pub not_empty : 0 < length a.nodes
  pub offsets : IsOffsets a.nodes
  pub last : get_or a.nodes (length a.nodes - 1) 0 ≡ length a.edges
  pub node_weights : (length a.node_weights ≡ 0) ⊎ (length a.node_weights ≡ length a.nodes - 1)
  pub edge_weights : (length a.edge_weights ≡ 0) ⊎ (length a.edge_weights ≡ length a.edges)
  pub node_total : info.total_node_weight ≡ total_node_weight_of a.nodes a.node_weights % 2 ^ 32
  pub edge_total : info.total_edge_weight ≡ total_edge_weight_of a.edges a.edge_weights % 2 ^ 32
  pub isolated : info.has_isolated_nodes ≡ isolated_below a.nodes (length a.nodes - 1)

-- What is kept of weights, and the total that goes with it.
kept_weights :
    (promised : Bool) (count : ℕ) (weights : List ℕ) (unit : Bool) (total : ℕ)
    → HasWeights promised count weights unit total
    → let kept : List ℕ = if unit then [] else weights in
      ((length kept ≡ 0) ⊎ (length kept ≡ count))
      × ((if unit then count % 2 ^ 32 else total)
          ≡ (if is_empty kept then count else accumulate kept) % 2 ^ 32)
kept_weights promised count weights true total v = (inl refl, refl)
kept_weights promised count [] false total v = let ones = v.ones in absurd cc
kept_weights true count (w ∷ ws) false total v = (inr v.size, v.sum)
kept_weights false count (w ∷ ws) false total v = absurd (omega (arith, v.size))

finish_reading-IsRead :
    (h : GraphHeader) (r : Reading) (a : Arrays) (info : GraphInfo)
    → IsBetween h h.number_of_nodes r
    → finish_reading h r ≡ some (a, info)
    → IsRead a info
unfolding finish_reading
finish_reading-IsRead h r a info v e =
    let m = length r.edges in
    let (even, same) = assert-some (m == edge_capacity h) _ (a, info) e in
    let exact : edge_capacity h ≡ m = ground arith in
    let size : length (r.nodes ++ m ∷ []) ≡ suc h.number_of_nodes =
      omega (arith, length-append r.nodes (m ∷ []), v.count) in
    let n : length (r.nodes ++ m ∷ []) - 1 ≡ h.number_of_nodes = omega arith in
    let nodes = kept_weights _ _ _ _ _ v.node_part in
    let edges = kept_weights _ _ _ _ _ v.edge_part in
    subst (λ (p : Arrays × GraphInfo). IsRead p.0 p.1) (some_injective same)
      (record {
        not_empty = omega arith;
        offsets = v.offsets;
        last =
            ap (λ i. get_or (r.nodes ++ m ∷ []) i 0) (n ∙ sym v.count)
            ∙ get_or-append_last r.nodes m 0;
        node_weights = rw n nodes.0;
        edge_weights = edges.0;
        node_total = rw n nodes.1;
        edge_total = rw exact edges.1;
        isolated = rw n v.flag;
      })

HasWeights-start : (promised : Bool) → HasWeights promised 0 [] true 0
HasWeights-start true = record { size = refl; ones = refl; sum = refl }
HasWeights-start false = record { size = refl; ones = refl; sum = refl }

start_reading-IsBetween : (h : GraphHeader) (s : List ℕ) → IsBetween h 0 (start_reading s)
start_reading-IsBetween h s = record {
  count = refl;
  offsets = record { first = refl; ascending = λ u p. absurd (omega arith) };
  flag = refl;
  node_part = HasWeights-start h.has_node_weights;
  edge_part = HasWeights-start h.has_edge_weights;
}

-- Whatever text the reader of METIS files accepts, its arrays are those of a graph: the offsets start
-- at 0, ascend, and end at the number of edges; there is a weight for each node or none, and one for
-- each edge or none; the totals are, in 32 bits, those that the graph's constructor computes from the
-- arrays; and the mark for isolated nodes says whether two neighbouring offsets are equal.
pub read-IsRead :
    (page_size : ℕ) (s : List ℕ) (a : Arrays) (info : GraphInfo)
    → read page_size s ≡ some (a, info)
    → IsRead a info
unfolding read
read-IsRead page_size s a info e =
    let behind = behind_file page_size s in
    let (header, first_line, h1) = bind_some (read_graph_header behind s) _ (a, info) e in
    let h = header.0 in
    let same : 0 + h.number_of_nodes ≡ h.number_of_nodes = omega arith in
    let (sizes, h2) = assert-some _ _ (a, info) h1 in
    let (r, nodes, h3) =
      bind_some (read_nodes behind h.number_of_nodes h (start_reading header.1)) (finish_reading h)
        (a, info) h2 in
    let start : IsBetween h 0 (start_reading header.1) = start_reading-IsBetween h header.1 in
    finish_reading-IsRead h r a info
      (subst (λ i. IsBetween h i r) same
        (read_nodes-IsBetween behind h h.number_of_nodes 0 (start_reading header.1) r start nodes))
      h3
