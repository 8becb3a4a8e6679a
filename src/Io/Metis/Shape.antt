-- ===== src/Io/Metis/Shape.antt =====
-- What the reader promises of its arrays, whatever the file holds.
use ka_min_par.Prelude.{
  Option, ℕ, zero, suc, ◌+◌, ◌-◌, ◌%◌, ◌^◌, ◌≤◌, ◌≡◌, refl, sym, ◌∙◌, inl, inr, Bool, true, false,
  ◌&&◌, some, List, [], ◌∷◌, ◌++◌, arith, ltb, ◌==◌, if◌then◌else◌, Bool-cases, assert-some,
  bind_some, length, length-append, ◌>>=◌,
}
use mathlib.Core.Path.{subst}
use ka_min_par.Graph.{accumulate}
use ka_min_par.Io.{current, is_digit, scan_uint}
use ka_min_par.Io.Metis.{
  edge_capacity, GraphHeader, Reading, read_edge, read_edges, read_edge_weight,
}
use ka_min_par.Io.Metis.Prefix.{all_ones, all_ones-append, accumulate-append}

-- Weights that were read, for `count` entries if the header promises weights, with their total and
-- the flag for unit weights.
pub record HasWeights (promised : Bool) (count : ℕ) (weights : List ℕ) (unit : Bool) (total : ℕ)
    : Type 0 where
  pub size : length weights ≡ (if promised then count else 0)
  pub ones : unit ≡ all_ones weights
  pub sum : total ≡ accumulate weights % 2 ^ 32

-- The variables within the line of a node, whose loop started with `bound` edges.
pub record IsReading (h : GraphHeader) (nodes : List ℕ) (isolated : Bool) (j bound : ℕ)
    (r : Reading) : Type 0 where
  pub offsets : r.nodes ≡ nodes
  pub flag : r.info.has_isolated_nodes ≡ isolated
  pub longer : bound ≤ length r.edges
  pub node_part :
      HasWeights h.has_node_weights j r.node_weights r.unit_node_weights r.info.total_node_weight
  pub edge_part :
      HasWeights h.has_edge_weights
        (length r.edges)
        r.edge_weights
        r.unit_edge_weights
        r.info.total_edge_weight

pub HasWeights-append :
    (promised : Bool) (count : ℕ) (weights : List ℕ) (unit : Bool) (total w : ℕ)
    → promised ≡ true
    → HasWeights promised count weights unit total
    → HasWeights promised (suc count) (weights ++ w ∷ []) (unit && w == 1) ((total + w) % 2 ^ 32)
HasWeights-append promised count weights unit total w flag v =
    let size : length weights ≡ count = v.size ∙ rw flag refl in
    record {
      size = rw flag (omega (arith, length-append weights (w ∷ []), size));
      ones = rw v.ones (sym (all_ones-append weights w));
      sum = omega (arith, v.sum, accumulate-append weights w);
    }

-- Without weights the number of entries does not matter.
pub HasWeights-none :
    (promised : Bool) (count other : ℕ) (weights : List ℕ) (unit : Bool) (total : ℕ)
    → promised ≡ false
    → HasWeights promised count weights unit total
    → HasWeights promised other weights unit total
HasWeights-none promised count other weights unit total flag v =
    let size : length weights ≡ 0 = v.size ∙ rw flag refl in
    record { size = rw flag size; ones = v.ones; sum = v.sum }

pub some_injective {ℓ} : {A : Type ℓ} {x y : A} → some x ≡ some y → x ≡ y
some_injective h = cc

module _ (h : GraphHeader) (nodes : List ℕ) (isolated : Bool) (j bound : ℕ) where
  -- One more edge, with what its weight adds.
  IsReading-edge :
      (r : Reading) (rest edge_weights : List ℕ) (id : ℕ) (unit : Bool) (total : ℕ)
      → IsReading h nodes isolated j bound r
      → HasWeights h.has_edge_weights (suc (length r.edges)) edge_weights unit total
      → IsReading h nodes isolated j bound (record r {
        rest = rest;
        edges = r.edges ++ id ∷ [];
        edge_weights = edge_weights;
        unit_edge_weights = unit;
        info = record r.info { total_edge_weight = total };
      })
  IsReading-edge r rest edge_weights id unit total v w =
      let more : length (r.edges ++ id ∷ []) ≡ suc (length r.edges) =
        omega (arith, length-append r.edges (id ∷ [])) in
      record {
        offsets = v.offsets;
        flag = v.flag;
        longer = omega (arith, v.longer, more);
        node_part = v.node_part;
        edge_part = rw more w;
      }

  read_edge-IsReading :
      (r t : Reading)
      → IsReading h nodes isolated j bound r
      → read_edge h r ≡ some t
      → IsReading h nodes isolated j bound t
  unfolding read_edge read_edge_weight
  read_edge-IsReading r t v e =
      let target = scan_uint r.rest in
      let scanned = scan_uint target.1 in
      let weight = scanned.0 % 2 ^ 32 in
      let total = (r.info.total_edge_weight + weight) % 2 ^ 32 in
      let id = (target.0 + (2 ^ 64 - 1)) % 2 ^ 64 % 2 ^ 32 in
      let read : Reading = record r { rest = target.1; edges = r.edges ++ id ∷ [] } in
      let (room, one) =
        assert-some (ltb (length r.edges) (edge_capacity h))
          (some (if h.has_edge_weights then read_edge_weight read else read)) t e in
      elim (Bool-cases h.has_edge_weights) [
        | inl weights ↦
            let weighted : some (read_edge_weight read) ≡ some t = rw weights at one in
            subst (IsReading h nodes isolated j bound) (some_injective weighted) (
              IsReading-edge r scanned.1 (r.edge_weights ++ weight ∷ []) id
                (r.unit_edge_weights && weight == 1) total v
                (HasWeights-append _ _ _ _ _ weight weights v.edge_part))
        | inr no_weights ↦
            let plain : some read ≡ some t = rw no_weights at one in
            subst (IsReading h nodes isolated j bound) (some_injective plain) (
              IsReading-edge r target.1 r.edge_weights id r.unit_edge_weights
                r.info.total_edge_weight v (HasWeights-none _ _ _ _ _ _ no_weights v.edge_part))
      ]

  pub read_edges-IsReading :
      (behind : Option ℕ) (fuel : ℕ) (r t : Reading)
      → IsReading h nodes isolated j bound r
      → read_edges behind fuel h r ≡ some t
      → IsReading h nodes isolated j bound t
  unfolding read_edges
  read_edges-IsReading behind zero r t v e = absurd cc
  read_edges-IsReading behind (suc fuel) r t v e =
      let (c, at_c, chosen) = bind_some (current behind r.rest) _ t e in
      elim (Bool-cases (is_digit c)) [
        | inl digit ↦
            let more : (read_edge h r >>= read_edges behind fuel h) ≡ some t = rw digit at chosen in
            let (s, one, others) = bind_some (read_edge h r) (read_edges behind fuel h) t more in
            read_edges-IsReading behind fuel s t (read_edge-IsReading r s v one) others
        | inr stop ↦
            let last : some r ≡ some t = rw stop at chosen in
            subst (IsReading h nodes isolated j bound) (some_injective last) v
      ]
