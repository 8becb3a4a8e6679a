-- ===== src/Hierarchy.antt =====
-- SequentialGraphHierarchy of kaminpar/initial_partitioning/sequential_graph_hierarchy.cc: the coarse
-- graphs of a graph with the mappings onto them. The back of a vector is the head of the list here.
-- A failed assertion is the fault `none`; the assertion that compares the addresses of the coarsest
-- graph and of the graph of the partition is a hypothesis of the theorems.
pub mod Project
mod Tests
use ka_min_par.Prelude.{
  ℕ, Bool, Option, none, some, List, [], ◌∷◌, ◌==◌, length, get_or, assert, ◌>>=◌,
}
use ka_min_par.Graph.{Graph, n}
use ka_min_par.Partition.{PartitionedGraph, block, tabulate, construct}

pub record Hierarchy : Type 0 where
  pub finest_graph : Graph
  pub coarse_mappings : List (List ℕ)
  pub coarse_graphs : List Graph

-- The first graph of the list, the back of the vector, if there is one.
abbrev pub back_or : List Graph → Graph → Graph
back_or [] finest = finest
back_or (g ∷ _) finest = g

abbrev pub coarsest_graph : Hierarchy → Graph
coarsest_graph h = back_or h.coarse_graphs h.finest_graph

unfoldable pub take_coarse_graph : Hierarchy → Graph → List ℕ → Option Hierarchy
take_coarse_graph h c_graph c_mapping = assert (n (coarsest_graph h) == length c_mapping) (
    some (record h {
      coarse_mappings = c_mapping ∷ h.coarse_mappings;
      coarse_graphs = c_graph ∷ h.coarse_graphs;
    }))

-- The partition of the finer graph: each node is in the block of its coarse node.
abbrev pub project : PartitionedGraph → ℕ → List ℕ → List ℕ
project p count c_mapping = tabulate count 0 (λ u. block p (get_or c_mapping u 0))

-- pop_and_project: the hierarchy without its coarsest graph, and the partition of what is the
-- coarsest graph then.
unfoldable pub pop_and_project :
    Hierarchy → PartitionedGraph → Option (Hierarchy × PartitionedGraph)
pop_and_project h p = elim h.coarse_graphs [
  | [] ↦ none
  | _ ∷ finer ↦ elim h.coarse_mappings [
    | [] ↦ none
    | c_mapping ∷ mappings ↦
        let graph = back_or finer h.finest_graph in
        assert (n graph == length c_mapping) (
          construct graph p.k (project p (n graph) c_mapping) p.final_k >>= λ q.
          some (record h { coarse_mappings = mappings; coarse_graphs = finer }, q))
  ]
]
