-- ===== src/Lib.antt =====
-- KaMinPar, a shared-memory graph partitioner: its data structures, its measures, and parts of its
-- coarsening, initial partitioning and refinement.
--
-- The partitioner coarsens a graph, partitions the coarsest graph and refines the partition on the
-- way back. All of it works on a static graph (Graph), on a partition of a graph with the weights of
-- its blocks (PartitionedGraph), and on priority queues of nodes; the metrics judge a partition.
--
-- The parts and their code:
--   * Prelude: lists with the source's out-of-range values written out, sums over an initial segment,
--     loops and counters.
--   * Math (kaminpar/utility/math.h): floor_log2, ceil_log2, is_power_of_2, split_integral and the
--     rounding to powers of two. The width of the type is an argument.
--   * Graph (class Graph of kaminpar/datastructure/graph.h and graph.cc): Graph is the record of the
--     class's members, construct its constructor; the degree buckets use Math.
--     Graph.Validate is validate_graph of kaminpar/algorithm/graph_utils.cc, where a failed
--     assertion is `false`.
--   * Partition (class PartitionedGraph of the same files): construct, set_block, change_k,
--     init_block_weights and init_block_weights_seq over a Graph. A failed assertion is `none`.
--   * Metrics (kaminpar/utility/metrics.cc): edge_cut of both tags, total_overload, is_balanced over
--     a PartitionedGraph.
--   * Heap (kaminpar/datastructure/binary_heap.h): the comparators as an interface of a strict order
--     with an extreme value, and the loops that both heaps share: sift_up and sift_down on a 4-ary
--     tree in a list.
--   * DynamicHeap (class DynamicBinaryHeap) and BinaryHeap (class BinaryHeap) of that file: one
--     function for each operation. BinaryHeap keeps the position of each id in id_pos.
--   * Parallel (kaminpar/parallel.h): accumulate and max_element, which Graph's parallel constructor
--     calls, for every way in which the range is cut into parts.
--   * Marker (kaminpar/datastructure/marker.h): marks by round, with the masks of 32 bits.
--   * Extend: copy_subgraph_partitions and fill_final_k of kaminpar/algorithm/graph_utils.cc, which
--     extend a partition by partitions of its blocks; they use Math's split_integral and Partition.
--   * Isolated: find_isolated_nodes_info and revert_isolated_nodes_removal of that file, with the
--     block weights of Partition.
--   * Bipartition: Bipartitioner, RandomBipartitioner and GreedyGraphGrowingBipartitioner of
--     kaminpar/initial_partitioning (i_bipartitioner.h, random_bipartitioner.h,
--     greedy_graph_growing_bipartitioner.cc). Bipartition.Greedy uses BinaryHeap, over integers
--     as gains, and Marker.
--   * Coarsener (class InitialCoarsener of initial_coarsener.h and .cc there): the clustering by
--     label propagation over a Graph, with a FastResetArray of ratings. Chunks is the random order
--     in which nodes are visited. The interleaved steps are defined there too. The weight of a
--     cluster is kept as its bit-field keeps it, modulo 2^30.
--   * Refiner (class InitialTwoWayFMRefiner of kaminpar/initial_partitioning/initial_refiner.h):
--     the policies and the state of a round; Refiner.Moves has the gains and one move, on two
--     BinaryHeaps and a Marker, Refiner.Search the loop, the rollback, round and refine. The
--     partition is that of Partition, the cut that of Metrics.
--   * Balancer (kaminpar/refinement/parallel_balancer.cc): moves of nodes to blocks with room.
--     Balancer.Steps has a step for each access of a thread to the shared block weights, Balancer
--     itself the functions of a thread that runs alone.
--   * Bipartition.Bfs (bfs_bipartitioner.h there): the breadth-first bipartitioner on two Queues and a
--     Marker with three marks; its five strategies are a data type.
--   * Furthest (find_furthest_away_node of kaminpar/algorithm/graph_utils.cc): the search for a node
--     far from another, on a Queue and a Marker.
--   * Io (kaminpar/io.cc): the tokenizer on the list of a file's characters; Io.Metis reads graphs,
--     Io.Metis.Write writes them, and Io.Parts has the files of partitions. The page size is an
--     argument: the byte behind a file is 0, unless the file fills its last page.
--   * Hierarchy (kaminpar/initial_partitioning/sequential_graph_hierarchy.cc): the coarse graphs of
--     a graph as a stack, and the projection of a partition to the next finer graph.
--   * SparseMap (kaminpar/datastructure/sparse_map.h), Queue (queue.h) and FastResetArray
--     (fast_reset_array.h beside it): the containers of the algorithms. The contents of fresh memory
--     are an argument of SparseMap's allocate; the abstract views are a partial function of the keys
--     (lookup), a list (contents), and an array.
--
-- Loops: a loop over a range is a fold over that range. sift_up runs with the position as fuel,
-- since a parent is smaller than its child, and sift_down with the number of elements, since a child
-- is larger; bit_length runs with the width of the type, fill_final_k with the number of blocks, and
-- the loop over target blocks with the number of these. The local search runs with one test more
-- than there are nodes, since each move marks a node. The breadth-first search takes a node from a
-- queue in each round, and each node is in each queue at most once. The loops of the readers run
-- with one test more than there are characters left, since each round reads one.
-- That these are enough for the local search and for the reader of partitions is proved against a
-- relation of runs (Run in Refiner.Fuel and Io.Parts), in which a loop that is cut short has no run.
--
-- Numbers: ids, weights and counters are natural numbers, gains are integers. Weights are thus not
-- negative, and sums are taken to fit their types, except where the code checks it: an edge cut
-- above the largest EdgeWeight is refused. The weights and totals of the METIS reader and the weights
-- of clusters wrap as they do in the code. Degrees are bounded where a width matters.
--
-- Threads: a parallel loop takes the schedule, the list of nodes that each thread visits in its
-- order, as an argument, and the theorems hold for every schedule that visits each node once. The
-- balancer's moves are a step relation, in which a compare-exchange can fail at any time; each
-- thread has the nodes of one block.
--
-- Random numbers, shuffles and permutations are arguments: any bits, any index in its range, any
-- order of the given entries.
--
-- Not modelled: the contraction of clusterings, the refinement by label propagation, the queues of
-- the balancer, the partitioning schemes, the extraction and permutation of graphs, the other
-- sparse maps, the opening and unmapping of files, options, logging and timing, and whatever
-- computes with doubles (imbalance, is_feasible, percentile, relative gains, the adaptive stopping
-- policy, the limits on block weights).
mod Prelude
pub mod Math
pub mod Graph
pub mod Partition
pub mod Metrics
pub mod SparseMap
pub mod Queue
pub mod FastResetArray
pub mod Hierarchy
pub mod Parallel
pub mod Heap
pub mod DynamicHeap
pub mod BinaryHeap
pub mod Chunks
pub mod Marker
pub mod Extend
pub mod Bipartition
pub mod Coarsener
pub mod Balancer
pub mod Refiner
pub mod Isolated
pub mod Io
pub mod Furthest
