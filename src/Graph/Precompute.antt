-- ===== src/Graph/Precompute.antt =====
-- graphPrecomputePathsToNode of code/gsc_graph.cpp: one reverse Dijkstra from a goal, and the cache of
-- at most eight shortest-path trees.
pub mod Arcs
pub mod Network
pub mod Route
pub mod Relax
pub mod Rounds
pub mod Ends
pub mod Shortest
pub mod Ways
pub mod Cache
use zk_libcod.Prelude.{
  ℕ, zero, suc, ◌+◌, Bool, true, false, not, ◌||◌, List, [], ◌∷◌, ◌++◌, Option, none, some, ltb,
  leb, ◌==◌, if◌then◌else◌, length, get_or, set, replicate, drop,
}
use zk_libcod.Prelude.Int.{ℤ, pos}
use zk_libcod.Float.{FloatOps}
use zk_libcod.Heap.{GraphHeapEntry, heap_push, heap_pop}
use zk_libcod.Script.{
  Value, int_param, stack_get_params, optional_defined_int, push_undefined, push_bool,
}
use zk_libcod.Graph.{
  Graphs, AStarGraph, GraphNode, GraphEdge, GraphPrecompute, graph_by_id, no_graph, node_at, skips,
  find_precompute,
}
use zk_libcod.Graph.Reply.{
  Reply, answer, refuse, go_on, ◌>>=◌, ◌>>◌, or_return, return_if, settle, bad_parameters, bad_type,
  no_such_graph,
}
use zk_libcod.Graph.Nodes.{live_index}

-- The vectors of the search. `none` in `next_hop` is the source's -1.
pub record Search (F : Type 0) : Type 0 where
  pub dist : List F
  pub next_hop : List (Option ℕ)
  pub settled : List Bool
  pub heap : List (GraphHeapEntry F)

-- For each node, the cost and the source of every edge into it.
abbrev pub Incoming : Type 0 → Type 0
Incoming F = List (List (GraphHeapEntry F))

module _ {F : Type 0} where
  abbrev pub arcs_into : Incoming F → ℕ → List (GraphHeapEntry F)
  arcs_into incoming v = get_or incoming v []

  -- `incoming[to].push_back(ie)`
  pub push_arc : Incoming F → ℕ → GraphHeapEntry F → Incoming F
  push_arc incoming to arc = set incoming to (arcs_into incoming to ++ arc ∷ [])

  -- The loop over the edges of node `i`.
  pub add_arcs : ℤ → ℕ → List (GraphEdge F) → Incoming F → Incoming F
  add_arcs mask i [] incoming = incoming
  add_arcs mask i (e ∷ es) incoming = add_arcs mask i es (
      if skips mask e.type
      then incoming
      else push_arc incoming e.to (record { f = e.cost; node = i }))

  -- The loop over the nodes from `i` on.
  pub add_all_arcs : ℤ → ℕ → List (GraphNode F) → Incoming F → Incoming F
  add_all_arcs mask i [] incoming = incoming
  add_all_arcs mask i (n ∷ ns) incoming =
      add_all_arcs mask (suc i) ns
        (if n.removed then incoming else add_arcs mask i n.edges incoming)

  pub incoming_arcs : ℤ → List (GraphNode F) → Incoming F
  incoming_arcs mask nodes = add_all_arcs mask 0 nodes (replicate (length nodes) [])

  -- The number of edges that the search may relax.
  pub arc_count : Incoming F → ℕ
  arc_count [] = 0
  arc_count (arcs ∷ rest) = length arcs + arc_count rest

module _ {F : Type 0} ⦃fl : FloatOps F⦄ where
  open fl use {fzero, fadd, flt_max, flt, feq}

  abbrev pub dist_at : Search F → ℕ → F
  dist_at s v = get_or s.dist v flt_max

  abbrev pub hop_at : Search F → ℕ → Option ℕ
  hop_at s v = get_or s.next_hop v none

  abbrev pub is_settled : Search F → ℕ → Bool
  is_settled s v = get_or s.settled v false

  -- The body of the loop over the edges into `cur`.
  pub relax : ℕ → Search F → GraphHeapEntry F → Search F
  relax cur s arc =
      let tentative = fadd (dist_at s cur) arc.f in
      if flt tentative (dist_at s arc.node)
      then record s {
        dist = set s.dist arc.node tentative;
        next_hop = set s.next_hop arc.node (some cur);
        heap = heap_push s.heap tentative arc.node;
      }
      else s

  pub relax_all : ℕ → List (GraphHeapEntry F) → Search F → Search F
  relax_all cur [] s = s
  relax_all cur (arc ∷ arcs) s = relax_all cur arcs (relax cur s arc)

  -- One round of the `while` loop, on a heap that is not empty. `blocked` says which nodes are skip-typed.
  pub round : Incoming F → (ℕ → Bool) → Search F → Search F
  round incoming blocked s =
      let (top, rest) = heap_pop s.heap in
      let popped : Search F = record s { heap = rest } in
      let cur = top.node in
      let closed : Search F = record popped { settled = set s.settled cur true } in
      if is_settled s cur || not (feq top.f (dist_at s cur))
      then popped
      else (if blocked cur then closed else relax_all cur (arcs_into incoming cur) closed)

  pub rounds : Incoming F → (ℕ → Bool) → ℕ → Search F → Search F
  rounds incoming blocked zero s = s
  rounds incoming blocked (suc fuel) s =
      let rest = rounds incoming blocked fuel (round incoming blocked s) in
      if length s.heap == 0 then s else rest

  pub start_search : ℕ → ℕ → Search F
  start_search n goal = record {
    dist = set (replicate n flt_max) goal fzero;
    next_hop = replicate n none;
    settled = replicate n false;
    heap = heap_push [] fzero goal;
  }

  -- Each round takes an entry off the heap, and each edge puts at most one on it.
  pub reverse_dijkstra : Incoming F → (ℕ → Bool) → ℕ → ℕ → Search F
  reverse_dijkstra incoming blocked n goal =
      rounds incoming blocked (suc (arc_count incoming)) (start_search n goal)

  abbrev pub no_precompute : GraphPrecompute F
  no_precompute = record {
    goal = pos 0;
    skip_node_types = pos 0;
    skip_edge_types = pos 0;
    cost_to_goal = [];
    next_hop = [];
  }

  -- `node.type & skipNodeTypes`, if the mask is set.
  pub is_blocked : AStarGraph F → ℤ → ℕ → Bool
  is_blocked graph mask v = skips mask (node_at graph.nodes v).type

  pub shortest_path_tree : AStarGraph F → ℕ → ℤ → ℤ → GraphPrecompute F
  shortest_path_tree graph goal skip_nodes skip_edges =
      let found =
        reverse_dijkstra (incoming_arcs skip_edges graph.nodes) (is_blocked graph skip_nodes)
          (length graph.nodes) goal in
      record {
        goal = pos goal;
        skip_node_types = skip_nodes;
        skip_edge_types = skip_edges;
        cost_to_goal = found.dist;
        next_hop = found.next_hop;
      }

  -- Store or refresh the entry: at most eight are kept, the oldest goes first.
  pub put_precompute : AStarGraph F → GraphPrecompute F → Option ℕ → AStarGraph F
  put_precompute graph tree (some i) = record graph { precomputes = set graph.precomputes i tree }
  put_precompute graph tree none =
      let pcs = graph.precomputes in
      record graph { precomputes = (if leb 8 (length pcs) then drop 1 pcs else pcs) ++ tree ∷ [] }

  pub store_precompute : AStarGraph F → GraphPrecompute F → AStarGraph F
  unfolding put_precompute
  store_precompute graph tree =
      put_precompute graph tree
        (find_precompute graph tree.goal tree.skip_node_types tree.skip_edge_types)

  abbrev fail : Reply F
  fail = refuse bad_parameters push_undefined

  pub gsc_graph_precompute_paths_to_node : Graphs F → List (Value F) → Graphs F × Reply F
  gsc_graph_precompute_paths_to_node gs args = settle gs do
    p ← or_return (stack_get_params (int_param ∷ int_param ∷ []) args) fail
    skip_nodes ← or_return (optional_defined_int args 2 (pos 0)) (refuse bad_type push_undefined)
    skip_edges ← or_return (optional_defined_int args 3 (pos 0)) (refuse bad_type push_undefined)
    g ← or_return (graph_by_id gs p.0) (refuse no_such_graph push_undefined)
    let graph = get_or gs g no_graph
    goal ← or_return (live_index graph p.1.0) (answer (push_bool false))
    let tree = shortest_path_tree graph goal skip_nodes skip_edges
    go_on (set gs g (store_precompute graph tree), answer (push_bool true))
