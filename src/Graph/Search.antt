-- ===== src/Graph/Search.antt =====
-- The A* search of gsc_graph_find_path of code/gsc_graph.cpp, and graphPushPath.
pub mod Chain
pub mod Start
pub mod Keeps
pub mod Rounds
pub mod Full
pub mod Complete
pub mod Paths
use zk_libcod.Prelude.{
  ℕ, zero, suc, ◌+◌, ◌-◌, ◌%◌, Bool, true, false, not, ◌&&◌, ◌||◌, List, [], ◌∷◌, ◌++◌, Option,
  none, some, map, ltb, leb, ◌==◌, if◌then◌else◌, length, get_or, set, take, replicate,
}
use zk_libcod.Prelude.Int.{ℤ, pos, leb_ℤ, ltb_ℤ, signed32}
use zk_libcod.Float.{FloatOps}
use zk_libcod.Heap.{GraphHeapEntry, heap_push, heap_pop}
use zk_libcod.Script.{
  Value, integer, int_of, int_param, stack_get_params, stack_get_param_object, optional_defined_int,
  param_is_undefined, push_undefined, push_array,
}
use zk_libcod.Graph.{
  Graphs, AStarGraph, GraphNode, GraphEdge, GraphStats, GraphScratch, GraphPrecompute, Dvars, u32,
  graph_by_id, no_graph, node_index, node_at, edge_distance, find_precompute, skips,
}
use zk_libcod.Graph.Precompute.{no_precompute}
use zk_libcod.Graph.Wellformed.{total}
use zk_libcod.Graph.Reply.{
  Reply, answer, refuse, go_on, ◌>>=◌, ◌>>◌, or_return, return_if, settle, bad_parameters, bad_type,
  no_such_graph, out_of_range, removed_node,
}
use zk_libcod.Graph.Scratch.{is_seen, is_closed, close, g_at, f_at, parent_at}

-- What a search is asked.
pub record Query (F : Type 0) : Type 0 where
  pub start : ℕ
  pub goal : ℕ
  pub skip_nodes : ℤ
  pub skip_edges : ℤ
  pub max_expansions : ℤ
  pub weight : F

-- The variables of the loop.
pub record Progress (F : Type 0) : Type 0 where
  pub scratch : GraphScratch F
  pub best_node : ℕ
  pub best_h : F
  pub expansions : ℕ

-- How a round ends: it goes on, the goal was taken off the heap, or the budget is spent.
pub data Round (F : Type 0) : Type 0 where
  running found spent : Progress F → Round F

-- How the loop ends. `out_of_fuel` is the model's own.
pub data Ending (F : Type 0) : Type 0 where
  reached partial : Progress F → Ending F
  out_of_fuel : Ending F

-- The loop of graphPushPath, from `cur` back to `start` by the parents; what was pushed stands after it.
pub path_back : ℕ → List ℕ → ℕ → ℕ → List ℕ → List ℕ
path_back zero parent start cur path = path
path_back (suc safety) parent start cur path =
    let rest = path_back safety parent start (get_or parent cur 0) (cur ∷ path) in
    if cur == start then cur ∷ path else rest

module _ {F : Type 0} where
  -- graphPushPath: at most one node more than the graph has.
  pub push_path : AStarGraph F → GraphScratch F → ℕ → ℕ → List ℕ
  unfolding path_back
  push_path graph s node start = path_back (suc (length graph.nodes)) s.parent start node []

module _ {F : Type 0} ⦃fl : FloatOps F⦄ where
  open fl use {fzero, fadd, fmul, flt_max, of_int, flt, fle, feq}

  module _ (graph : AStarGraph F) (q : Query F) where
    -- The distance to the goal.
    abbrev pub heuristic : ℕ → F
    heuristic v = edge_distance (node_at graph.nodes v).origin (node_at graph.nodes q.goal).origin

    -- The writes for a node whose cost has fallen, and the push.
    pub reach : ℕ → GraphEdge F → F → Progress F → Progress F
    reach cur edge tentative p =
        let s = p.scratch in
        let next = edge.to in
        let h = heuristic next in
        let f = fadd tentative (fmul h q.weight) in
        let closer = flt h p.best_h in
        record p {
          scratch = record s {
            g_score = set s.g_score next tentative;
            f_score = set s.f_score next f;
            parent = set s.parent next cur;
            stamp = set s.stamp next s.search_id;
            heap = heap_push s.heap f next;
          };
          best_node = if closer then next else p.best_node;
          best_h = if closer then h else p.best_h;
        }

    -- The tests of the three `continue`s.
    abbrev pub is_barred : GraphScratch F → GraphEdge F → Bool
    is_barred s edge =
        skips q.skip_edges edge.type
        || skips q.skip_nodes (node_at graph.nodes edge.to).type
        || is_closed s edge.to

    -- The body of the loop over the edges of `cur`.
    pub try_edge : ℕ → Progress F → GraphEdge F → Progress F
    unfolding reach
    try_edge cur p edge =
        let s = p.scratch in
        let tentative = fadd (g_at s cur) edge.cost in
        if is_barred s edge
        then p
        else (if not (is_seen s edge.to) || flt tentative (g_at s edge.to)
            then reach cur edge tentative p
            else p)

    pub try_edges : ℕ → List (GraphEdge F) → Progress F → Progress F
    unfolding try_edge
    try_edges cur [] p = p
    try_edges cur (e ∷ es) p = try_edges cur es (try_edge cur p e)

    -- `maxExpansions > 0 && (int)expansions >= maxExpansions`
    abbrev pub is_spent : ℕ → Bool
    is_spent expansions =
        ltb_ℤ (pos 0) q.max_expansions && leb_ℤ q.max_expansions (signed32 expansions)

    -- What follows once `cur` is known to be worth expanding and not the goal.
    pub expand : ℕ → Progress F → Round F
    unfolding try_edges
    expand cur p =
        let closed : Progress F = record p {
          scratch = close p.scratch cur;
          expansions = (p.expansions + 1) % u32;
        } in
        if is_spent closed.expansions
        then spent closed
        else running (try_edges cur (node_at graph.nodes cur).edges closed)

    -- One round of the `while` loop, on a heap that is not empty.
    pub search_round : Progress F → Round F
    unfolding expand
    search_round p =
        let (top, rest) = heap_pop p.scratch.heap in
        let popped : Progress F = record p { scratch = record p.scratch { heap = rest } } in
        let cur = top.node in
        if not (feq top.f (f_at p.scratch cur)) || is_closed p.scratch cur
        then running popped
        else (if cur == q.goal then found popped else expand cur popped)

    -- What a round means for the loop, where `again` goes on.
    abbrev pub follow : (Progress F → Ending F) → Round F → Ending F
    follow again (running p) = again p
    follow again (found p) = reached p
    follow again (spent p) = partial p

    pub search_loop : ℕ → Progress F → Ending F
    unfolding search_round
    search_loop zero p = if length p.scratch.heap == 0 then partial p else out_of_fuel
    search_loop (suc fuel) p =
        let rest = follow (search_loop fuel) (search_round p) in
        if length p.scratch.heap == 0 then partial p else rest

    -- The state before the loop.
    pub start_progress : GraphScratch F → Progress F
    start_progress s =
        let h = heuristic q.start in
        let f = fmul h q.weight in
        record {
          scratch = record s {
            g_score = set s.g_score q.start fzero;
            f_score = set s.f_score q.start f;
            parent = set s.parent q.start q.start;
            stamp = set s.stamp q.start s.search_id;
            heap = heap_push s.heap f q.start;
          };
          best_node = q.start;
          best_h = h;
          expansions = 0;
        }

  -- Each stored edge is tried once, and a round takes an entry off the heap.
  pub search : AStarGraph F → Query F → GraphScratch F → Ending F
  unfolding search_loop start_progress
  search graph q s = search_loop graph q (suc (total graph.nodes)) (start_progress graph q s)
