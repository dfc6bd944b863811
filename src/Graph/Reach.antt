-- ===== src/Graph/Reach.antt =====
-- graphGetNodeIdsAccessibleFrom and graphGetNodeIdsAccessibleTo of code/gsc_graph.cpp: breadth-first walks
-- along the edges and against them.
pub mod Rounds
pub mod Accessible
pub mod Sources
use zk_libcod.Prelude.{
  ℕ, zero, suc, Bool, true, false, List, [], ◌∷◌, ◌++◌, map, ltb, if◌then◌else◌, length, get_or,
  set, replicate,
}
use zk_libcod.Prelude.Int.{pos}
use zk_libcod.Float.{FloatOps}
use zk_libcod.Script.{Value, integer, int_param, stack_get_params, push_undefined, push_array}
use zk_libcod.Graph.{
  Graphs, AStarGraph, GraphNode, GraphEdge, graph_by_id, no_graph, node_at, max_script_values,
}
use zk_libcod.Graph.Reply.{
  Reply, answer, refuse, go_on, ◌>>=◌, ◌>>◌, or_return, return_if, settle, bad_parameters,
  no_such_graph, value_limit,
}
use zk_libcod.Graph.Nodes.{live_index}

-- The vectors of a walk.
pub record Walk : Type 0 where
  pub visited : List Bool
  pub queue : List ℕ

abbrev pub is_visited : Walk → ℕ → Bool
is_visited w v = get_or w.visited v false

-- The body of the loop over the neighbours.
pub visit : ℕ → Walk → Walk
visit v w =
    if is_visited w v
    then w
    else record { visited = set w.visited v true; queue = w.queue ++ v ∷ [] }

pub visit_all : List ℕ → Walk → Walk
unfolding visit
visit_all [] w = w
visit_all (v ∷ vs) w = visit_all vs (visit v w)

-- `while ( head < queue.size() )`, with the neighbours of each node.
pub walk_rounds : ℕ → (ℕ → List ℕ) → ℕ → Walk → Walk
unfolding visit_all
walk_rounds zero next head w = w
walk_rounds (suc rounds) next head w =
    let rest = walk_rounds rounds next (suc head) (visit_all (next (get_or w.queue head 0)) w) in
    if ltb head (length w.queue) then rest else w

-- No node is queued twice, so one round for each of the `n` nodes is enough.
pub walk_from : ℕ → (ℕ → List ℕ) → ℕ → List ℕ
unfolding walk_rounds
walk_from n next start =
    (walk_rounds n next 0
      (record { visited = set (replicate n false) start true; queue = start ∷ [] })).queue

module _ {F : Type 0} where
  abbrev pub targets_of : List (GraphEdge F) → List ℕ
  targets_of = map λ (e : GraphEdge F). e.to

  -- `incoming[to].push_back(i)`, for the edges of node `i`.
  pub note_sources : ℕ → List (GraphEdge F) → List (List ℕ) → List (List ℕ)
  note_sources i [] incoming = incoming
  note_sources i (e ∷ es) incoming =
      note_sources i es (set incoming e.to (get_or incoming e.to [] ++ i ∷ []))

  -- The same for the nodes from `i` on.
  pub note_all_sources : ℕ → List (GraphNode F) → List (List ℕ) → List (List ℕ)
  note_all_sources i [] incoming = incoming
  note_all_sources i (n ∷ ns) incoming =
      note_all_sources (suc i) ns (note_sources i n.edges incoming)

module _ {F : Type 0} ⦃fl : FloatOps F⦄ where
  -- The queue that the walk leaves.
  pub accessible_from : AStarGraph F → ℕ → List ℕ
  accessible_from graph start =
      walk_from (length graph.nodes) (λ u. targets_of (node_at graph.nodes u).edges) start

  pub accessible_to : AStarGraph F → ℕ → List ℕ
  accessible_to graph start =
      let incoming = note_all_sources 0 graph.nodes (replicate (length graph.nodes) []) in
      walk_from (length graph.nodes) (λ u. get_or incoming u []) start

  abbrev fail : Reply F
  fail = refuse bad_parameters push_undefined

  abbrev push_ids : List ℕ → Reply F
  push_ids ids = answer (push_array (map (λ v. integer (pos v)) ids))

  pub gsc_graph_get_node_ids_accessible_from : Graphs F → List (Value F) → Graphs F × Reply F
  gsc_graph_get_node_ids_accessible_from gs args = settle gs do
    p ← or_return (stack_get_params (int_param ∷ int_param ∷ []) args) fail
    g ← or_return (graph_by_id gs p.0) (refuse no_such_graph push_undefined)
    let graph = get_or gs g no_graph
    i ← or_return (live_index graph p.1.0) (answer push_undefined)
    let queue = accessible_from graph i
    return_if (ltb max_script_values (length queue)) (refuse value_limit push_undefined)
    go_on (gs, push_ids queue)

  pub gsc_graph_get_node_ids_accessible_to : Graphs F → List (Value F) → Graphs F × Reply F
  gsc_graph_get_node_ids_accessible_to gs args = settle gs do
    p ← or_return (stack_get_params (int_param ∷ int_param ∷ []) args) fail
    g ← or_return (graph_by_id gs p.0) (refuse no_such_graph push_undefined)
    let graph = get_or gs g no_graph
    i ← or_return (live_index graph p.1.0) (answer push_undefined)
    let queue = accessible_to graph i
    return_if (ltb max_script_values (length queue)) (refuse value_limit push_undefined)
    go_on (gs, push_ids queue)
