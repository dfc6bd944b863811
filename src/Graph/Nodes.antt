-- ===== src/Graph/Nodes.antt =====
-- graphAddNode, graphGetNodeProperties, graphSetNodeType, graphSetNodeOrigin, graphRemoveNode,
-- graphGetNodeOrigin and graphGetNodeCount of code/gsc_graph.cpp.
pub mod Keeps
pub mod Burial
pub mod Calls
use zk_libcod.Prelude.{
  ℕ, suc, ◌+◌, ◌-◌, ◌%◌, true, false, not, ◌&&◌, List, [], ◌∷◌, ◌++◌, Option, none, some, map, ◌==◌,
  if◌then◌else◌, length, get_or, set,
}
use zk_libcod.Prelude.Int.{ℤ, pos, negsuc, eqb_ℤ, leb_ℤ, signed32}
use zk_libcod.Float.{FloatOps}
use zk_libcod.Script.{
  Value, Vec3, integer, int_param, vector_param, stack_get_params, stack_get_param_vector,
  optional_int, push_undefined, push_bool, push_int, push_vector, push_array,
}
use zk_libcod.Graph.{
  Graphs, AStarGraph, GraphNode, GraphEdge, Dvars, u32, graph_by_id, no_graph, node_index, node_at,
  edge_distance, invalidate_precompute,
}
use zk_libcod.Graph.Reply.{
  Reply, answer, refuse, go_on, ◌>>=◌, ◌>>◌, or_return, return_if, settle, bad_parameters, bad_type,
  no_such_graph, out_of_range, out_of_sequence, node_limit,
}

-- `graph->edgeCount--`, in an `unsigned int`.
abbrev pub count_down : ℕ → ℕ
count_down count = (count + u32 - 1) % u32

module _ {F : Type 0} ⦃fl : FloatOps F⦄ where
  abbrev fail : Reply F
  fail = refuse bad_parameters push_undefined

  -- `graph->nodes.push_back(node)`, with the invalidation.
  pub append_node : AStarGraph F → GraphNode F → AStarGraph F
  append_node graph node = invalidate_precompute (record graph { nodes = graph.nodes ++ node ∷ [] })

  pub gsc_graph_add_node : Dvars F → Graphs F → List (Value F) → Graphs F × Reply F
  gsc_graph_add_node dvars gs args = settle gs do
    p ← or_return (stack_get_params (int_param ∷ vector_param ∷ []) args) fail
    type ← or_return (optional_int args 2 (pos 0)) (refuse bad_type push_undefined)
    node_id ← or_return (optional_int args 3 (negsuc 0)) (refuse bad_type push_undefined)
    g ← or_return (graph_by_id gs p.0) (refuse no_such_graph push_undefined)
    let graph = get_or gs g no_graph
    let size = length graph.nodes
    return_if (leb_ℤ (pos 0) node_id && not (eqb_ℤ node_id (pos size)))
        (refuse out_of_sequence push_undefined)
    return_if (leb_ℤ dvars.max_nodes (pos size)) (refuse node_limit push_undefined)
    let node : GraphNode F = record { origin = p.1.0; type = type; removed = false; edges = [] }
    go_on (set gs g (append_node graph node), answer (push_int (pos size)))

  -- The node id of a script as the index of a node that is there: in range and not removed.
  pub live_index : AStarGraph F → ℤ → Option ℕ
  live_index graph id = elim (node_index graph id) [
    | none ↦ none
    | some i ↦ if (node_at graph.nodes i).removed then none else some i
  ]

  pub gsc_graph_get_node_properties : Graphs F → List (Value F) → Graphs F × Reply F
  gsc_graph_get_node_properties gs args = settle gs do
    p ← or_return (stack_get_params (int_param ∷ int_param ∷ []) args) fail
    g ← or_return (graph_by_id gs p.0) (refuse no_such_graph push_undefined)
    let graph = get_or gs g no_graph
    i ← or_return (live_index graph p.1.0) (answer push_undefined)
    let node = node_at graph.nodes i
    go_on
        (gs, answer (push_array (integer node.type ∷ integer (signed32 (length node.edges)) ∷ [])))

  -- `graph->nodes[nodeId] = node`, with the invalidation.
  pub replace_node : AStarGraph F → ℕ → GraphNode F → AStarGraph F
  replace_node graph i node =
      invalidate_precompute (record graph { nodes = set graph.nodes i node })

  pub gsc_graph_set_node_type : Graphs F → List (Value F) → Graphs F × Reply F
  gsc_graph_set_node_type gs args = settle gs do
    p ← or_return (stack_get_params (int_param ∷ int_param ∷ int_param ∷ []) args) fail
    g ← or_return (graph_by_id gs p.0) (refuse no_such_graph push_undefined)
    let graph = get_or gs g no_graph
    i ← or_return (live_index graph p.1.0) (answer (push_bool false))
    let node = node_at graph.nodes i
    go_on
        (set gs g (replace_node graph i (record node { type = p.1.1.0 })), answer (push_bool true))

  -- The loop over the outgoing edges of the moved node.
  pub recost_outgoing : List (GraphNode F) → Vec3 F → List (GraphEdge F) → List (GraphEdge F)
  recost_outgoing nodes origin =
      map λ (e : GraphEdge F). record e { cost = edge_distance origin (node_at nodes e.to).origin }

  -- The loop over the edges of another node, at `origin`, for those into the moved node.
  pub recost_incoming : ℕ → Vec3 F → Vec3 F → List (GraphEdge F) → List (GraphEdge F)
  recost_incoming moved origin target = map λ (e : GraphEdge F).
      if e.to == moved then record e { cost = edge_distance origin target } else e

  -- The loop over all nodes but the moved one, from node `i` on.
  pub recost_others : ℕ → Vec3 F → ℕ → List (GraphNode F) → List (GraphNode F)
  recost_others moved target i [] = []
  recost_others moved target i (n ∷ ns) =
      (if i == moved then n else record n { edges = recost_incoming moved n.origin target n.edges })
      ∷ recost_others moved target (suc i) ns

  -- The state change of graphSetNodeOrigin.
  pub move_node : AStarGraph F → ℕ → Vec3 F → AStarGraph F
  move_node graph i origin =
      let node = node_at graph.nodes i in
      let placed = set graph.nodes i (record node { origin = origin }) in
      let outgoing =
        set placed i
          (record node { origin = origin; edges = recost_outgoing placed origin node.edges }) in
      invalidate_precompute (record graph { nodes = recost_others i origin 0 outgoing })

  pub gsc_graph_set_node_origin : Graphs F → List (Value F) → Graphs F × Reply F
  gsc_graph_set_node_origin gs args = settle gs do
    p ← or_return (stack_get_params (int_param ∷ int_param ∷ []) args) fail
    origin ← or_return (stack_get_param_vector args 2) (refuse bad_type push_undefined)
    g ← or_return (graph_by_id gs p.0) (refuse no_such_graph push_undefined)
    let graph = get_or gs g no_graph
    i ← or_return (live_index graph p.1.0) (answer (push_bool false))
    go_on (set gs g (move_node graph i origin), answer (push_bool true))

  -- The loop that erases the edges of one node that lead to `target`, and counts them down.
  pub drop_edges_to : ℕ → List (GraphEdge F) → ℕ → List (GraphEdge F) × ℕ
  drop_edges_to target [] count = ([], count)
  drop_edges_to target (e ∷ es) count =
      let (kept, left) =
        drop_edges_to target es (if e.to == target then count_down count else count) in
      (if e.to == target then kept else e ∷ kept, left)

  -- The loop over all nodes.
  pub drop_all_to : ℕ → List (GraphNode F) → ℕ → List (GraphNode F) × ℕ
  drop_all_to target [] count = ([], count)
  drop_all_to target (n ∷ ns) count =
      let (edges, left) = drop_edges_to target n.edges count in
      let (rest, left') = drop_all_to target ns left in (record n { edges = edges } ∷ rest, left')

  -- The state change of graphRemoveNode.
  pub entomb_node : AStarGraph F → ℕ → AStarGraph F
  entomb_node graph i =
      let node = node_at graph.nodes i in
      let outgoing = length node.edges % u32 in
      let count = (graph.edge_count + u32 - outgoing) % u32 in
      let (kept, left) = drop_all_to i (set graph.nodes i (record node { edges = [] })) count in
      invalidate_precompute (record graph {
        nodes = set kept i (record (node_at kept i) { removed = true });
        edge_count = left;
      })

  pub gsc_graph_remove_node : Graphs F → List (Value F) → Graphs F × Reply F
  gsc_graph_remove_node gs args = settle gs do
    p ← or_return (stack_get_params (int_param ∷ int_param ∷ []) args) fail
    g ← or_return (graph_by_id gs p.0) (refuse no_such_graph push_undefined)
    let graph = get_or gs g no_graph
    i ← or_return (live_index graph p.1.0) (answer (push_bool false))
    go_on (set gs g (entomb_node graph i), answer (push_bool true))

  pub gsc_graph_get_node_origin : Graphs F → List (Value F) → Graphs F × Reply F
  gsc_graph_get_node_origin gs args = settle gs do
    p ← or_return (stack_get_params (int_param ∷ int_param ∷ []) args) fail
    g ← or_return (graph_by_id gs p.0) (refuse no_such_graph push_undefined)
    let graph = get_or gs g no_graph
    i ← or_return (node_index graph p.1.0) (refuse out_of_range push_undefined)
    let node = node_at graph.nodes i
    return_if node.removed (answer push_undefined)
    go_on (gs, answer (push_vector node.origin))

  pub gsc_graph_get_node_count : Graphs F → List (Value F) → Graphs F × Reply F
  gsc_graph_get_node_count gs args = settle gs do
    p ← or_return (stack_get_params (int_param ∷ []) args) fail
    g ← or_return (graph_by_id gs p.0) (refuse no_such_graph push_undefined)
    go_on (gs, answer (push_int (signed32 (length (get_or gs g no_graph).nodes))))
