-- ===== src/Graph/Edges.antt =====
-- graphAddEdge, graphGetEdgeProperties, graphSetEdgeCost, graphSetEdgeType, graphRemoveEdge and
-- graphGetEdgeCount of code/gsc_graph.cpp.
pub mod Keeps
pub mod Calls
pub mod Setters
use zk_libcod.Prelude.{
  ℕ, ◌+◌, ◌-◌, ◌%◌, true, false, ◌||◌, List, [], ◌∷◌, ◌++◌, none, some, ◌==◌, if◌then◌else◌, get_or,
  set, erase_at,
}
use zk_libcod.Prelude.Int.{pos, negsuc, signed32}
use zk_libcod.Float.{FloatOps}
use zk_libcod.Script.{
  Value, integer, float, int_param, stack_get_params, stack_get_param_float, optional_int,
  optional_float, push_undefined, push_bool, push_int, push_array,
}
use zk_libcod.Graph.{
  Graphs, AStarGraph, GraphNode, GraphEdge, u32, graph_by_id, no_graph, node_index, node_at,
  no_edge, edge_index, find_edge_index, edge_distance, invalidate_precompute, to_unsigned,
}
use zk_libcod.Graph.Reply.{
  Reply, answer, refuse, go_on, ◌>>=◌, ◌>>◌, or_return, return_if, settle, bad_parameters, bad_type,
  no_such_graph, out_of_range, self_edge, removed_node, negative_cost,
}

module _ {F : Type 0} ⦃fl : FloatOps F⦄ where
  open fl use {fzero, of_int, fle, flt}

  -- `nodes[i].edges = edges`
  abbrev pub set_edges : List (GraphNode F) → ℕ → List (GraphEdge F) → List (GraphNode F)
  set_edges nodes i edges = set nodes i (record (node_at nodes i) { edges = edges })

  abbrev pub fail : Reply F
  fail = refuse bad_parameters push_undefined

  -- The state change of graphAddEdge: `push_back`, the counter, and the invalidation.
  pub append_edge : AStarGraph F → ℕ → GraphEdge F → AStarGraph F
  append_edge graph from edge = invalidate_precompute (record graph {
    nodes = set_edges graph.nodes from ((node_at graph.nodes from).edges ++ edge ∷ []);
    edge_count = (graph.edge_count + 1) % u32;
  })

  -- A cost below zero stands for the distance, and so does a NaN.
  pub edge_cost : AStarGraph F → ℕ → ℕ → F → F
  edge_cost graph from to cost =
      if fle fzero cost
      then cost
      else edge_distance (node_at graph.nodes from).origin (node_at graph.nodes to).origin

  pub gsc_graph_add_edge : Graphs F → List (Value F) → Graphs F × Reply F
  gsc_graph_add_edge gs args = settle gs do
    p ← or_return (stack_get_params (int_param ∷ int_param ∷ int_param ∷ []) args) fail
    let from = p.1.0
    let to = p.1.1.0
    type ← or_return (optional_int args 3 (pos 0)) (refuse bad_type push_undefined)
    cost ← or_return (optional_float args 4 (of_int (negsuc 0))) (refuse bad_type push_undefined)
    g ← or_return (graph_by_id gs p.0) (refuse no_such_graph push_undefined)
    let graph = get_or gs g no_graph
    u ← or_return (node_index graph from) (refuse out_of_range push_undefined)
    v ← or_return (node_index graph to) (refuse out_of_range push_undefined)
    return_if (u == v) (refuse self_edge push_undefined)
    return_if ((node_at graph.nodes u).removed || (node_at graph.nodes v).removed)
        (refuse removed_node push_undefined)
    let edge : GraphEdge F = record { to = v; type = type; cost = edge_cost graph u v cost }
    elim (edge_index (node_at graph.nodes u).edges v) [
      | some _ ↦ go_on (gs, answer (push_bool false))
      | none ↦ go_on (set gs g (append_edge graph u edge), answer (push_bool true))
    ]

  -- `graph->nodes[from].edges[idx] = edge`, with the invalidation.
  pub replace_edge : AStarGraph F → ℕ → ℕ → GraphEdge F → AStarGraph F
  replace_edge graph from idx edge = invalidate_precompute (record graph {
    nodes = set_edges graph.nodes from (set (node_at graph.nodes from).edges idx edge);
  })

  -- `graph->nodes[from].edges[idx]`
  abbrev pub edge_at : AStarGraph F → ℕ → ℕ → GraphEdge F
  edge_at graph from idx = get_or (node_at graph.nodes from).edges idx no_edge

  pub gsc_graph_get_edge_properties : Graphs F → List (Value F) → Graphs F × Reply F
  gsc_graph_get_edge_properties gs args = settle gs do
    p ← or_return (stack_get_params (int_param ∷ int_param ∷ int_param ∷ []) args) fail
    g ← or_return (graph_by_id gs p.0) (refuse no_such_graph push_undefined)
    let graph = get_or gs g no_graph
    idx ← or_return (find_edge_index graph p.1.0 p.1.1.0) (answer push_undefined)
    let edge = edge_at graph (to_unsigned p.1.0) idx
    go_on (gs, answer (push_array (integer edge.type ∷ float edge.cost ∷ [])))

  pub gsc_graph_set_edge_cost : Graphs F → List (Value F) → Graphs F × Reply F
  gsc_graph_set_edge_cost gs args = settle gs do
    p ← or_return (stack_get_params (int_param ∷ int_param ∷ int_param ∷ []) args) fail
    cost ← or_return (stack_get_param_float args 3) (refuse bad_type push_undefined)
    return_if (flt cost fzero) (refuse negative_cost push_undefined)
    g ← or_return (graph_by_id gs p.0) (refuse no_such_graph push_undefined)
    let graph = get_or gs g no_graph
    idx ← or_return (find_edge_index graph p.1.0 p.1.1.0) (answer (push_bool false))
    let u = to_unsigned p.1.0
    let edge = edge_at graph u idx
    go_on
        (set gs g (replace_edge graph u idx (record edge { cost = cost })), answer (push_bool true))

  pub gsc_graph_set_edge_type : Graphs F → List (Value F) → Graphs F × Reply F
  gsc_graph_set_edge_type gs args = settle gs do
    p ← or_return (stack_get_params (int_param ∷ int_param ∷ int_param ∷ int_param ∷ []) args) fail
    g ← or_return (graph_by_id gs p.0) (refuse no_such_graph push_undefined)
    let graph = get_or gs g no_graph
    idx ← or_return (find_edge_index graph p.1.0 p.1.1.0) (answer (push_bool false))
    let u = to_unsigned p.1.0
    let edge = edge_at graph u idx
    go_on (
      set gs g (replace_edge graph u idx (record edge { type = p.1.1.1.0 })),
      answer (push_bool true),
    )

  -- The state change of graphRemoveEdge. The counter is unsigned.
  pub drop_edge : AStarGraph F → ℕ → ℕ → AStarGraph F
  drop_edge graph from idx = invalidate_precompute (record graph {
    nodes = set_edges graph.nodes from (erase_at (node_at graph.nodes from).edges idx);
    edge_count = (graph.edge_count + u32 - 1) % u32;
  })

  pub gsc_graph_remove_edge : Graphs F → List (Value F) → Graphs F × Reply F
  gsc_graph_remove_edge gs args = settle gs do
    p ← or_return (stack_get_params (int_param ∷ int_param ∷ int_param ∷ []) args) fail
    g ← or_return (graph_by_id gs p.0) (refuse no_such_graph push_undefined)
    let graph = get_or gs g no_graph
    idx ← or_return (find_edge_index graph p.1.0 p.1.1.0) (answer (push_bool false))
    go_on (set gs g (drop_edge graph (to_unsigned p.1.0) idx), answer (push_bool true))

  pub gsc_graph_get_edge_count : Graphs F → List (Value F) → Graphs F × Reply F
  gsc_graph_get_edge_count gs args = settle gs do
    p ← or_return (stack_get_params (int_param ∷ []) args) fail
    g ← or_return (graph_by_id gs p.0) (refuse no_such_graph push_undefined)
    go_on (gs, answer (push_int (signed32 (get_or gs g no_graph).edge_count)))
