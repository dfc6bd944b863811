-- ===== src/Graph/Listing.antt =====
-- graphGetAllNodes, graphGetAllEdges and graphFindClosestEdge of code/gsc_graph.cpp, which only read a graph.
pub mod Listed
pub mod Nearest
use zk_libcod.Prelude.{
  ℕ, zero, suc, ◌+◌, ◌*◌, Bool, true, false, not, ◌&&◌, List, [], ◌∷◌, ◌++◌, Option, none, some,
  map, ltb, leb, if◌then◌else◌, length, get_or,
}
use zk_libcod.Prelude.Int.{ℤ, pos, negsuc}
use zk_libcod.Float.{FloatOps}
use zk_libcod.Script.{
  Vec3, Value, integer, int_param, vector_param, stack_get_params, stack_get_param_vector,
  optional_float, param_is_undefined, push_undefined, push_array,
}
use zk_libcod.Graph.{
  Graphs, GraphNode, GraphEdge, graph_by_id, no_graph, node_at, max_script_values,
}
use zk_libcod.Graph.Closest.{distance_squared}
use zk_libcod.Graph.Reply.{
  Reply, answer, refuse, go_on, ◌>>=◌, ◌>>◌, or_return, return_if, settle, bad_parameters, bad_type,
  no_such_graph, value_limit, negative_radius,
}

-- The ends of the closest edge so far and the distance to it; nothing stands for -1.
abbrev pub BestEdge : Type 0 → Type 0
BestEdge F = Option (ℕ × ℕ × F)

module _ {F : Type 0} where
  -- The loops of gsc_graph_get_all_edges: two values for each edge.
  pub edge_ends : ℕ → List (GraphEdge F) → List ℕ → List ℕ
  edge_ends i [] after = after
  edge_ends i (e ∷ es) after = i ∷ e.to ∷ edge_ends i es after

  pub all_edge_ends : ℕ → List (GraphNode F) → List ℕ
  unfolding edge_ends
  all_edge_ends i [] = []
  all_edge_ends i (n ∷ ns) = edge_ends i n.edges (all_edge_ends (suc i) ns)

module _ {F : Type 0} ⦃fl : FloatOps F⦄ where
  open fl use {fzero, fadd, fsub, fmul, fdiv, of_int, flt, fle}

  -- Whether the body of the loops of gsc_graph_get_all_nodes comes to its end, for an origin that may be missing.
  pub is_listed : Option (Vec3 F) → F → GraphNode F → Bool
  is_listed none max_dist_sq n = not n.removed
  is_listed (some origin) max_dist_sq n =
      not n.removed
      && not (fle fzero max_dist_sq && flt max_dist_sq (distance_squared n.origin origin))

  -- The loop that counts, and the loop that pushes.
  pub count_listed : Option (Vec3 F) → F → List (GraphNode F) → ℕ
  unfolding is_listed
  count_listed origin max_dist_sq [] = 0
  count_listed origin max_dist_sq (n ∷ ns) =
      (if is_listed origin max_dist_sq n then 1 else 0) + count_listed origin max_dist_sq ns

  pub listed_ids : Option (Vec3 F) → F → ℕ → List (GraphNode F) → List ℕ
  unfolding is_listed
  listed_ids origin max_dist_sq i [] = []
  listed_ids origin max_dist_sq i (n ∷ ns) =
      let rest = listed_ids origin max_dist_sq (suc i) ns in
      if is_listed origin max_dist_sq n then i ∷ rest else rest

  abbrev fail : Reply F
  fail = refuse bad_parameters push_undefined

  -- The origin, where there is one.
  pub listing_origin : List (Value F) → Option (Option (Vec3 F))
  listing_origin args =
      if param_is_undefined args 1
      then some none
      else elim (stack_get_param_vector args 1) [ none ↦ none | some v ↦ some (some v) ]

  pub gsc_graph_get_all_nodes : Graphs F → List (Value F) → Graphs F × Reply F
  unfolding listing_origin count_listed listed_ids
  gsc_graph_get_all_nodes gs args = settle gs do
    p ← or_return (stack_get_params (int_param ∷ []) args) fail
    origin ← or_return (listing_origin args) (refuse bad_type push_undefined)
    max_dist_sq ←
        or_return (optional_float args 2 (of_int (negsuc 0))) (refuse bad_type push_undefined)
    return_if (leb 3 (length args) && flt max_dist_sq fzero) (refuse negative_radius push_undefined)
    g ← or_return (graph_by_id gs p.0) (refuse no_such_graph push_undefined)
    let nodes = (get_or gs g no_graph).nodes
    return_if (ltb max_script_values (count_listed origin max_dist_sq nodes))
        (refuse value_limit push_undefined)
    go_on (
      gs,
      answer (push_array (map (λ i. integer (pos i)) (listed_ids origin max_dist_sq 0 nodes))),
    )

  pub gsc_graph_get_all_edges : Graphs F → List (Value F) → Graphs F × Reply F
  unfolding all_edge_ends
  gsc_graph_get_all_edges gs args = settle gs do
    p ← or_return (stack_get_params (int_param ∷ []) args) fail
    g ← or_return (graph_by_id gs p.0) (refuse no_such_graph push_undefined)
    let graph = get_or gs g no_graph
    return_if (ltb max_script_values (graph.edge_count * 2)) (refuse value_limit push_undefined)
    go_on (gs, answer (push_array (map (λ i. integer (pos i)) (all_edge_ends 0 graph.nodes))))

  -- `if ( t < 0 ) t = 0; if ( t > 1 ) t = 1;`
  abbrev pub clamped : F → F
  clamped t =
      let low = if flt t fzero then fzero else t in
      if flt (of_int (pos 1)) low then of_int (pos 1) else low

  abbrev pub dot : Vec3 F → Vec3 F → F
  dot a b = fadd (fadd (fmul a.x b.x) (fmul a.y b.y)) (fmul a.z b.z)

  abbrev pub minus : Vec3 F → Vec3 F → Vec3 F
  minus a b = record { x = fsub a.x b.x; y = fsub a.y b.y; z = fsub a.z b.z }

  -- pointSegmentDistSq
  pub point_segment_dist_sq : Vec3 F → Vec3 F → Vec3 F → F
  point_segment_dist_sq p a b =
      let ab = minus b a in
      let ap = minus p a in
      let ab_len2 = dot ab ab in
      let t = clamped (if flt fzero ab_len2 then fdiv (dot ap ab) ab_len2 else fzero) in
      let c : Vec3 F = record {
        x = fadd a.x (fmul ab.x t);
        y = fadd a.y (fmul ab.y t);
        z = fadd a.z (fmul ab.z t);
      } in
      dot (minus p c) (minus p c)

  -- `bestFrom >= 0 && d >= bestD`
  abbrev pub is_no_nearer : F → BestEdge F → Bool
  is_no_nearer d none = false
  is_no_nearer d (some b) = fle b.2 d

  module _ (origin : Vec3 F) (nodes : List (GraphNode F)) where
    abbrev pub edge_distance_sq : ℕ → GraphEdge F → F
    edge_distance_sq i e =
        point_segment_dist_sq origin (node_at nodes i).origin (node_at nodes e.to).origin

    pub consider_edge : ℕ → GraphEdge F → BestEdge F → BestEdge F
    unfolding point_segment_dist_sq
    consider_edge i e best =
        let d = edge_distance_sq i e in if is_no_nearer d best then best else some (i, e.to, d)

    pub consider_edges : ℕ → List (GraphEdge F) → BestEdge F → BestEdge F
    unfolding consider_edge
    consider_edges i [] best = best
    consider_edges i (e ∷ es) best = consider_edges i es (consider_edge i e best)

    pub consider_nodes : ℕ → List (GraphNode F) → BestEdge F → BestEdge F
    unfolding consider_edges
    consider_nodes i [] best = best
    consider_nodes i (n ∷ ns) best = consider_nodes (suc i) ns (consider_edges i n.edges best)

  abbrev pub closest_edge : Vec3 F → List (GraphNode F) → BestEdge F
  closest_edge origin nodes = consider_nodes origin nodes 0 nodes none

  pub gsc_graph_find_closest_edge : Graphs F → List (Value F) → Graphs F × Reply F
  unfolding consider_nodes
  gsc_graph_find_closest_edge gs args = settle gs do
    p ← or_return (stack_get_params (int_param ∷ vector_param ∷ []) args) fail
    g ← or_return (graph_by_id gs p.0) (refuse no_such_graph push_undefined)
    best ← or_return (closest_edge p.1.0 (get_or gs g no_graph).nodes) (answer push_undefined)
    go_on (gs, answer (push_array (integer (pos best.0) ∷ integer (pos best.1) ∷ [])))
