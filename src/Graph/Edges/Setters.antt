-- ===== src/Graph/Edges/Setters.antt =====
-- What a script reads back after it has changed an edge.
use zk_libcod.Prelude.{
  ℕ, suc, ◌≡◌, refl, sym, ap, subst, false, List, [], ◌∷◌, some, arith, get_or, set, length-set,
  get_or-set, ◌==◌, ==_iff, Bool-cases, Option-cases, inl, inr, ◌∙◌,
}
use zk_libcod.Prelude.Int.{ℤ, pos, negsuc, eqb_ℤ}
use zk_libcod.Float.{FloatOps}
use zk_libcod.Script.{
  integer, float, stack_get_params, stack_get_params_from, stack_get_param_int,
  stack_get_param_float, push_array,
}
use zk_libcod.Graph.{
  Graphs, AStarGraph, GraphEdge, graph_by_id, no_graph, node_at, no_node, no_edge, node_index,
  edge_index, find_edge_index, invalidate_precompute, to_unsigned,
}
use zk_libcod.Graph.Reply.{answer, ◌>>=◌, ◌>>◌, or_return, return_if, settle}
use zk_libcod.Graph.Lookup.{graph_by_id-some, node_index-some, find_edge_index-some}
use zk_libcod.Graph.Edges.Keeps.{id-replace_edge}
use zk_libcod.Graph.Edges.{
  edge_at, replace_edge, gsc_graph_get_edge_properties, gsc_graph_set_edge_cost,
}

module _ {F : Type 0} ⦃fl : FloatOps F⦄ where
  open fl use {fzero, flt}

  -- A graph is found where it was once another with its id is put in its place.
  graph_by_id-set :
      (gs : Graphs F) (id : ℤ) (i : ℕ) (g : AStarGraph F)
      → graph_by_id gs id ≡ some i
      → g.id ≡ (get_or gs i no_graph).id
      → graph_by_id (set gs i g) id ≡ some i
  unfolding graph_by_id
  graph_by_id-set [] id i g found same = cc
  graph_by_id-set (x ∷ gs) id i g found same = elim (Bool-cases (eqb_ℤ (pos x.id) id)) [
    | inl hit ↦
        let first : some 0 ≡ some i = rw hit at found in
        let zeroth : i ≡ 0 = cc in
        let same_id : g.id ≡ x.id = rw zeroth at same in rw zeroth (simp (same_id, hit) refl)
    | inr miss ↦ elim (Option-cases (graph_by_id gs id)) [
      | inl nowhere ↦ cc (rw (miss, nowhere) at found)
      | inr (j, there) ↦
          let later : some (suc j) ≡ some i = rw (miss, there) at found in
          let next : i ≡ suc j = cc in
          let same_id : g.id ≡ (get_or gs j no_graph).id = rw next at same in
          rw next (simp (miss, graph_by_id-set gs id j g there same_id) refl)
    ]
  ]

  edge_index-set :
      (es : List (GraphEdge F)) (to i : ℕ) (e : GraphEdge F)
      → edge_index es to ≡ some i
      → e.to ≡ (get_or es i no_edge).to
      → edge_index (set es i e) to ≡ some i
  unfolding edge_index
  edge_index-set [] to i e found same = cc
  edge_index-set (x ∷ es) to i e found same = elim (Bool-cases (x.to == to)) [
    | inl hit ↦
        let first : some 0 ≡ some i = rw hit at found in
        let zeroth : i ≡ 0 = cc in
        let same_to : e.to ≡ x.to = rw zeroth at same in rw zeroth (simp (same_to, hit) refl)
    | inr miss ↦ elim (Option-cases (edge_index es to)) [
      | inl nowhere ↦ cc (rw (miss, nowhere) at found)
      | inr (j, there) ↦
          let later : some (suc j) ≡ some i = rw (miss, there) at found in
          let next : i ≡ suc j = cc in
          let same_to : e.to ≡ (get_or es j no_edge).to = rw next at same in
          rw next (simp (miss, edge_index-set es to j e there same_to) refl)
    ]
  ]

  node_index-replace_edge :
      (graph : AStarGraph F) (u idx : ℕ) (e : GraphEdge F) (id : ℤ)
      → node_index (replace_edge graph u idx e) id ≡ node_index graph id
  unfolding replace_edge invalidate_precompute node_index
  node_index-replace_edge graph u idx e (pos n) = rw length-set refl
  node_index-replace_edge graph u idx e (negsuc n) = refl

  module _ (graph : AStarGraph F) (from to : ℤ) (idx : ℕ) (e : GraphEdge F)
      (found : find_edge_index graph from to ≡ some idx)
      (same : e.to ≡ (edge_at graph (to_unsigned from) idx).to) where
    abbrev u : ℕ
    u = to_unsigned from

    abbrev after : AStarGraph F
    after = replace_edge graph u idx e

    edges-after : (node_at after.nodes u).edges ≡ set (node_at graph.nodes u).edges idx e
    unfolding replace_edge invalidate_precompute
    edges-after =
        let (inside, room, leads) = find_edge_index-some graph from to idx found in
        ground (
          arith,
          get_or-set graph.nodes u u
              (record (node_at graph.nodes u) { edges = set (node_at graph.nodes u).edges idx e })
              no_node inside,
        )

    edge_at-after : edge_at after u idx ≡ e
    edge_at-after =
        let (inside, room, leads) = find_edge_index-some graph from to idx found in
        rw edges-after (
          get_or-set (node_at graph.nodes u).edges idx idx e no_edge room
          ∙ rw ((==_iff idx idx).1 refl) refl)

    find_edge_index-after : find_edge_index after from to ≡ some idx
    unfolding find_edge_index
    find_edge_index-after = elim (Option-cases (node_index graph from)) [
      | inl nowhere ↦ cc (rw (nowhere, find_edge_index) at found)
      | inr (i, at_node) ↦
          let is_pos = (node_index-some graph from i at_node).1 in
          let index : i ≡ u = sym (ap to_unsigned is_pos) in
          let there : edge_index (node_at graph.nodes i).edges (to_unsigned to) ≡ some idx =
            rw (at_node, find_edge_index) at found in
          let there_u : edge_index (node_at graph.nodes u).edges (to_unsigned to) ≡ some idx =
            subst (λ k. edge_index (node_at graph.nodes k).edges (to_unsigned to) ≡ some idx) index
              there in
          let where_now : node_index after from ≡ some i =
            node_index-replace_edge graph u idx e from ∙ at_node in
          let new_edges : edge_index (node_at after.nodes u).edges (to_unsigned to) ≡ some idx =
            rw edges-after
              (edge_index-set (node_at graph.nodes u).edges (to_unsigned to) idx e there_u same) in
          rw (where_now, find_edge_index)
            (subst (λ k. edge_index (node_at after.nodes k).edges (to_unsigned to) ≡ some idx)
              (sym index) new_edges)
    ]

  -- Where an edge is found, and the cost is not refused, graphGetEdgeProperties gives the new cost after
  -- graphSetEdgeCost with the same ids, and the edge's type as it was.
  pub get_edge_properties-gsc_graph_set_edge_cost :
      (gs : Graphs F) (id from to : ℤ) (cost : F) (g idx : ℕ)
      → graph_by_id gs id ≡ some g
      → find_edge_index (get_or gs g no_graph) from to ≡ some idx
      → flt cost fzero ≡ false
      → (gsc_graph_get_edge_properties
          (gsc_graph_set_edge_cost gs (integer id ∷ integer from ∷ integer to ∷ float cost ∷ [])).0
          (integer id ∷ integer from ∷ integer to ∷ [])).1
        ≡ answer (
            push_array (
              integer (edge_at (get_or gs g no_graph) (to_unsigned from) idx).type
              ∷ float cost
              ∷ []))
  unfolding gsc_graph_get_edge_properties gsc_graph_set_edge_cost settle ◌>>=◌ ◌>>◌ or_return
      return_if stack_get_params stack_get_params_from stack_get_param_int stack_get_param_float
  get_edge_properties-gsc_graph_set_edge_cost gs id from to cost g idx has_graph has_edge nonneg =
      let graph = get_or gs g no_graph in
      let u = to_unsigned from in
      let e : GraphEdge F = record (edge_at graph u idx) { cost = cost } in
      let changed = replace_edge graph u idx e in
      let graph_after : graph_by_id (set gs g changed) id ≡ some g =
        graph_by_id-set gs id g changed has_graph (id-replace_edge _ _ _ _) in
      let content : get_or (set gs g changed) g no_graph ≡ changed =
        ground (arith, get_or-set gs g g changed no_graph (graph_by_id-some gs id g has_graph).0) in
      let edge_after : find_edge_index changed from to ≡ some idx =
        find_edge_index-after graph from to idx e has_edge refl in
      let result : edge_at changed u idx ≡ e = edge_at-after graph from to idx e has_edge refl in
      simp (nonneg, has_graph, has_edge, graph_after, content, edge_after, result) refl
