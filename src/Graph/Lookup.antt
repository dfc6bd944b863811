-- ===== src/Graph/Lookup.antt =====
-- What the lookups of code/gsc_graph.cpp find: graphById, graphFindEdgeIndex, and the range checks.
use zk_libcod.Prelude.{
  ℕ, suc, ◌<◌, ◌≡◌, ◌≢◌, true, List, [], ◌∷◌, none, some, arith, length, get_or, ◌==◌, ==_iff, All,
  Bool-cases, inl, inr, Option-cases,
}
use zk_libcod.Prelude.Int.{ℤ, pos, negsuc, eqb_ℤ, eqb_ℤ→eq, eqb_ℤ_refl}
use zk_libcod.Float.{FloatOps}
use zk_libcod.Graph.{
  Graphs, AStarGraph, GraphEdge, graph_by_id, no_graph, node_index, node_at, no_edge, edge_index,
  find_edge_index, to_unsigned,
}

module _ {F : Type 0} ⦃fl : FloatOps F⦄ where
  -- The index that graphById finds is in range, and the graph there has the id.
  pub graph_by_id-some :
      (gs : Graphs F) (id : ℤ) (i : ℕ)
      → graph_by_id gs id ≡ some i
      → (i < length gs) × (pos (get_or gs i no_graph).id ≡ id)
  unfolding graph_by_id
  graph_by_id-some [] id i e = cc
  graph_by_id-some (g ∷ gs) id i e = elim (Bool-cases (eqb_ℤ (pos g.id) id)) [
    | inl hit ↦
        let first : some 0 ≡ some i = rw hit at e in
        let zeroth : i ≡ 0 = cc in rw zeroth (omega arith, eqb_ℤ→eq (pos g.id) id hit)
    | inr miss ↦ elim (Option-cases (graph_by_id gs id)) [
      | inl nowhere ↦ cc (rw (miss, nowhere) at e)
      | inr (j, found) ↦
          let later : some (suc j) ≡ some i = rw (miss, found) at e in
          let next : i ≡ suc j = cc in
          let (inside, same) = graph_by_id-some gs id j found in rw next (omega arith, same)
    ]
  ]

  -- graphById finds nothing only if no graph has the id.
  pub graph_by_id-none :
      (gs : Graphs F) (id : ℤ) → graph_by_id gs id ≡ none → All (λ g. pos g.id ≢ id) gs
  unfolding graph_by_id
  graph_by_id-none [] id e = tt
  graph_by_id-none (g ∷ gs) id e = elim (Bool-cases (eqb_ℤ (pos g.id) id)) [
    | inl hit ↦ cc (rw hit at e)
    | inr miss ↦ elim (Option-cases (graph_by_id gs id)) [
      | inl nowhere ↦ (
        λ same. let hit : eqb_ℤ (pos g.id) id ≡ true = rw same (eqb_ℤ_refl id) in cc,
        graph_by_id-none gs id nowhere,
      )
      | inr (j, found) ↦ cc (rw (miss, found) at e)
    ]
  ]

  pub node_index-some :
      (g : AStarGraph F) (id : ℤ) (i : ℕ)
      → node_index g id ≡ some i
      → (i < length g.nodes) × (id ≡ pos i)
  unfolding node_index
  node_index-some g (pos n) i e = ground arith
  node_index-some g (negsuc n) i e = cc

  pub node_index-inside :
      (g : AStarGraph F) (v : ℕ) → v < length g.nodes → node_index g (pos v) ≡ some v
  unfolding node_index
  node_index-inside g v h = ground arith

  pub edge_index-some :
      (es : List (GraphEdge F)) (to i : ℕ)
      → edge_index es to ≡ some i
      → (i < length es) × ((get_or es i no_edge).to ≡ to)
  unfolding edge_index
  edge_index-some [] to i e = cc
  edge_index-some (x ∷ es) to i e = elim (Bool-cases (x.to == to)) [
    | inl hit ↦
        let first : some 0 ≡ some i = rw hit at e in
        let zeroth : i ≡ 0 = cc in rw zeroth (omega arith, (==_iff x.to to).0 hit)
    | inr miss ↦ elim (Option-cases (edge_index es to)) [
      | inl nowhere ↦ cc (rw (miss, nowhere) at e)
      | inr (j, found) ↦
          let later : some (suc j) ≡ some i = rw (miss, found) at e in
          let next : i ≡ suc j = cc in
          let (inside, same) = edge_index-some es to j found in rw next (omega arith, same)
    ]
  ]

  pub find_edge_index-some :
      (g : AStarGraph F) (from to : ℤ) (idx : ℕ)
      → find_edge_index g from to ≡ some idx
      → (to_unsigned from < length g.nodes)
        × (idx < length (node_at g.nodes (to_unsigned from)).edges)
        × ((get_or (node_at g.nodes (to_unsigned from)).edges idx no_edge).to ≡ to_unsigned to)
  unfolding find_edge_index
  find_edge_index-some g from to idx e = elim (Option-cases (node_index g from)) [
    | inl nowhere ↦ cc (rw (nowhere, find_edge_index) at e)
    | inr (i, found) ↦
        let (inside, same) = node_index-some g from i found in
        let there : edge_index (node_at g.nodes i).edges (to_unsigned to) ≡ some idx =
          rw (found, find_edge_index) at e in
        let (room, leads) = edge_index-some _ _ idx there in rw same (inside, room, leads)
  ]
