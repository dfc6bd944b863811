-- ===== src/Graph/Reach/Accessible.antt =====
-- The two breadth-first walks of code/gsc_graph.cpp give the nodes at the ends of paths of edges.
use mathlib.Core.List.{Memᴰ}
use mathlib.Core.List.Memᴰ
use zk_libcod.Prelude.{
  ℕ, ◌<◌, ◌≡◌, ◌↔◌, inl, inr, refl, sym, ap, subst, List, [], ◌∷◌, arith, length, get_or_past,
  Bool-cases, leb, All, All-get_or,
}
use zk_libcod.Float.{FloatOps}
use zk_libcod.Graph.{Graphs, AStarGraph, GraphNode, GraphEdge, node_at, no_node}
use zk_libcod.Graph.Reply.{ends, after_or_return, after_return_if, settle-Keeps}
use zk_libcod.Script.{Value}
use zk_libcod.Graph.Wellformed.{IsValid, IsSound, IsLive}
use zk_libcod.Graph.Reach.{
  targets_of, accessible_from, gsc_graph_get_node_ids_accessible_from,
  gsc_graph_get_node_ids_accessible_to,
}
use zk_libcod.Graph.Reach.Rounds.{Reached, origin, onward, walk_from_iff}

module _ {F : Type 0} ⦃fl : FloatOps F⦄ where
  -- A trail of edges from a node.
  pub data Trail (nodes : List (GraphNode F)) (u : ℕ) : ℕ → Type 0 where
    stay : Trail nodes u u
    hop :
        {v : ℕ} (e : GraphEdge F)
        → Trail nodes u v
        → Memᴰ e (node_at nodes v).edges
        → Trail nodes u e.to

  pub Trail-cons :
      (nodes : List (GraphNode F)) (u : ℕ) (e : GraphEdge F)
      → Memᴰ e (node_at nodes u).edges
      → (v : ℕ) → Trail nodes e.to v
      → Trail nodes u v
  Trail-cons nodes u e m v stay = hop e stay m
  Trail-cons nodes u e m v (hop {v = w} e' rest m') = hop e' (Trail-cons nodes u e m w rest) m'

  target_edge :
      (es : List (GraphEdge F)) (v : ℕ)
      → Memᴰ v (targets_of es)
      → (e : GraphEdge F) × Memᴰ e es × (e.to ≡ v)
  target_edge [] v m = absurd (Memᴰ.not-nil m)
  target_edge (e ∷ es) v (Memᴰ.head same) = (e, Memᴰ.head refl, sym same)
  target_edge (e ∷ es) v (Memᴰ.tail m) =
      let (e', m', same) = target_edge es v m in (e', Memᴰ.tail m', same)

  edge_target : (es : List (GraphEdge F)) (e : GraphEdge F) → Memᴰ e es → Memᴰ e.to (targets_of es)
  edge_target [] e m = absurd (Memᴰ.not-nil m)
  edge_target (x ∷ es) e (Memᴰ.head same) = Memᴰ.head (ap (λ (y : GraphEdge F). y.to) same)
  edge_target (x ∷ es) e (Memᴰ.tail m) = Memᴰ.tail (edge_target es e m)

  All-member :
      (P : GraphEdge F → Type 0) (es : List (GraphEdge F)) (e : GraphEdge F)
      → All P es
      → Memᴰ e es
      → P e
  All-member P [] e all m = absurd (Memᴰ.not-nil m)
  All-member P (x ∷ es) e all (Memᴰ.head same) = subst P (sym same) all.0
  All-member P (x ∷ es) e all (Memᴰ.tail m) = All-member P es e all.1 m

  module _ (graph : AStarGraph F) (valid : IsValid graph) where
    abbrev forward : ℕ → List ℕ
    forward u = targets_of (node_at graph.nodes u).edges

    -- A node with an edge is in range, and so is the edge's target.
    pub edge_inside :
        (u : ℕ) (e : GraphEdge F)
        → Memᴰ e (node_at graph.nodes u).edges
        → (u < length graph.nodes) × (e.to < length graph.nodes)
    edge_inside u e m = elim (Bool-cases (leb (length graph.nodes) u)) [
      | inl past ↦
          let nothing : node_at graph.nodes u ≡ no_node =
            get_or_past graph.nodes u no_node (ground arith) in
          absurd (Memᴰ.not-nil (subst (λ (n : GraphNode F). Memᴰ e n.edges) nothing m))
      | inr inside ↦
          let here : u < length graph.nodes = ground arith in
          let sound : IsSound graph.nodes (node_at graph.nodes u) =
            All-get_or _ graph.nodes u no_node valid.sound here in
          (here, (All-member _ _ e sound.targets m).0)
    ]

    -- The target of an edge is there.
    pub target_IsLive :
        (u : ℕ) (e : GraphEdge F) → Memᴰ e (node_at graph.nodes u).edges → IsLive graph.nodes e.to
    target_IsLive u e m =
        let here = (edge_inside u e m).0 in
        let sound : IsSound graph.nodes (node_at graph.nodes u) =
          All-get_or _ graph.nodes u no_node valid.sound here in
        All-member _ _ e sound.targets m

    forward_inside : (u v : ℕ) → Memᴰ v (forward u) → v < length graph.nodes
    forward_inside u v m =
        let (e, stored, same) = target_edge (node_at graph.nodes u).edges v m in
        subst (λ x. x < length graph.nodes) same (edge_inside u e stored).1

    Trail-of_Reached : (start v : ℕ) → Reached forward start v → Trail graph.nodes start v
    Trail-of_Reached start v origin = stay
    Trail-of_Reached start v (onward {u = u} v' way m) =
        let (e, stored, same) = target_edge (node_at graph.nodes u).edges v' m in
        subst (Trail graph.nodes start) same (hop e (Trail-of_Reached start u way) stored)

    Reached-of_Trail : (start v : ℕ) → Trail graph.nodes start v → Reached forward start v
    Reached-of_Trail start v stay = origin
    Reached-of_Trail start v (hop {v = w} e rest m) =
        onward e.to (Reached-of_Trail start w rest) (edge_target (node_at graph.nodes w).edges e m)

    -- In a well-formed graph, the walk of graphGetNodeIdsAccessibleFrom from a node in range gives the nodes that a
    -- trail of edges leads to from it, and no others.
    pub accessible_from_iff :
        (start : ℕ)
        → start < length graph.nodes
        → (v : ℕ) → Memᴰ v (accessible_from graph start) ↔ Trail graph.nodes start v
    unfolding accessible_from
    accessible_from_iff start inside v =
        let walk = walk_from_iff forward start (length graph.nodes) forward_inside inside v in
        (λ m. Trail-of_Reached start v (walk.0 m), λ t. walk.1 (Reached-of_Trail start v t))

  module _ (gs : Graphs F) (args : List (Value F)) where
    pub get_node_ids_accessible_from-same : (gsc_graph_get_node_ids_accessible_from gs args).0 ≡ gs
    unfolding gsc_graph_get_node_ids_accessible_from
    get_node_ids_accessible_from-same =
        settle-Keeps (λ after. after ≡ gs) gs _ refl
          (after_or_return _ _ _ _ λ a0 _.
            after_or_return _ _ _ _
              λ a1 _. after_or_return _ _ _ _ λ a2 _. after_return_if _ _ _ _ λ _. ends _ _ refl)

    pub get_node_ids_accessible_to-same : (gsc_graph_get_node_ids_accessible_to gs args).0 ≡ gs
    unfolding gsc_graph_get_node_ids_accessible_to
    get_node_ids_accessible_to-same =
        settle-Keeps (λ after. after ≡ gs) gs _ refl
          (after_or_return _ _ _ _ λ a0 _.
            after_or_return _ _ _ _
              λ a1 _. after_or_return _ _ _ _ λ a2 _. after_return_if _ _ _ _ λ _. ends _ _ refl)
