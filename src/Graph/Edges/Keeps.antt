-- ===== src/Graph/Edges/Keeps.antt =====
-- The functions on edges keep every graph well formed.
use zk_libcod.Prelude.{
  ℕ, ◌<◌, ◌≡◌, refl, List, [], ◌∷◌, ◌++◌, arith, length, set, erase_at, length-set, length-append,
  length-erase_at, All, All-append, All-set, All-get_or, All-erase_at,
}
use zk_libcod.Float.{FloatOps}
use zk_libcod.Graph.{AStarGraph, GraphNode, GraphEdge, node_at, invalidate_precompute}
use zk_libcod.Graph.Wellformed.{IsLive, IsSound, IsValid, set-IsSound, total-set}
use zk_libcod.Graph.Edges.{set_edges, append_edge, replace_edge, drop_edge, edge_at}

module _ {F : Type 0} ⦃fl : FloatOps F⦄ where
  -- Writing edges that lead to live nodes over those of a live node.
  set_edges-IsSound :
      (nodes : List (GraphNode F)) (i : ℕ) (edges : List (GraphEdge F))
      → IsLive nodes i
      → All (λ e. IsLive nodes e.to) edges
      → All (IsSound nodes) nodes
      → All (IsSound (set_edges nodes i edges)) (set_edges nodes i edges)
  set_edges-IsSound nodes i edges live targets all =
      set-IsSound nodes i _ live.0 refl (record { targets = targets; buried = λ e. cc }) all

  module _ (g : AStarGraph F) (v : IsValid g) (u : ℕ) (live : IsLive g.nodes u) where
    old_targets : All (λ e. IsLive g.nodes e.to) (node_at g.nodes u).edges
    old_targets = (All-get_or _ g.nodes u _ v.sound live.0).targets

    pub append_edge-IsValid : (e : GraphEdge F) → IsLive g.nodes e.to → IsValid (append_edge g u e)
    unfolding append_edge invalidate_precompute
    append_edge-IsValid e there =
        let edges = (node_at g.nodes u).edges in
        record {
          sound =
              set_edges-IsSound g.nodes u _ live
                (All-append _ edges (e ∷ []) old_targets (there, tt)) v.sound;
          counted = omega (
            arith,
            v.counted,
            total-set g.nodes u (record (node_at g.nodes u) { edges = edges ++ e ∷ [] }) live.0,
            length-append edges (e ∷ []),
          );
          scratch_ok = rw length-set v.scratch_ok;
          cache_size = omega arith;
          fresh = tt;
        }

    pub replace_edge-IsValid :
        (idx : ℕ) (e : GraphEdge F)
        → idx < length (node_at g.nodes u).edges
        → e.to ≡ (edge_at g u idx).to
        → IsValid (replace_edge g u idx e)
    unfolding replace_edge invalidate_precompute
    replace_edge-IsValid idx e inside same =
        let edges = (node_at g.nodes u).edges in
        let there : IsLive g.nodes e.to = rw same (All-get_or _ edges idx _ old_targets inside) in
        record {
          sound =
              set_edges-IsSound g.nodes u _ live (All-set _ edges idx e old_targets there) v.sound;
          counted = omega (
            arith,
            v.counted,
            total-set g.nodes u (record (node_at g.nodes u) { edges = set edges idx e }) live.0,
            length-set edges idx e,
          );
          scratch_ok = rw length-set v.scratch_ok;
          cache_size = omega arith;
          fresh = tt;
        }

    pub drop_edge-IsValid :
        (idx : ℕ) → idx < length (node_at g.nodes u).edges → IsValid (drop_edge g u idx)
    unfolding drop_edge invalidate_precompute
    drop_edge-IsValid idx inside =
        let edges = (node_at g.nodes u).edges in
        record {
          sound = set_edges-IsSound g.nodes u _ live (All-erase_at _ edges idx old_targets) v.sound;
          counted = omega (
            arith,
            v.counted,
            total-set g.nodes u (record (node_at g.nodes u) { edges = erase_at edges idx }) live.0,
            length-erase_at edges idx inside,
          );
          scratch_ok = rw length-set v.scratch_ok;
          cache_size = omega arith;
          fresh = tt;
        }

  pub id-append_edge : (g : AStarGraph F) (u : ℕ) (e : GraphEdge F) → (append_edge g u e).id ≡ g.id
  unfolding append_edge invalidate_precompute
  id-append_edge g u e = refl

  pub id-replace_edge :
      (g : AStarGraph F) (u idx : ℕ) (e : GraphEdge F) → (replace_edge g u idx e).id ≡ g.id
  unfolding replace_edge invalidate_precompute
  id-replace_edge g u idx e = refl

  pub id-drop_edge : (g : AStarGraph F) (u idx : ℕ) → (drop_edge g u idx).id ≡ g.id
  unfolding drop_edge invalidate_precompute
  id-drop_edge g u idx = refl
