-- ===== src/Graph/Edges/Calls.antt =====
-- The calls of a script on edges keep the invariant of the graphs, whatever the parameters are.
use zk_libcod.Prelude.{refl, ◌≡◌, List, arith, get_or, Option-cases, inl, inr}
use zk_libcod.Float.{FloatOps}
use zk_libcod.Script.{Value}
use zk_libcod.Graph.{Graphs, no_graph, node_at, edge_index}
use zk_libcod.Graph.Reply.{ends, after_or_return, after_return_if, settle-Keeps}
use zk_libcod.Graph.Lookup.{node_index-some, find_edge_index-some}
use zk_libcod.Graph.World.{IsWorld, graph_IsValid, write-IsWorld}
use zk_libcod.Graph.Wellformed.{source_IsLive}
use zk_libcod.Graph.Edges.Keeps.{
  id-append_edge, id-replace_edge, id-drop_edge, append_edge-IsValid, replace_edge-IsValid,
  drop_edge-IsValid,
}
use zk_libcod.Graph.Edges.{
  gsc_graph_add_edge, gsc_graph_set_edge_cost, gsc_graph_set_edge_type, gsc_graph_remove_edge,
  gsc_graph_get_edge_properties, gsc_graph_get_edge_count,
}

module _ {F : Type 0} ⦃fl : FloatOps F⦄ (gs : Graphs F) (args : List (Value F))
    (world : IsWorld gs) where
  pub add_edge-IsWorld : IsWorld (gsc_graph_add_edge gs args).0
  unfolding gsc_graph_add_edge
  add_edge-IsWorld = settle-Keeps IsWorld gs _ world (
      after_or_return IsWorld _ _ _ λ p _. after_or_return IsWorld _ _ _ λ type _.
        after_or_return IsWorld _ _ _ λ cost _. after_or_return IsWorld _ _ _ λ g found.
          after_or_return IsWorld _ _ _ λ u from. after_or_return IsWorld _ _ _ λ v to.
            after_return_if IsWorld _ _ _ λ other. after_return_if IsWorld _ _ _ λ live.
              elim (Option-cases (edge_index (node_at (get_or gs g no_graph).nodes u).edges v)) [
                | inl fresh ↦ rw fresh (
                    ends _ _ (
                      write-IsWorld gs world p.0 g found _
                        (append_edge-IsValid (get_or gs g no_graph)
                          (graph_IsValid gs world p.0 g found) u
                          ((node_index-some _ _ u from).0, ground arith) _
                          ((node_index-some _ _ v to).0, ground arith))
                        (id-append_edge _ _ _)))
                | inr (_, old) ↦ rw old (ends _ _ world)
              ])

  pub set_edge_cost-IsWorld : IsWorld (gsc_graph_set_edge_cost gs args).0
  unfolding gsc_graph_set_edge_cost
  set_edge_cost-IsWorld = settle-Keeps IsWorld gs _ world (
      after_or_return IsWorld _ _ _ λ p _. after_or_return IsWorld _ _ _ λ cost _.
        after_return_if IsWorld _ _ _ λ _. after_or_return IsWorld _ _ _ λ g found.
          after_or_return IsWorld _ _ _ λ idx edge.
            let v = graph_IsValid gs world p.0 g found in
            let (inside, room, _) = find_edge_index-some _ p.1.0 p.1.1.0 idx edge in
            ends _ _ (
              write-IsWorld gs world p.0 g found _
                (replace_edge-IsValid _ v _ (source_IsLive _ v _ idx inside room) idx _ room refl)
                (id-replace_edge _ _ _ _)))

  pub set_edge_type-IsWorld : IsWorld (gsc_graph_set_edge_type gs args).0
  unfolding gsc_graph_set_edge_type
  set_edge_type-IsWorld = settle-Keeps IsWorld gs _ world (
      after_or_return IsWorld _ _ _ λ p _. after_or_return IsWorld _ _ _ λ g found.
        after_or_return IsWorld _ _ _ λ idx edge.
          let v = graph_IsValid gs world p.0 g found in
          let (inside, room, _) = find_edge_index-some _ p.1.0 p.1.1.0 idx edge in
          ends _ _ (
            write-IsWorld gs world p.0 g found _
              (replace_edge-IsValid _ v _ (source_IsLive _ v _ idx inside room) idx _ room refl)
              (id-replace_edge _ _ _ _)))

  pub remove_edge-IsWorld : IsWorld (gsc_graph_remove_edge gs args).0
  unfolding gsc_graph_remove_edge
  remove_edge-IsWorld = settle-Keeps IsWorld gs _ world (
      after_or_return IsWorld _ _ _ λ p _. after_or_return IsWorld _ _ _ λ g found.
        after_or_return IsWorld _ _ _ λ idx edge.
          let v = graph_IsValid gs world p.0 g found in
          let (inside, room, _) = find_edge_index-some _ p.1.0 p.1.1.0 idx edge in
          ends _ _ (
            write-IsWorld gs world p.0 g found _
              (drop_edge-IsValid _ v _ (source_IsLive _ v _ idx inside room) idx room)
              (id-drop_edge _ _ _)))

module _ {F : Type 0} ⦃fl : FloatOps F⦄ (gs : Graphs F) (args : List (Value F)) where
  pub get_edge_properties-same : (gsc_graph_get_edge_properties gs args).0 ≡ gs
  unfolding gsc_graph_get_edge_properties
  get_edge_properties-same =
      settle-Keeps (λ after. after ≡ gs) gs _ refl
        (after_or_return _ _ _ _
          λ a0 _. after_or_return _ _ _ _ λ a1 _. after_or_return _ _ _ _ λ a2 _. ends _ _ refl)

  pub get_edge_count-same : (gsc_graph_get_edge_count gs args).0 ≡ gs
  unfolding gsc_graph_get_edge_count
  get_edge_count-same =
      settle-Keeps (λ after. after ≡ gs) gs _ refl
        (after_or_return _ _ _ _ λ a0 _. after_or_return _ _ _ _ λ a1 _. ends _ _ refl)
