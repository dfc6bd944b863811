-- ===== src/Graph/Nodes/Calls.antt =====
-- The calls of a script on nodes keep the invariant of the graphs, whatever the parameters are.
use zk_libcod.Prelude.{ℕ, ◌≡◌, refl, List, some, Option-cases, Bool-cases, inl, inr}
use zk_libcod.Prelude.Int.{ℤ, pos}
use zk_libcod.Float.{FloatOps}
use zk_libcod.Script.{Value}
use zk_libcod.Graph.{Graphs, AStarGraph, Dvars, node_index, node_at}
use zk_libcod.Graph.Reply.{ends, after_or_return, after_return_if, settle-Keeps}
use zk_libcod.Graph.Lookup.{node_index-some}
use zk_libcod.Graph.World.{IsWorld, graph_IsValid, write-IsWorld}
use zk_libcod.Graph.Wellformed.{IsLive}
use zk_libcod.Graph.Nodes.Keeps.{
  id-append_node, id-replace_node, id-move_node, append_node-IsValid, replace_node-IsValid,
  move_node-IsValid,
}
use zk_libcod.Graph.Nodes.Burial.{entomb_node-IsValid, id-entomb_node}
use zk_libcod.Graph.Nodes.{
  live_index, gsc_graph_add_node, gsc_graph_set_node_type, gsc_graph_set_node_origin,
  gsc_graph_remove_node, gsc_graph_get_node_properties, gsc_graph_get_node_origin,
  gsc_graph_get_node_count,
}

module _ {F : Type 0} ⦃fl : FloatOps F⦄ where
  pub live_index-some :
      (g : AStarGraph F) (id : ℤ) (i : ℕ)
      → live_index g id ≡ some i
      → IsLive g.nodes i × (id ≡ pos i)
  unfolding live_index
  live_index-some g id i e = elim (Option-cases (node_index g id)) [
    | inl nowhere ↦ cc (rw (nowhere, live_index) at e)
    | inr (j, found) ↦ elim (Bool-cases (node_at g.nodes j).removed) [
      | inl gone ↦ cc (rw (found, gone, live_index) at e)
      | inr live ↦
          let same : some j ≡ some i = rw (found, live, live_index) at e in
          let index : j ≡ i = cc in
          let (inside, is_pos) = node_index-some g id j found in
          rw (← index) ((inside, live), is_pos)
    ]
  ]

module _ {F : Type 0} ⦃fl : FloatOps F⦄ (gs : Graphs F) (args : List (Value F))
    (world : IsWorld gs) where
  pub add_node-IsWorld : (dvars : Dvars F) → IsWorld (gsc_graph_add_node dvars gs args).0
  unfolding gsc_graph_add_node
  add_node-IsWorld dvars = settle-Keeps IsWorld gs _ world (
      after_or_return IsWorld _ _ _ λ p _. after_or_return IsWorld _ _ _ λ type _.
        after_or_return IsWorld _ _ _ λ node_id _. after_or_return IsWorld _ _ _ λ g found.
          after_return_if IsWorld _ _ _ λ _. after_return_if IsWorld _ _ _ λ _. ends _ _ (
            write-IsWorld gs world p.0 g found _
              (append_node-IsValid _ _ (graph_IsValid gs world p.0 g found) refl)
              (id-append_node _ _)))

  pub set_node_type-IsWorld : IsWorld (gsc_graph_set_node_type gs args).0
  unfolding gsc_graph_set_node_type
  set_node_type-IsWorld = settle-Keeps IsWorld gs _ world (
      after_or_return IsWorld _ _ _ λ p _. after_or_return IsWorld _ _ _ λ g found.
        after_or_return IsWorld _ _ _ λ i live. ends _ _ (
          write-IsWorld gs world p.0 g found _
            (replace_node-IsValid _ i _ (graph_IsValid gs world p.0 g found)
              (live_index-some _ _ i live).0.0 (refl, refl))
            (id-replace_node _ _ _)))

  pub set_node_origin-IsWorld : IsWorld (gsc_graph_set_node_origin gs args).0
  unfolding gsc_graph_set_node_origin
  set_node_origin-IsWorld = settle-Keeps IsWorld gs _ world (
      after_or_return IsWorld _ _ _ λ p _. after_or_return IsWorld _ _ _ λ origin _.
        after_or_return IsWorld _ _ _ λ g found. after_or_return IsWorld _ _ _ λ i live. ends _ _ (
          write-IsWorld gs world p.0 g found _
            (move_node-IsValid _ i origin (graph_IsValid gs world p.0 g found)
              (live_index-some _ _ i live).0.0)
            (id-move_node _ _ _)))

  pub remove_node-IsWorld : IsWorld (gsc_graph_remove_node gs args).0
  unfolding gsc_graph_remove_node
  remove_node-IsWorld = settle-Keeps IsWorld gs _ world (
      after_or_return IsWorld _ _ _ λ p _. after_or_return IsWorld _ _ _ λ g found.
        after_or_return IsWorld _ _ _ λ i live. ends _ _ (
          write-IsWorld gs world p.0 g found _
            (entomb_node-IsValid _ (graph_IsValid gs world p.0 g found) i
              (live_index-some _ _ i live).0.0)
            (id-entomb_node _ _)))

module _ {F : Type 0} ⦃fl : FloatOps F⦄ (gs : Graphs F) (args : List (Value F)) where
  pub get_node_properties-same : (gsc_graph_get_node_properties gs args).0 ≡ gs
  unfolding gsc_graph_get_node_properties
  get_node_properties-same =
      settle-Keeps (λ after. after ≡ gs) gs _ refl
        (after_or_return _ _ _ _
          λ a0 _. after_or_return _ _ _ _ λ a1 _. after_or_return _ _ _ _ λ a2 _. ends _ _ refl)

  pub get_node_origin-same : (gsc_graph_get_node_origin gs args).0 ≡ gs
  unfolding gsc_graph_get_node_origin
  get_node_origin-same =
      settle-Keeps (λ after. after ≡ gs) gs _ refl
        (after_or_return _ _ _ _ λ a0 _.
          after_or_return _ _ _ _
            λ a1 _. after_or_return _ _ _ _ λ a2 _. after_return_if _ _ _ _ λ _. ends _ _ refl)

  pub get_node_count-same : (gsc_graph_get_node_count gs args).0 ≡ gs
  unfolding gsc_graph_get_node_count
  get_node_count-same =
      settle-Keeps (λ after. after ≡ gs) gs _ refl
        (after_or_return _ _ _ _ λ a0 _. after_or_return _ _ _ _ λ a1 _. ends _ _ refl)
