-- ===== src/Graph/Session.antt =====
-- What scripts do to the graphs of code/gsc_graph.cpp: any sequence of calls, each with any parameters
-- and any values of the server variables, and the cleanup between two maps.
use zk_libcod.Prelude.{
  ℕ, Bool-cases, inl, inr, ltb, arith, get_or_past, length, get_or, All-get_or, sym, subst, List,
  [], ◌∷◌, Bool,
}
use zk_libcod.Prelude.Int.{ℤ}
use zk_libcod.Graph.Reach.{
  gsc_graph_get_node_ids_accessible_from, gsc_graph_get_node_ids_accessible_to,
}
use zk_libcod.Graph.Reach.Accessible.{
  get_node_ids_accessible_from-same, get_node_ids_accessible_to-same,
}
use zk_libcod.Graph.Closest.{gsc_graph_find_closest_node}
use zk_libcod.Graph.Closest.Nearest.{find_closest_node-same}
use zk_libcod.Float.{FloatOps, FloatLaws}
use zk_libcod.Script.{Value, Vec3}
use zk_libcod.Graph.{Graphs, Dvars, no_graph}
use zk_libcod.Graph.Wellformed.{IsValid}
use zk_libcod.Graph.Precompute.Ways.{HasNonnegCosts, IsCacheRight, IsValid-IsCacheRight}
use zk_libcod.Graph.World.{IsWorld}
use zk_libcod.Graph.Registry.{
  gsc_graph_create, gsc_graph_remove, gsc_graph_get_stats, gsc_graph_removeall,
  gsc_graph_cleanup_on_spawn_server,
}
use zk_libcod.Graph.Registry.Calls.{
  create-IsWorld, remove-IsWorld, get_stats-IsWorld, removeall-IsWorld, cleanup-IsWorld,
  empty-IsWorld,
}
use zk_libcod.Graph.Nodes.{
  gsc_graph_add_node, gsc_graph_get_node_properties, gsc_graph_set_node_type,
  gsc_graph_set_node_origin, gsc_graph_remove_node, gsc_graph_get_node_origin,
  gsc_graph_get_node_count,
}
use zk_libcod.Graph.Nodes.Calls.{
  add_node-IsWorld, get_node_properties-same, set_node_type-IsWorld, set_node_origin-IsWorld,
  remove_node-IsWorld, get_node_origin-same, get_node_count-same,
}
use zk_libcod.Graph.Edges.{
  gsc_graph_add_edge, gsc_graph_get_edge_properties, gsc_graph_set_edge_cost,
  gsc_graph_set_edge_type, gsc_graph_remove_edge, gsc_graph_get_edge_count,
}
use zk_libcod.Graph.Edges.Calls.{
  add_edge-IsWorld, get_edge_properties-same, set_edge_cost-IsWorld, set_edge_type-IsWorld,
  remove_edge-IsWorld, get_edge_count-same,
}
use zk_libcod.Graph.FindPath.{gsc_graph_find_path}
use zk_libcod.Graph.FindPath.Calls.{find_path-IsWorld}
use zk_libcod.Graph.Listing.{
  gsc_graph_get_all_nodes, gsc_graph_get_all_edges, gsc_graph_find_closest_edge,
}
use zk_libcod.Graph.Listing.Listed.{get_all_nodes-same, get_all_edges-same, find_closest_edge-same}
use zk_libcod.Graph.File.{FloatBits, FileSystem, gsc_graph_load}
use zk_libcod.Graph.File.Keeps.{load-IsWorld}
use zk_libcod.Graph.Precompute.{gsc_graph_precompute_paths_to_node}
use zk_libcod.Graph.Precompute.Cache.{precompute_paths_to_node-IsWorld}

pub data Call (F : Type 0) : Type 0 where
  get_node_ids_accessible_from get_node_ids_accessible_to : List (Value F) → Call F
  find_closest_node : (Vec3 F → Vec3 F → ℤ → Bool) → List (Value F) → Call F
  find_path : Dvars F → ℕ → (ℕ → List (Value F)) → List (Value F) → Call F
  -- The files as the call finds them.
  load : FloatBits F → FileSystem (Unit {0}) → (ℕ → Bool) → Dvars F → List (Value F) → Call F
  create add_node : Dvars F → List (Value F) → Call F
  remove add_edge get_edge_properties set_edge_cost set_edge_type remove_edge get_edge_count
        get_node_properties set_node_type set_node_origin remove_node get_node_origin get_node_count
        get_stats precompute_paths_to_node :
      List (Value F) → Call F
  get_all_nodes get_all_edges find_closest_edge : List (Value F) → Call F
  removeall spawn_server : Call F

module _ {F : Type 0} ⦃fl : FloatOps F⦄ where
  -- The graphs that a call leaves.
  pub run_call : Call F → Graphs F → Graphs F
  run_call (create dvars args) gs = (gsc_graph_create dvars gs args).0
  run_call (remove args) gs = (gsc_graph_remove gs args).0
  run_call (add_node dvars args) gs = (gsc_graph_add_node dvars gs args).0
  run_call (add_edge args) gs = (gsc_graph_add_edge gs args).0
  run_call (get_edge_properties args) gs = (gsc_graph_get_edge_properties gs args).0
  run_call (set_edge_cost args) gs = (gsc_graph_set_edge_cost gs args).0
  run_call (set_edge_type args) gs = (gsc_graph_set_edge_type gs args).0
  run_call (remove_edge args) gs = (gsc_graph_remove_edge gs args).0
  run_call (get_edge_count args) gs = (gsc_graph_get_edge_count gs args).0
  run_call (get_node_properties args) gs = (gsc_graph_get_node_properties gs args).0
  run_call (set_node_type args) gs = (gsc_graph_set_node_type gs args).0
  run_call (set_node_origin args) gs = (gsc_graph_set_node_origin gs args).0
  run_call (remove_node args) gs = (gsc_graph_remove_node gs args).0
  run_call (get_node_origin args) gs = (gsc_graph_get_node_origin gs args).0
  run_call (get_node_count args) gs = (gsc_graph_get_node_count gs args).0
  run_call (get_stats args) gs = (gsc_graph_get_stats gs args).0
  run_call (precompute_paths_to_node args) gs = (gsc_graph_precompute_paths_to_node gs args).0
  run_call (get_node_ids_accessible_from args) gs =
      (gsc_graph_get_node_ids_accessible_from gs args).0
  run_call (get_node_ids_accessible_to args) gs = (gsc_graph_get_node_ids_accessible_to gs args).0
  run_call (find_closest_node trace args) gs = (gsc_graph_find_closest_node trace gs args).0
  run_call (find_path dvars elapsed values_of args) gs =
      (gsc_graph_find_path dvars elapsed values_of gs args).0
  run_call (load fb fs alloc dvars args) gs = (gsc_graph_load fb fs alloc dvars gs args tt).1.0
  run_call (get_all_nodes args) gs = (gsc_graph_get_all_nodes gs args).0
  run_call (get_all_edges args) gs = (gsc_graph_get_all_edges gs args).0
  run_call (find_closest_edge args) gs = (gsc_graph_find_closest_edge gs args).0
  run_call removeall gs = (gsc_graph_removeall gs).0
  run_call spawn_server gs = gsc_graph_cleanup_on_spawn_server gs

  pub run_calls : List (Call F) → Graphs F → Graphs F
  unfolding run_call
  run_calls [] gs = gs
  run_calls (c ∷ cs) gs = run_calls cs (run_call c gs)

  run_call-IsWorld : (c : Call F) (gs : Graphs F) → IsWorld gs → IsWorld (run_call c gs)
  unfolding run_call
  run_call-IsWorld (create dvars args) gs world = create-IsWorld gs args world dvars
  run_call-IsWorld (remove args) gs world = remove-IsWorld gs args world
  run_call-IsWorld (add_node dvars args) gs world = add_node-IsWorld gs args world dvars
  run_call-IsWorld (add_edge args) gs world = add_edge-IsWorld gs args world
  run_call-IsWorld (get_edge_properties args) gs world =
      subst IsWorld (sym (get_edge_properties-same gs args)) world
  run_call-IsWorld (set_edge_cost args) gs world = set_edge_cost-IsWorld gs args world
  run_call-IsWorld (set_edge_type args) gs world = set_edge_type-IsWorld gs args world
  run_call-IsWorld (remove_edge args) gs world = remove_edge-IsWorld gs args world
  run_call-IsWorld (get_edge_count args) gs world =
      subst IsWorld (sym (get_edge_count-same gs args)) world
  run_call-IsWorld (get_node_properties args) gs world =
      subst IsWorld (sym (get_node_properties-same gs args)) world
  run_call-IsWorld (set_node_type args) gs world = set_node_type-IsWorld gs args world
  run_call-IsWorld (set_node_origin args) gs world = set_node_origin-IsWorld gs args world
  run_call-IsWorld (remove_node args) gs world = remove_node-IsWorld gs args world
  run_call-IsWorld (get_node_origin args) gs world =
      subst IsWorld (sym (get_node_origin-same gs args)) world
  run_call-IsWorld (get_node_count args) gs world =
      subst IsWorld (sym (get_node_count-same gs args)) world
  run_call-IsWorld (get_stats args) gs world = get_stats-IsWorld gs args world
  run_call-IsWorld (precompute_paths_to_node args) gs world =
      precompute_paths_to_node-IsWorld gs args world
  run_call-IsWorld (get_node_ids_accessible_from args) gs world =
      subst IsWorld (sym (get_node_ids_accessible_from-same gs args)) world
  run_call-IsWorld (get_node_ids_accessible_to args) gs world =
      subst IsWorld (sym (get_node_ids_accessible_to-same gs args)) world
  run_call-IsWorld (find_closest_node trace args) gs world =
      subst IsWorld (sym (find_closest_node-same trace gs args)) world
  run_call-IsWorld (find_path dvars elapsed values_of args) gs world =
      find_path-IsWorld dvars elapsed values_of gs args world
  run_call-IsWorld (load fb fs alloc dvars args) gs world =
      load-IsWorld fb fs alloc gs dvars args tt world
  run_call-IsWorld (get_all_nodes args) gs world =
      subst IsWorld (sym (get_all_nodes-same gs args)) world
  run_call-IsWorld (get_all_edges args) gs world =
      subst IsWorld (sym (get_all_edges-same gs args)) world
  run_call-IsWorld (find_closest_edge args) gs world =
      subst IsWorld (sym (find_closest_edge-same gs args)) world
  run_call-IsWorld removeall gs world = removeall-IsWorld gs [] world
  run_call-IsWorld spawn_server gs world = cleanup-IsWorld gs [] world

  run_calls-IsWorld_from :
      (cs : List (Call F)) (gs : Graphs F) → IsWorld gs → IsWorld (run_calls cs gs)
  unfolding run_calls
  run_calls-IsWorld_from [] gs world = world
  run_calls-IsWorld_from (c ∷ cs) gs world =
      run_calls-IsWorld_from cs (run_call c gs) (run_call-IsWorld c gs world)

  -- After any sequence of calls of the modelled functions, from no graphs, every graph is well formed (edges
  -- lead to nodes that are there, removed nodes have no edges, the edge counter counts the edges, at most
  -- eight trees are cached and each is what a search over the graph as it is now gives; the scratch of a search
  -- fits its nodes and holds no stamp that is still to be given), and the ids of the
  -- graphs are distinct.
  pub run_calls-IsWorld : (cs : List (Call F)) → IsWorld (run_calls cs [])
  run_calls-IsWorld cs = run_calls-IsWorld_from cs [] empty-IsWorld

  -- Under the laws of floats, after any sequence of calls of the modelled functions, from no graphs, in each graph
  -- whose edge costs are now numbers that are not negative, every tree in the cache is right for the graph as it is
  -- now. Its goal is a node that is there. For each node it records a cost that no way to the goal is under, among the
  -- ways along edges and over nodes of types that it does not skip; unless it is the largest float, it is the cost of
  -- such a way, and the tree names the next node on a way of that cost, for every node but the goal.
  pub run_calls-IsCacheRight :
      FloatLaws fl
      → (cs : List (Call F)) (g : ℕ) → HasNonnegCosts (get_or (run_calls cs []) g no_graph)
      → IsCacheRight (get_or (run_calls cs []) g no_graph)
  run_calls-IsCacheRight laws cs g nonneg =
      let gs = run_calls cs [] in
      elim (Bool-cases (ltb g (length gs))) [
        | inl inside ↦
            IsValid-IsCacheRight laws (get_or gs g no_graph)
              (All-get_or IsValid gs g no_graph (run_calls-IsWorld cs).valid (ground arith)) nonneg
        | inr past ↦ rw (get_or_past gs g no_graph (ground arith)) tt
      ]
