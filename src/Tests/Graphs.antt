-- ===== src/Tests/Graphs.antt =====
-- A graph of three nodes and three edges, and the theorems on graphs applied to it and to calls.
use mathlib.Core.List.{Memᴰ}
use zk_libcod.Prelude.{ℕ, get_or, ◌≡◌, ◌↔◌, refl, true, false, List, [], ◌∷◌, none, length, arith}
use zk_libcod.Prelude.Int.{pos}
use zk_libcod.Script.{Vec3, integer, vector}
use zk_libcod.Graph.{
  no_graph, AStarGraph, GraphNode, GraphEdge, Dvars, graph_by_id, no_stats, no_scratch,
}
use zk_libcod.Graph.Wellformed.{no_scratch-IsScratch, IsValid, total}
use zk_libcod.Graph.World.{IsWorld}
use zk_libcod.Graph.Session
use zk_libcod.Graph.Session.{Call, run_calls, run_calls-IsWorld, run_calls-IsCacheRight}
use zk_libcod.Graph.Nodes.{entomb_node}
use zk_libcod.Graph.Nodes.Burial.{Buries, entomb_node-Buries}
use zk_libcod.Graph.Registry.{gsc_graph_create, gsc_graph_remove, gsc_graph_cleanup_on_spawn_server}
use zk_libcod.Graph.Registry.Ids.{cleanup_iff}
use zk_libcod.Graph.Registry.Effects.{
  Creates, gsc_graph_create-Creates, graph_by_id-gsc_graph_remove,
}
use zk_libcod.Graph.Precompute.{shortest_path_tree, incoming_arcs, is_blocked, reverse_dijkstra}
use zk_libcod.Graph.Precompute.Ways.{
  HasNonnegCosts, IsCacheRight, IsBestTree, shortest_path_tree-IsBestTree, reverse_dijkstra-ends,
}
use zk_libcod.Tests.Numbers.{natural_floats, natural_laws}

abbrev pub place : ℕ → Vec3 ℕ
place x = record { x = x; y = 0; z = 0 }

abbrev edge : ℕ → ℕ → GraphEdge ℕ
edge to cost = record { to = to; type = pos 1; cost = cost }

abbrev node : ℕ → List (GraphEdge ℕ) → GraphNode ℕ
node x edges = record { origin = place x; type = pos 1; removed = false; edges = edges }

-- 0 leads to 1 and, at a higher cost than by 1, to 2.
abbrev pub triangle : AStarGraph ℕ
triangle = record {
  id = 0;
  persist = true;
  edge_count = 3;
  nodes = node 0 (edge 1 2 ∷ edge 2 9 ∷ []) ∷ node 10 (edge 2 3 ∷ []) ∷ node 20 [] ∷ [];
  stats = no_stats;
  scratch = no_scratch;
  precomputes = [];
}

pub triangle-IsValid : IsValid triangle
unfolding total
triangle-IsValid = record {
  sound = (
    record { targets = ((omega arith, refl), ((omega arith, refl), tt)); buried = λ h. cc },
    (
      record { targets = ((omega arith, refl), tt); buried = λ h. cc },
      (record { targets = tt; buried = λ h. cc }, tt),
    ),
  );
  counted = refl;
  cache_size = omega arith;
  scratch_ok = no_scratch-IsScratch 3;
  fresh = tt;
}

nonneg : (graph : AStarGraph ℕ) → HasNonnegCosts graph
nonneg graph u e live m = ground arith

shortest_path_tree-IsBestTree_example :
    IsBestTree triangle 2 (pos 0) (pos 0) (shortest_path_tree triangle 2 (pos 0) (pos 0))
shortest_path_tree-IsBestTree_example =
    shortest_path_tree-IsBestTree natural_laws triangle triangle-IsValid (nonneg triangle) 2 (pos 0)
      (pos 0) (omega arith)

reverse_dijkstra-ends_example :
    length
      (reverse_dijkstra
        (incoming_arcs (pos 0) triangle.nodes)
        (is_blocked triangle (pos 0))
        3
        2).heap
    ≡ 0
reverse_dijkstra-ends_example =
    reverse_dijkstra-ends natural_laws triangle triangle-IsValid (nonneg triangle) 2 (pos 0) (pos 0)
      (omega arith)

entomb_node-Buries_example : Buries 2 triangle.nodes (entomb_node triangle 2).nodes
entomb_node-Buries_example = entomb_node-Buries triangle triangle-IsValid 2 (omega arith)

abbrev dvars : Dvars ℕ
dvars = record { max_nodes = pos 10; max_graphs = pos 4; max_iterations = pos 100; weight = 1 }

-- Two nodes, an edge, a tree in the cache, the removal of a node, and a new map.
abbrev calls : List (Call ℕ)
calls =
    Session.create dvars (integer (pos 1) ∷ [])
    ∷ Session.add_node dvars (integer (pos 0) ∷ vector (place 1) ∷ [])
    ∷ Session.add_node dvars (integer (pos 0) ∷ vector (place 5) ∷ [])
    ∷ Session.add_edge (integer (pos 0) ∷ integer (pos 0) ∷ integer (pos 1) ∷ [])
    ∷ Session.precompute_paths_to_node (integer (pos 0) ∷ integer (pos 1) ∷ [])
    ∷ Session.remove_node (integer (pos 0) ∷ integer (pos 1) ∷ [])
    ∷ Session.spawn_server
    ∷ []

run_calls-IsWorld_example : IsWorld (run_calls calls [])
run_calls-IsWorld_example = run_calls-IsWorld calls

-- The tree is in the cache of the graph, for the goal 1.
abbrev cached_calls : List (Call ℕ)
cached_calls =
    Session.create dvars []
    ∷ Session.add_node dvars (integer (pos 0) ∷ vector (place 1) ∷ [])
    ∷ Session.add_node dvars (integer (pos 0) ∷ vector (place 5) ∷ [])
    ∷ Session.add_edge (integer (pos 0) ∷ integer (pos 0) ∷ integer (pos 1) ∷ [])
    ∷ Session.precompute_paths_to_node (integer (pos 0) ∷ integer (pos 1) ∷ [])
    ∷ []

run_calls-IsCacheRight_example : IsCacheRight (get_or (run_calls cached_calls []) 0 no_graph)
run_calls-IsCacheRight_example =
    run_calls-IsCacheRight natural_laws cached_calls 0
      (nonneg (get_or (run_calls cached_calls []) 0 no_graph))

triangle-IsWorld : IsWorld (triangle ∷ [])
triangle-IsWorld = record { valid = (triangle-IsValid, tt); distinct = (tt, tt) }

cleanup_iff_example :
    Memᴰ triangle (gsc_graph_cleanup_on_spawn_server (triangle ∷ []))
    ↔ (Memᴰ triangle (triangle ∷ []) × (triangle.persist ≡ true))
cleanup_iff_example = cleanup_iff (triangle ∷ []) triangle

graph_by_id-gsc_graph_remove_example :
    graph_by_id (gsc_graph_remove (triangle ∷ []) (integer (pos 0) ∷ [])).0 (pos 0) ≡ none
graph_by_id-gsc_graph_remove_example =
    graph_by_id-gsc_graph_remove (triangle ∷ []) (pos 0) triangle-IsWorld

gsc_graph_create-Creates_example :
    Creates dvars
      (triangle ∷ [])
      (integer (pos 1) ∷ [])
      (gsc_graph_create dvars (triangle ∷ []) (integer (pos 1) ∷ []))
gsc_graph_create-Creates_example =
    gsc_graph_create-Creates dvars (triangle ∷ []) (integer (pos 1) ∷ [])
