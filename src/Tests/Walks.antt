-- ===== src/Tests/Walks.antt =====
-- The theorems on the walks and on the closest node, applied to the triangle.
use mathlib.Core.List.{Memᴰ}
use zk_libcod.Prelude.{◌<◌, some, ◌↔◌, ◌≡◌, refl, [], ◌∷◌, arith, true, false}
use zk_libcod.Graph.Reach.{accessible_from, accessible_to}
use zk_libcod.Graph.Reach.Accessible.{Trail, accessible_from_iff}
use zk_libcod.Graph.Reach.Sources.{accessible_to_iff}
use zk_libcod.Graph.Closest.{closest_node}
use zk_libcod.Graph.Closest.Nearest.{IsLeast, closest_node-IsLeast}
use zk_libcod.Graph.{node_at}
use zk_libcod.Graph.Listing.{listed_ids, closest_edge}
use zk_libcod.Graph.Listing.Listed.{IsNear, listed_ids_iff}
use zk_libcod.Graph.Listing.Nearest.{IsNearest, Before, closest_edge-IsNearest}
use zk_libcod.Script.{integer, float, push_array}
use zk_libcod.Graph.{graph_by_id, find_edge_index}
use zk_libcod.Graph.Reply.{answer}
use zk_libcod.Graph.Edges.{gsc_graph_get_edge_properties, gsc_graph_set_edge_cost}
use zk_libcod.Graph.Edges.Setters.{get_edge_properties-gsc_graph_set_edge_cost}
use zk_libcod.Prelude.Int.{pos}
use zk_libcod.Tests.Numbers.{natural_floats, natural_laws}
use zk_libcod.Tests.Graphs.{triangle, triangle-IsValid, place}

accessible_from_iff_example : Memᴰ 2 (accessible_from triangle 1) ↔ Trail triangle.nodes 1 2
accessible_from_iff_example = accessible_from_iff triangle triangle-IsValid 1 (omega arith) 2

accessible_to_iff_example : Memᴰ 0 (accessible_to triangle 1) ↔ Trail triangle.nodes 0 1
accessible_to_iff_example = accessible_to_iff triangle triangle-IsValid 1 (omega arith) 0

closest_node-IsLeast_example :
    IsLeast natural_laws
      (λ there. true)
      (place 11)
      triangle.nodes
      3
      (closest_node (λ there. true) (place 11) triangle.nodes)
closest_node-IsLeast_example =
    closest_node-IsLeast natural_laws (λ there. true) (place 11) triangle.nodes
      (λ j h. ground arith)

-- The edge from 0 to 2 at a new cost.
get_edge_properties-gsc_graph_set_edge_cost_example :
    (gsc_graph_get_edge_properties
      (gsc_graph_set_edge_cost
        (triangle ∷ [])
        (integer (pos 0) ∷ integer (pos 0) ∷ integer (pos 2) ∷ float 4 ∷ [])).0
      (integer (pos 0) ∷ integer (pos 0) ∷ integer (pos 2) ∷ [])).1
    ≡ answer (push_array (integer (pos 1) ∷ float 4 ∷ []))
unfolding graph_by_id find_edge_index
get_edge_properties-gsc_graph_set_edge_cost_example =
    get_edge_properties-gsc_graph_set_edge_cost (triangle ∷ []) (pos 0) (pos 0) (pos 2) 4 0 1 refl
      refl refl

-- The nodes within 10 of the place 5.
listed_ids_iff_example : Memᴰ 1 (listed_ids (some (place 5)) 30 0 triangle.nodes) ↔ (
    (1 < 3)
    × ((node_at triangle.nodes 1).removed ≡ false)
    × IsNear (some (place 5)) 30 (node_at triangle.nodes 1).origin)
listed_ids_iff_example = listed_ids_iff (some (place 5)) 30 triangle.nodes 1

closest_edge-IsNearest_example :
    IsNearest natural_laws
      (place 4)
      triangle.nodes
      (Before natural_laws (place 4) triangle.nodes 3)
      (closest_edge (place 4) triangle.nodes)
closest_edge-IsNearest_example =
    closest_edge-IsNearest natural_laws (place 4) triangle.nodes (λ i e s. ground arith)
