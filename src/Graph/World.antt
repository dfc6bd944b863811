-- ===== src/Graph/World.antt =====
-- The invariant of the static vector of graphs: every graph is well formed, and ids are distinct.
use zk_libcod.Prelude.{ℕ, ◌≡◌, some, get_or, set, All-set, All-get_or}
use zk_libcod.Prelude.Int.{ℤ}
use zk_libcod.Float.{FloatOps}
use zk_libcod.Graph.{Graphs, AStarGraph, graph_by_id, no_graph}
use zk_libcod.Graph.Lookup.{graph_by_id-some}
use zk_libcod.Graph.Wellformed.{IsValid, AllValid}
use zk_libcod.Graph.Registry.Ids.{HasDistinctIds, HasDistinctIds-set}

module _ {F : Type 0} ⦃fl : FloatOps F⦄ where
  pub record IsWorld (gs : Graphs F) : Type 0 where
    pub valid : AllValid gs
    pub distinct : HasDistinctIds gs

  module _ (gs : Graphs F) (world : IsWorld gs) (id : ℤ) (g : ℕ)
      (found : graph_by_id gs id ≡ some g) where
    pub graph_IsValid : IsValid (get_or gs g no_graph)
    graph_IsValid = All-get_or _ gs g no_graph world.valid (graph_by_id-some gs id g found).0

    -- The graph that was looked up may be written over by a valid one with its id.
    pub write-IsWorld :
        (graph : AStarGraph F)
        → IsValid graph
        → graph.id ≡ (get_or gs g no_graph).id
        → IsWorld (set gs g graph)
    write-IsWorld graph v same = record {
      valid = All-set _ gs g graph world.valid v;
      distinct =
          HasDistinctIds-set gs g graph no_graph (graph_by_id-some gs id g found).0 same
            world.distinct;
    }
