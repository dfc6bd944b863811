-- ===== src/Graph/Registry/Calls.antt =====
-- The calls that create and remove graphs keep the invariant of the graphs.
use zk_libcod.Prelude.{◌≡◌, refl, arith, List, [], All-append, All-erase_at, Bool-cases, inl, inr}
use zk_libcod.Prelude.Int.{pos, eqb_ℤ}
use zk_libcod.Float.{FloatOps}
use zk_libcod.Script.{Value}
use zk_libcod.Graph.{no_scratch, Graphs, Dvars, AStarGraph}
use zk_libcod.Graph.Reply.{ends, after_or_return, after_return_if, settle-Keeps}
use zk_libcod.Graph.Lookup.{graph_by_id-none}
use zk_libcod.Graph.Wellformed.{no_scratch-IsScratch, IsValid, total}
use zk_libcod.Graph.Precompute.Cache.{forget_stats-IsValid}
use zk_libcod.Graph.World.{IsWorld, graph_IsValid, write-IsWorld}
use zk_libcod.Graph.Registry.Ids.{
  lowest_free_id_lem, HasDistinctIds-append, HasDistinctIds-erase_at, HasDistinctIds-cleanup,
  cleanup-All,
}
use zk_libcod.Graph.Registry.{
  gsc_graph_create, gsc_graph_remove, gsc_graph_removeall, gsc_graph_get_stats,
  gsc_graph_cleanup_on_spawn_server,
}

module _ {F : Type 0} ⦃fl : FloatOps F⦄ where
  pub empty-IsWorld : IsWorld {F = F} []
  empty-IsWorld = record { valid = tt; distinct = tt }

  empty_graph-IsValid :
      (g : AStarGraph F)
      → g.nodes ≡ []
      → g.edge_count ≡ 0
      → g.precomputes ≡ []
      → g.scratch ≡ no_scratch
      → IsValid g
  unfolding total
  empty_graph-IsValid g bare e cold clean = record {
    sound = rw bare tt;
    counted = rw (bare, e) refl;
    scratch_ok = rw clean (no_scratch-IsScratch _);
    cache_size = rw cold (omega arith);
    fresh = rw cold tt;
  }

module _ {F : Type 0} ⦃fl : FloatOps F⦄ (gs : Graphs F) (args : List (Value F))
    (world : IsWorld gs) where
  pub create-IsWorld : (dvars : Dvars F) → IsWorld (gsc_graph_create dvars gs args).0
  unfolding gsc_graph_create
  create-IsWorld dvars = settle-Keeps IsWorld gs _ world (
      after_or_return IsWorld _ _ _ λ persist _. after_or_return IsWorld _ _ _ λ reserve _.
        after_return_if IsWorld _ _ _ λ _. ends _ _ (record {
          valid = All-append _ gs _ world.valid (empty_graph-IsValid _ refl refl refl refl, tt);
          distinct =
              HasDistinctIds-append gs _ world.distinct
                (graph_by_id-none gs _ (lowest_free_id_lem gs).0);
        }))

  pub remove-IsWorld : IsWorld (gsc_graph_remove gs args).0
  unfolding gsc_graph_remove
  remove-IsWorld = settle-Keeps IsWorld gs _ world (
      after_or_return IsWorld _ _ _ λ p _. after_or_return IsWorld _ _ _ λ g found.
        ends _ _ (record {
          valid = All-erase_at _ gs g world.valid;
          distinct = HasDistinctIds-erase_at gs g world.distinct;
        }))

  pub removeall-IsWorld : IsWorld (gsc_graph_removeall gs).0
  unfolding gsc_graph_removeall
  removeall-IsWorld = empty-IsWorld

  pub get_stats-IsWorld : IsWorld (gsc_graph_get_stats gs args).0
  unfolding gsc_graph_get_stats
  get_stats-IsWorld = settle-Keeps IsWorld gs _ world (
      after_or_return IsWorld _ _ _ λ p _. after_or_return IsWorld _ _ _ λ reset _.
        after_or_return IsWorld _ _ _ λ g found. ends _ _ (elim (Bool-cases (eqb_ℤ reset (pos 0))) [
          | inl keep ↦ rw keep world
          | inr clear ↦
              let v = graph_IsValid gs world p.0 g found in
              rw clear (write-IsWorld gs world p.0 g found _ (forget_stats-IsValid _ _ v) refl)
        ]))

  pub cleanup-IsWorld : IsWorld (gsc_graph_cleanup_on_spawn_server gs)
  cleanup-IsWorld = record {
    valid = cleanup-All IsValid gs world.valid;
    distinct = HasDistinctIds-cleanup gs world.distinct;
  }
