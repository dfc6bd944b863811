-- ===== src/Graph/Registry.antt =====
-- The vector of graphs: graphCreate, graphRemove, graphRemoveAll, graphGetStats and
-- gsc_graph_cleanup_on_spawn_server of code/gsc_graph.cpp.
pub mod Ids
pub mod Calls
pub mod Effects
use zk_libcod.Prelude.{
  ℕ, zero, suc, ◌/◌, true, not, List, [], ◌∷◌, ◌++◌, none, some, ◌==◌, if◌then◌else◌, length,
  get_or, set, erase_at,
}
use zk_libcod.Prelude.Int.{pos, eqb_ℤ, leb_ℤ, signed32}
use zk_libcod.Float.{FloatOps}
use zk_libcod.Script.{
  Value, integer, int_param, stack_get_params, optional_int, push_undefined, push_bool, push_int,
  push_array,
}
use zk_libcod.Graph.{Graphs, AStarGraph, Dvars, no_stats, no_scratch, graph_by_id, no_graph}
use zk_libcod.Graph.Reply.{
  Reply, answer, refuse, go_on, ◌>>=◌, ◌>>◌, or_return, return_if, settle, bad_parameters, bad_type,
  no_such_graph, graph_limit,
}

module _ {F : Type 0} where
  -- `while ( graphById(id) ) id++;` from `id` on.
  pub next_free_id : ℕ → Graphs F → ℕ → ℕ
  next_free_id zero gs id = id
  next_free_id (suc rounds) gs id =
      let rest = next_free_id rounds gs (suc id) in
      elim (graph_by_id gs (pos id)) [ none ↦ id | some _ ↦ rest ]

  -- One round for each graph is enough, since each round passes the id of another graph.
  pub lowest_free_id : Graphs F → ℕ
  lowest_free_id gs = next_free_id (length gs) gs 0

  -- The loop of gsc_graph_cleanup_on_spawn_server.
  pub gsc_graph_cleanup_on_spawn_server : Graphs F → Graphs F
  gsc_graph_cleanup_on_spawn_server [] = []
  gsc_graph_cleanup_on_spawn_server (g ∷ gs) =
      let rest = gsc_graph_cleanup_on_spawn_server gs in if g.persist then g ∷ rest else rest

  pub gsc_graph_removeall : Graphs F → Graphs F × Reply F
  gsc_graph_removeall gs = ([], answer (push_bool true))

module _ {F : Type 0} ⦃fl : FloatOps F⦄ where
  abbrev fail : Reply F
  fail = refuse bad_parameters push_undefined

  -- Reserving room for nodes has no effect on the state.
  pub gsc_graph_create : Dvars F → Graphs F → List (Value F) → Graphs F × Reply F
  gsc_graph_create dvars gs args = settle gs do
    persist ← or_return (optional_int args 0 (pos 0)) (refuse bad_type push_undefined)
    reserve ← or_return (optional_int args 1 (pos 0)) (refuse bad_type push_undefined)
    return_if (leb_ℤ dvars.max_graphs (pos (length gs))) (refuse graph_limit push_undefined)
    let id = lowest_free_id gs
    let graph : AStarGraph F = record {
      id = id;
      persist = not (eqb_ℤ persist (pos 0));
      edge_count = 0;
      nodes = [];
      stats = no_stats;
      scratch = no_scratch;
      precomputes = [];
    }
    go_on (gs ++ graph ∷ [], answer (push_int (pos id)))

  pub gsc_graph_remove : Graphs F → List (Value F) → Graphs F × Reply F
  gsc_graph_remove gs args = settle gs do
    p ← or_return (stack_get_params (int_param ∷ []) args) fail
    g ← or_return (graph_by_id gs p.0) (refuse no_such_graph push_undefined)
    go_on (erase_at gs g, answer (push_bool true))

  pub gsc_graph_get_stats : Graphs F → List (Value F) → Graphs F × Reply F
  gsc_graph_get_stats gs args = settle gs do
    p ← or_return (stack_get_params (int_param ∷ []) args) fail
    reset ← or_return (optional_int args 1 (pos 0)) (refuse bad_type push_undefined)
    g ← or_return (graph_by_id gs p.0) (refuse no_such_graph push_undefined)
    let graph = get_or gs g no_graph
    let stats = graph.stats
    let us_avg = if stats.searches == 0 then 0 else stats.us_total / stats.searches
    let row : List (Value F) =
        integer (signed32 (length graph.nodes))
        ∷ integer (signed32 graph.edge_count)
        ∷ integer (signed32 stats.searches)
        ∷ integer (signed32 stats.partials)
        ∷ integer (signed32 stats.expansions_total)
        ∷ integer (signed32 stats.expansions_max)
        ∷ integer (signed32 stats.us_min)
        ∷ integer (signed32 us_avg)
        ∷ integer (signed32 stats.us_max)
        ∷ []
    go_on (
      if eqb_ℤ reset (pos 0) then gs else set gs g (record graph { stats = no_stats }),
      answer (push_array row),
    )
