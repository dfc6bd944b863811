-- ===== src/Graph/FindPath.antt =====
-- gsc_graph_find_path of code/gsc_graph.cpp around its search: the parameters, the answer from a cached tree, and the
-- statistics. The clock readings of graphMicroseconds and the values that a script array holds are parameters.
pub mod Calls
pub mod Answers
use zk_libcod.Prelude.{
  ℕ, zero, suc, ◌+◌, ◌-◌, ◌%◌, Bool, true, false, not, ◌&&◌, ◌||◌, List, [], ◌∷◌, ◌++◌, Option,
  none, some, map, ltb, leb, ◌==◌, if◌then◌else◌, length, get_or, set, take, replicate,
}
use zk_libcod.Prelude.Int.{ℤ, pos, leb_ℤ, ltb_ℤ, signed32}
use zk_libcod.Float.{FloatOps}
use zk_libcod.Heap.{GraphHeapEntry, heap_push, heap_pop}
use zk_libcod.Script.{
  Value, integer, int_of, int_param, stack_get_params, stack_get_param_object, optional_defined_int,
  param_is_undefined, push_undefined, push_array,
}
use zk_libcod.Graph.{
  Graphs, AStarGraph, GraphNode, GraphEdge, GraphStats, GraphScratch, GraphPrecompute, Dvars, u32,
  graph_by_id, no_graph, node_index, node_at, edge_distance, find_precompute, skips,
}
use zk_libcod.Graph.Precompute.{no_precompute}
use zk_libcod.Graph.Wellformed.{total}
use zk_libcod.Graph.Reply.{
  Reply, answer, refuse, go_on, ◌>>=◌, ◌>>◌, or_return, return_if, settle, bad_parameters, bad_type,
  no_such_graph, out_of_range, removed_node,
}
use zk_libcod.Graph.Scratch.{scratch_begin, mark_skipped}
use zk_libcod.Graph.Search.{
  Query, Progress, Ending, reached, partial, out_of_fuel, push_path, search,
}

-- `if ( elapsed < min ) min = elapsed`, and the like.
abbrev pub lower_of : ℕ → ℕ → ℕ
lower_of a b = if ltb a b then a else b

abbrev pub higher_of : ℕ → ℕ → ℕ
higher_of a b = if ltb b a then a else b

-- graphRecordSearch, with the microseconds that have passed.
pub record_search : ℕ → ℕ → GraphStats → GraphStats
record_search elapsed expansions stats =
    let searches = (stats.searches + 1) % u32 in
    record stats {
      searches = searches;
      expansions_total = (stats.expansions_total + expansions) % u32;
      expansions_max = higher_of expansions stats.expansions_max;
      us_min = if searches == 1 then elapsed else lower_of elapsed stats.us_min;
      us_max = higher_of elapsed stats.us_max;
      us_total = (stats.us_total + elapsed) % u32;
    }

-- SL_MAX_STRING_INDEX
abbrev pub sl_max_string_index : ℕ
sl_max_string_index = 65536

module _ {F : Type 0} where
  -- The loop along a cached tree.
  pub tree_path : ℕ → GraphPrecompute F → ℕ → ℕ → List ℕ
  tree_path zero pc goal cur = []
  tree_path (suc safety) pc goal cur =
      let further = λ (next : ℕ). cur ∷ tree_path safety pc goal next in
      if cur == goal
      then cur ∷ []
      else elim (get_or pc.next_hop cur none) [ none ↦ cur ∷ [] | some next ↦ further next ]

module _ {F : Type 0} ⦃fl : FloatOps F⦄ where
  open fl use {fzero, fadd, fmul, flt_max, of_int, flt, fle, feq}

  -- sv_graphAstarMaxIterations is a ceiling on the budget of the call.
  pub budget : Dvars F → ℤ → ℤ
  budget dvars max_expansions =
      let ceiling = dvars.max_iterations in
      if ltb_ℤ (pos 0) ceiling
      then (if leb_ℤ max_expansions (pos 0) || ltb_ℤ ceiling max_expansions
          then ceiling
          else max_expansions)
      else max_expansions

  abbrev pub at_least_one : F → F
  at_least_one weight = if flt weight (of_int (pos 1)) then of_int (pos 1) else weight

  -- The cached tree that may answer in place of a search.
  pub cached_tree : Dvars F → AStarGraph F → List (Value F) → Query F → Option (GraphPrecompute F)
  cached_tree dvars graph args q =
      let pc = find_precompute graph (pos q.goal) q.skip_nodes q.skip_edges in
      if param_is_undefined args 3
        && leb_ℤ q.max_expansions (pos 0)
        && fle dvars.weight (of_int (pos 1))
        && not (skips q.skip_nodes (node_at graph.nodes q.goal).type)
      then elim pc [
        | none ↦ none
        | some i ↦
            let tree = get_or graph.precomputes i no_precompute in
            if flt (get_or tree.cost_to_goal q.start flt_max) flt_max then some tree else none
      ]
      else none

  abbrev pub push_ids : List ℕ → Reply F
  push_ids ids = answer (push_array (map (λ v. integer (pos v)) ids))

  -- graphPushPath reverses the path in the buffer of the heap, where it stays.
  pub reversal : List ℕ → List (GraphHeapEntry F) → List (GraphHeapEntry F)
  reversal [] buffer = buffer
  reversal (v ∷ vs) buffer = reversal vs (record { f = fzero; node = v } ∷ buffer)

  -- The graph and the answer once a search has ended, with the microseconds that it took.
  pub conclude : AStarGraph F → Query F → ℕ → Ending F → AStarGraph F × Reply F
  unfolding reversal
  conclude graph q elapsed (reached p) =
      let ids = push_path graph p.scratch q.goal q.start in
      (
        record graph {
          scratch = record p.scratch { heap = reversal ids [] };
          stats = record_search elapsed p.expansions graph.stats;
        },
        push_ids ids,
      )
  conclude graph q elapsed (partial p) =
      let stats = record graph.stats { partials = (graph.stats.partials + 1) % u32 } in
      let ids = push_path graph p.scratch p.best_node q.start in
      (
        record graph {
          scratch = record p.scratch { heap = reversal ids [] };
          stats = record_search elapsed p.expansions stats;
        },
        push_ids ids,
      )
  conclude graph q elapsed out_of_fuel = (graph, answer push_undefined)

  -- The query with the limits that the server variables set.
  abbrev pub limited : Dvars F → Query F → Query F
  limited dvars q = record q {
    max_expansions = budget dvars q.max_expansions;
    weight = at_least_one dvars.weight;
  }

  -- The search and its answer, for marks that have been set. A node is its own path.
  pub answer_search : Dvars F → AStarGraph F → Query F → ℕ → GraphScratch F → AStarGraph F × Reply F
  unfolding conclude
  answer_search dvars graph q elapsed s =
      if q.start == q.goal
      then (
        record graph { scratch = s; stats = record_search elapsed 0 graph.stats },
        push_ids (q.start ∷ []),
      )
      else conclude graph (limited dvars q) elapsed (search graph (limited dvars q) s)

  -- The values that graphMarkSkippedNodes walks over, if the parameter is one that it takes.
  pub skipped_values : (ℕ → List (Value F)) → List (Value F) → Option (List (Value F))
  skipped_values values_of args =
      if param_is_undefined args 3 then some [] else elim (stack_get_param_object args 3) [
        | none ↦ none
        | some o ↦ some (take sl_max_string_index (values_of o))
      ]

  abbrev fail : Reply F
  fail = refuse bad_parameters push_undefined

  -- `elapsed` is what graphMicroseconds has gone on by at the end, and `values_of` the values of an array.
  pub gsc_graph_find_path :
      Dvars F → ℕ → (ℕ → List (Value F)) → Graphs F → List (Value F) → Graphs F × Reply F
  gsc_graph_find_path dvars elapsed values_of gs args = settle gs do
    p ← or_return (stack_get_params (int_param ∷ int_param ∷ int_param ∷ []) args) fail
    skip_nodes ← or_return (optional_defined_int args 4 (pos 0)) (refuse bad_type push_undefined)
    skip_edges ← or_return (optional_defined_int args 5 (pos 0)) (refuse bad_type push_undefined)
    max_expansions ←
        or_return (optional_defined_int args 6 (pos 0)) (refuse bad_type push_undefined)
    g ← or_return (graph_by_id gs p.0) (refuse no_such_graph push_undefined)
    let graph = get_or gs g no_graph
    start ← or_return (node_index graph p.1.0) (refuse out_of_range push_undefined)
    goal ← or_return (node_index graph p.1.1.0) (refuse out_of_range push_undefined)
    return_if ((node_at graph.nodes start).removed || (node_at graph.nodes goal).removed)
        (refuse removed_node push_undefined)
    let q : Query F = record {
      start = start;
      goal = goal;
      skip_nodes = skip_nodes;
      skip_edges = skip_edges;
      max_expansions = max_expansions;
      weight = dvars.weight;
    }
    let begun = scratch_begin graph
    elim (cached_tree dvars graph args q) [
      | some tree ↦ go_on (
        set gs g (record graph { stats = record_search elapsed 0 graph.stats }),
        push_ids (tree_path (suc (length graph.nodes)) tree goal start),
      )
      | none ↦ elim (skipped_values values_of args) [
        | none ↦ go_on (set gs g (record graph { scratch = begun }), refuse bad_type push_undefined)
        | some values ↦
            let (after, reply) =
              answer_search dvars graph q elapsed (mark_skipped graph values begun) in
            go_on (set gs g after, reply)
      ]
    ]
