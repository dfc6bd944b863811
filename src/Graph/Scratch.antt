-- ===== src/Graph/Scratch.antt =====
-- scratchBegin and graphMarkSkippedNodes of code/gsc_graph.cpp: what a search of a graph writes to, between searches.
pub mod Begin
pub mod Marks
use zk_libcod.Prelude.{
  ℕ, zero, suc, ◌+◌, ◌-◌, ◌%◌, Bool, true, false, not, ◌&&◌, ◌||◌, List, [], ◌∷◌, ◌++◌, Option,
  none, some, map, ltb, leb, ◌==◌, if◌then◌else◌, length, get_or, set, take, replicate,
}
use zk_libcod.Prelude.Int.{ℤ, pos, leb_ℤ, ltb_ℤ, signed32}
use zk_libcod.Float.{FloatOps}
use zk_libcod.Heap.{GraphHeapEntry, heap_push, heap_pop}
use zk_libcod.Script.{
  Value, integer, int_of, int_param, stack_get_params, stack_get_param_object, optional_defined_int,
  param_is_undefined, push_undefined, push_array,
}
use zk_libcod.Graph.{
  Graphs, AStarGraph, GraphNode, GraphEdge, GraphStats, GraphScratch, GraphPrecompute, Dvars, u32,
  graph_by_id, no_graph, node_index, node_at, edge_distance, find_precompute, skips,
}
use zk_libcod.Graph.Precompute.{no_precompute}
use zk_libcod.Graph.Wellformed.{total}
use zk_libcod.Graph.Reply.{
  Reply, answer, refuse, go_on, ◌>>=◌, ◌>>◌, or_return, return_if, settle, bad_parameters, bad_type,
  no_such_graph, out_of_range, removed_node,
}

-- `resize(n, value)` of a vector that is to grow.
abbrev pub grow {ℓ} : {A : Type ℓ} → List A → ℕ → A → List A
grow xs n value = xs ++ replicate (n - length xs) value

module _ {F : Type 0} where
  -- Whether the current search has seen the node, or closed it.
  abbrev pub is_seen : GraphScratch F → ℕ → Bool
  is_seen s v = get_or s.stamp v 0 == s.search_id

  abbrev pub is_closed : GraphScratch F → ℕ → Bool
  is_closed s v = get_or s.closed_stamp v 0 == s.search_id

  abbrev pub close : GraphScratch F → ℕ → GraphScratch F
  close s v = record s { closed_stamp = set s.closed_stamp v s.search_id }

module _ {F : Type 0} ⦃fl : FloatOps F⦄ where
  open fl use {fzero, fadd, fmul, flt_max, of_int, flt, fle, feq}

  -- The first half of scratchBegin: the vectors grow to the number of nodes.
  pub size_scratch : ℕ → GraphScratch F → GraphScratch F
  size_scratch need s =
      if ltb (length s.g_score) need
      then record s {
        g_score = grow s.g_score need fzero;
        f_score = grow s.f_score need fzero;
        parent = grow s.parent need 0;
        stamp = grow s.stamp need 0;
        closed_stamp = grow s.closed_stamp need 0;
      }
      else s

  -- The second half: a new search id, and where it wraps to 0, which no slot may hold, clean stamps and 1.
  pub next_search : GraphScratch F → GraphScratch F
  next_search s =
      let id = (s.search_id + 1) % u32 in
      if id == 0
      then record s {
        stamp = replicate (length s.stamp) 0;
        closed_stamp = replicate (length s.closed_stamp) 0;
        heap = [];
        search_id = 1;
      }
      else record s { heap = []; search_id = id }

  pub scratch_begin : AStarGraph F → GraphScratch F
  unfolding size_scratch next_search
  scratch_begin graph = next_search (size_scratch (length graph.nodes) graph.scratch)

  -- The loop of graphMarkSkippedNodes over the values of the array.
  pub mark_skipped : AStarGraph F → List (Value F) → GraphScratch F → GraphScratch F
  mark_skipped graph [] s = s
  mark_skipped graph (x ∷ xs) s = mark_skipped graph xs (elim (int_of x) [
    | none ↦ s
    | some id ↦ elim (node_index graph id) [ none ↦ s | some v ↦ close s v ]
  ])

  abbrev pub g_at : GraphScratch F → ℕ → F
  g_at s v = get_or s.g_score v fzero

  abbrev pub f_at : GraphScratch F → ℕ → F
  f_at s v = get_or s.f_score v fzero

  abbrev pub parent_at : GraphScratch F → ℕ → ℕ
  parent_at s v = get_or s.parent v 0
