-- ===== src/Graph/Search/Start.antt =====
-- Where the search of gsc_graph_find_path of code/gsc_graph.cpp starts: the start node on the heap.
use mathlib.Core.List.{not-mem-nil, mem-cons}
use mathlib.Core.List.Perm
use mathlib.Core.Logic.Or
use zk_libcod.Prelude.{
  ℕ, ◌<◌, ◌≡◌, inl, sym, ap, subst, ◌∙◌, arith, length, get_or, Mem, ◌==◌, get_or-set, length-set,
}
use zk_libcod.Float.{FloatOps}
use zk_libcod.Heap.{GraphHeapEntry}
use zk_libcod.Heap.Shuffle.{heap_push_moves}
use zk_libcod.Graph.{AStarGraph, GraphScratch}
use zk_libcod.Graph.Search.{Query, start_progress}
use zk_libcod.Graph.Scratch.{is_seen}
use zk_libcod.Graph.Scratch.Marks.{IsReady}
use zk_libcod.Graph.Scratch.Begin.{IsSized}
use zk_libcod.Graph.Search.Chain.{Chain, begun, Inv, count_of_pos}

module _ {F : Type 0} ⦃fl : FloatOps F⦄ (graph : AStarGraph F) where
  -- The start node on the heap.
  module _ (q : Query F) (marks : GraphScratch F) (k : IsReady (length graph.nodes) marks)
      (inside : q.start < length graph.nodes) where
    abbrev first : GraphScratch F
    first = (start_progress graph q marks).scratch

    seen_first : (v : ℕ) → is_seen first v ≡ (q.start == v)
    unfolding start_progress
    seen_first v = ground (
      arith,
      get_or-set marks.stamp q.start v marks.search_id 0 (rw k.sized.stamp_size inside),
      k.unseen v,
    )

    first-IsSized : IsSized (length graph.nodes) first
    unfolding start_progress
    first-IsSized = record {
      g_size = length-set _ _ _ ∙ k.sized.g_size;
      f_size = length-set _ _ _ ∙ k.sized.f_size;
      parent_size = length-set _ _ _ ∙ k.sized.parent_size;
      stamp_size = length-set _ _ _ ∙ k.sized.stamp_size;
      closed_size = k.sized.closed_size;
      stamps = λ v. ground (
        arith,
        get_or-set marks.stamp q.start v marks.search_id 0 (rw k.sized.stamp_size inside),
        k.sized.stamps v,
      );
      closed_stamps = k.sized.closed_stamps;
      id_pos = k.sized.id_pos;
      id_bound = k.sized.id_bound;
    }

    pub start_progress-Inv : Inv graph q marks (start_progress graph q marks)
    unfolding start_progress
    start_progress-Inv = record {
      sized = first-IsSized;
      waiting = λ e m.
          Or.elim (hlevel) (mem-cons.0 ((Perm.mem_iff (heap_push_moves marks.heap _ q.start)).0 m))
            (λ new.
              let target : q.start ≡ e.node = sym (ap (λ (x : GraphHeapEntry F). x.node) new) in
              ground (arith, seen_first e.node))
            (λ old. absurd (not-mem-nil (subst (λ es. Mem e es) k.empty old)));
      best_seen = ground (arith, seen_first q.start);
      came = λ v sn. inl (ground (arith, seen_first v));
      chains = λ v c sn.
          let here : q.start ≡ v = ground (arith, seen_first v) in
          let closed : get_or marks.closed_stamp v 0 ≡ marks.search_id = ground arith in
          (
            0,
            count_of_pos marks.search_id v marks.closed_stamp k.sized.id_pos closed,
            subst (λ u. Chain graph q marks first u 0) here begun,
          );
      marked = λ v h. h;
    }
