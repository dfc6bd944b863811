-- ===== src/Graph/FindPath/Calls.antt =====
-- gsc_graph_find_path of code/gsc_graph.cpp keeps the invariant of the graphs.
use zk_libcod.Prelude.{
  ℕ, ◌≡◌, refl, List, Option-cases, ◌==◌, arith, length, get_or, Bool-cases, inl, inr,
}
use zk_libcod.Float.{FloatOps}
use zk_libcod.Heap.{GraphHeapEntry}
use zk_libcod.Script.{Value}
use zk_libcod.Graph.{Graphs, AStarGraph, GraphScratch, Dvars, no_graph}
use zk_libcod.Graph.Reply.{ends, after_or_return, after_return_if, settle-Keeps}
use zk_libcod.Graph.Lookup.{node_index-some}
use zk_libcod.Graph.Wellformed.{IsScratch, IsLive, IsValid}
use zk_libcod.Graph.World.{IsWorld, graph_IsValid, write-IsWorld}
use zk_libcod.Graph.Precompute.Cache.{after_search-IsValid, forget_stats-IsValid}
use zk_libcod.Graph.Search.{Query, Ending, reached, partial, out_of_fuel, search}
use zk_libcod.Graph.Scratch.{scratch_begin, mark_skipped}
use zk_libcod.Graph.FindPath.{
  limited, conclude, cached_tree, skipped_values, answer_search, gsc_graph_find_path,
}
use zk_libcod.Graph.Scratch.Begin.{IsScratch-IsSized, scratch_begin-IsBlank}
use zk_libcod.Graph.Scratch.Marks.{IsReady, IsBlank-IsReady, mark_skipped-IsReady}
use zk_libcod.Graph.Search.Rounds.{EndingKept}
use zk_libcod.Graph.Search.Paths.{search-EndingKept}

module _ {F : Type 0} ⦃fl : FloatOps F⦄ where
  IsScratch-heap :
      (n : ℕ) (s : GraphScratch F) (heap : List (GraphHeapEntry F))
      → IsScratch n s
      → IsScratch n (record s { heap = heap })
  IsScratch-heap n s heap k = record {
    f_size = k.f_size;
    parent_size = k.parent_size;
    stamp_size = k.stamp_size;
    closed_size = k.closed_size;
    fits = k.fits;
    stamps = k.stamps;
    closed_stamps = k.closed_stamps;
    id_bound = k.id_bound;
  }

  module _ (dvars : Dvars F) (graph : AStarGraph F) (q : Query F) (elapsed : ℕ)
      (marks : GraphScratch F) (valid : IsValid graph) (start_live : IsLive graph.nodes q.start)
      (ready : IsReady (length graph.nodes) marks) where
    abbrev asked : Query F
    asked = limited dvars q

    conclude-IsValid :
        (ending : Ending F)
        → EndingKept graph valid asked marks start_live ending
        → IsValid (conclude graph asked elapsed ending).0
    unfolding conclude EndingKept
    conclude-IsValid (reached p) k =
        after_search-IsValid graph _ _ valid
          (IsScratch-heap _ p.scratch _ (IsScratch-IsSized _ _ k.0.sized))
    conclude-IsValid (partial p) k =
        after_search-IsValid graph _ _ valid
          (IsScratch-heap _ p.scratch _ (IsScratch-IsSized _ _ k.sized))
    conclude-IsValid out_of_fuel k = absurd k

    id-conclude : (ending : Ending F) → (conclude graph asked elapsed ending).0.id ≡ graph.id
    unfolding conclude
    id-conclude (reached p) = refl
    id-conclude (partial p) = refl
    id-conclude out_of_fuel = refl

    id-answer_search : (answer_search dvars graph q elapsed marks).0.id ≡ graph.id
    unfolding answer_search
    id-answer_search = elim (Bool-cases (q.start == q.goal)) [
      | inl here ↦ rw here refl
      | inr away ↦ rw away (id-conclude (search graph asked marks))
    ]

    answer_search-IsValid : IsValid (answer_search dvars graph q elapsed marks).0
    unfolding answer_search
    answer_search-IsValid = elim (Bool-cases (q.start == q.goal)) [
      | inl here ↦
          rw here (after_search-IsValid graph marks _ valid (IsScratch-IsSized _ _ ready.sized))
      | inr away ↦ rw away (
          conclude-IsValid (search graph asked marks)
            (search-EndingKept graph asked marks valid start_live ready))
    ]

  -- The marks that a call sets are ready.
  pub marks-IsReady :
      (graph : AStarGraph F)
      → IsValid graph
      → (values : List (Value F))
      → IsReady (length graph.nodes) (mark_skipped graph values (scratch_begin graph))
  marks-IsReady graph v values =
      mark_skipped-IsReady graph values (scratch_begin graph)
        (IsBlank-IsReady _ _ (scratch_begin-IsBlank graph v.scratch_ok))

  pub find_path-IsWorld :
      (dvars : Dvars F) (elapsed : ℕ) (values_of : ℕ → List (Value F)) (gs : Graphs F)
      (args : List (Value F))
      → IsWorld gs
      → IsWorld (gsc_graph_find_path dvars elapsed values_of gs args).0
  unfolding gsc_graph_find_path
  find_path-IsWorld dvars elapsed values_of gs args world = settle-Keeps IsWorld gs _ world (
      after_or_return IsWorld _ _ _ λ p _. after_or_return IsWorld _ _ _ λ skip_nodes _.
        after_or_return IsWorld _ _ _ λ skip_edges _.
          after_or_return IsWorld _ _ _ λ max_expansions _. after_or_return IsWorld _ _ _ λ g found.
            after_or_return IsWorld _ _ _ λ start at_start.
              after_or_return IsWorld _ _ _ λ goal at_goal. after_return_if IsWorld _ _ _ λ live.
                let graph = get_or gs g no_graph in
                let v = graph_IsValid gs world p.0 g found in
                let q : Query F = record {
                  start = start;
                  goal = goal;
                  skip_nodes = skip_nodes;
                  skip_edges = skip_edges;
                  max_expansions = max_expansions;
                  weight = dvars.weight;
                } in
                let write = write-IsWorld gs world p.0 g found in
                let start_live : IsLive graph.nodes start =
                  ((node_index-some graph _ start at_start).0, ground arith) in
                elim (Option-cases (cached_tree dvars graph args q)) [
                  | inr (tree, cached) ↦
                      rw cached (ends _ _ (write _ (forget_stats-IsValid graph _ v) refl))
                  | inl uncached ↦ elim (Option-cases (skipped_values values_of args)) [
                    | inl bad ↦
                        let blank = scratch_begin-IsBlank graph v.scratch_ok in
                        rw (uncached, bad)
                          (ends _ _ (
                            write _
                              (after_search-IsValid graph _ graph.stats v
                                (IsScratch-IsSized _ _ blank.sized))
                              refl))
                    | inr (values, good) ↦
                        let marks = mark_skipped graph values (scratch_begin graph) in
                        rw (uncached, good)
                          (ends _ _ (
                            write _
                              (answer_search-IsValid dvars graph q elapsed marks v start_live
                                (marks-IsReady graph v values))
                              (id-answer_search dvars graph q elapsed marks v start_live
                                (marks-IsReady graph v values))))
                  ]
                ])
