-- ===== src/Graph/FindPath/Answers.antt =====
-- What gsc_graph_find_path of code/gsc_graph.cpp answers where it searches. The answer from a cached tree is not the
-- subject here.
use zk_libcod.Prelude.{
  ℕ, ◌≡◌, inl, inr, true, false, List, [], ◌∷◌, ◌==◌, ==_iff, subst, length, Bool-cases,
}
use zk_libcod.Prelude.Int.{pos, leb_ℤ}
use zk_libcod.Float.{FloatOps, FloatLaws, IsNonneg}
use zk_libcod.Graph.{AStarGraph, GraphScratch, Dvars}
use zk_libcod.Graph.Reply.{Reply}
use zk_libcod.Graph.Wellformed.{IsLive, IsValid}
use zk_libcod.Graph.Precompute.Ways.{HasNonnegCosts}
use zk_libcod.Graph.Search.{heuristic, Query, Ending, reached, partial, out_of_fuel, search}
use zk_libcod.Graph.Scratch.{is_closed}
use zk_libcod.Graph.Scratch.Marks.{IsReady}
use zk_libcod.Graph.Search.Paths.{WalkTo, stop, IsWalked, search-IsWalked}
use zk_libcod.Graph.Search.Complete.{IsExhaustive, search-IsExhaustive}
use zk_libcod.Graph.FindPath.{limited, conclude, push_ids, answer_search}

module _ {F : Type 0} ⦃fl : FloatOps F⦄ (laws : FloatLaws fl) (dvars : Dvars F)
    (graph : AStarGraph F) (q : Query F) (marks : GraphScratch F) (valid : IsValid graph)
    (start_live : IsLive graph.nodes q.start) (ready : IsReady (length graph.nodes) marks)
    (nonneg : HasNonnegCosts graph)
    (estimates : (v : ℕ)
      → IsNonneg fl (fl.fmul (heuristic graph (limited dvars q) v) (limited dvars q).weight))
    (unmarked : is_closed marks q.start ≡ false) where
  abbrev asked : Query F
  asked = limited dvars q

  -- A walk to the goal; or, where there is none or a budget was set, one to some live node.
  pub data Answers : Reply F → Type 0 where
    to_goal : (ids : List ℕ) → WalkTo graph asked marks q.goal q.start ids → Answers (push_ids ids)
    no_way :
        (last : ℕ) (ids : List ℕ)
        → ((path : List ℕ) → ¬ WalkTo graph asked marks q.goal q.start path)
        → IsLive graph.nodes last
        → WalkTo graph asked marks last q.start ids
        → Answers (push_ids ids)
    cut_off :
        (last : ℕ) (ids : List ℕ)
        → leb_ℤ asked.max_expansions (pos 0) ≡ false
        → IsLive graph.nodes last
        → WalkTo graph asked marks last q.start ids
        → Answers (push_ids ids)

  conclude-Answers :
      (elapsed : ℕ) (ending : Ending F)
      → IsWalked graph asked marks valid start_live ready ending
      → ((unlimited : leb_ℤ asked.max_expansions (pos 0) ≡ true)
          → IsExhaustive laws graph valid asked marks nonneg estimates unlimited start_live ending)
      → Answers (conclude graph asked elapsed ending).1
  unfolding conclude
  conclude-Answers elapsed (reached p) walked whole = to_goal _ walked
  conclude-Answers elapsed (partial p) walked whole =
      elim (Bool-cases (leb_ℤ asked.max_expansions (pos 0))) [
        | inl unlimited ↦ no_way p.best_node _ (whole unlimited) walked.0 walked.1
        | inr limit ↦ cut_off p.best_node _ limit walked.0 walked.1
      ]
  conclude-Answers elapsed out_of_fuel walked whole = absurd walked

  -- Under the laws of floats, between nodes of a well-formed graph with a live start, on marks that are ready and do
  -- not hold the start, and where neither the costs of edges nor the weighted estimates are negative, the search of
  -- gsc_graph_find_path always answers with the nodes of a walk from the start. It leads to the goal; or to a live
  -- node, and then a budget is in force, by the call or by the server variable, or there is no walk from the start to
  -- the goal at all. Each step of a walk is along a stored edge whose type, and the type of whose target, are not
  -- skipped, to a node that was not marked.
  pub answer_search-Answers : (elapsed : ℕ) → Answers (answer_search dvars graph q elapsed marks).1
  unfolding answer_search
  answer_search-Answers elapsed = elim (Bool-cases (q.start == q.goal)) [
    | inl here ↦ rw here (
        to_goal (q.start ∷ []) (
          subst (λ v. WalkTo graph asked marks v q.start (q.start ∷ []))
            ((==_iff q.start q.goal).0 here) stop))
    | inr away ↦ rw away (
        conclude-Answers elapsed (search graph asked marks)
          (search-IsWalked graph asked marks valid start_live ready)
          (λ unlimited.
            search-IsExhaustive laws graph valid asked marks nonneg estimates unlimited start_live
              ready unmarked))
  ]
