-- ===== src/Graph/Search/Paths.antt =====
-- The path that gsc_graph_find_path pushes once its search has ended.
use zk_libcod.Prelude.{
  ℕ, zero, suc, ◌<◌, ◌≤◌, ◌≡◌, inl, inr, ap, subst, true, List, [], ◌∷◌, arith, length, ◌==◌,
  Bool-cases, ==_iff,
}
use zk_libcod.Float.{FloatOps}
use zk_libcod.Heap.Size.{length-heap_push}
use zk_libcod.Graph.{AStarGraph, GraphScratch}
use zk_libcod.Graph.Wellformed.{IsValid, IsLive, total}
use zk_libcod.Graph.Search.{
  heuristic, Query, Progress, Ending, reached, partial, out_of_fuel, path_back, push_path,
  start_progress, search,
}
use zk_libcod.Graph.Scratch.{is_seen, parent_at}
use zk_libcod.Graph.Search.Chain.{Allowed, Chain, begun, onward, Inv, count_of-le}
use zk_libcod.Graph.Scratch.Marks.{IsReady}
use zk_libcod.Graph.Search.Start.{start_progress-Inv}
use zk_libcod.Graph.Search.Rounds.{
  EndingKept, seen-IsLive, search_loop-EndingKept, open_edges-le, work,
}

module _ {F : Type 0} ⦃fl : FloatOps F⦄ (graph : AStarGraph F) (q : Query F)
    (marks : GraphScratch F) where
  -- The nodes of a walk along edges that the search may follow, in order, up to `last`.
  pub data WalkTo (last : ℕ) : ℕ → List ℕ → Type 0 where
    stop : WalkTo last last (last ∷ [])
    move :
        {u v : ℕ} {path : List ℕ}
        → Allowed graph q marks u v
        → WalkTo last v path
        → WalkTo last u (u ∷ path)

  -- Going back by the parents from `cur` puts a walk from the start before the one from `cur`.
  path_back-WalkTo :
      (last : ℕ) (s : GraphScratch F) (safety cur k : ℕ) (path : List ℕ)
      → k < safety
      → Chain graph q marks s cur k
      → WalkTo last cur (cur ∷ path)
      → WalkTo last q.start (path_back safety s.parent q.start cur path)
  unfolding path_back
  path_back-WalkTo last s zero cur k path enough chain walk = absurd (omega arith)
  path_back-WalkTo last s (suc safety) cur k path enough begun walk =
      let here : (q.start == q.start) ≡ true = ground arith in rw here walk
  path_back-WalkTo last s (suc safety) cur k path enough (onward {v = v} {k = j} closed step rest)
        walk =
      let further =
        path_back-WalkTo last s safety (parent_at s v) j (v ∷ path) (omega arith) rest
          (move step walk) in
      elim (Bool-cases (v == q.start)) [
        | inl first ↦
            rw first (subst (λ u. WalkTo last u (v ∷ path)) ((==_iff v q.start).0 first) walk)
        | inr later ↦ rw later further
      ]

  -- A node that was seen need not be closed; its parent is.
  push_path-WalkTo :
      (p : Progress F)
      → Inv graph q marks p
      → (v : ℕ) → is_seen p.scratch v ≡ true
      → WalkTo v q.start (push_path graph p.scratch v q.start)
  unfolding push_path path_back
  push_path-WalkTo p inv v seen = elim (Bool-cases (v == q.start)) [
    | inl first ↦ rw first (subst (λ u. WalkTo v u (v ∷ [])) ((==_iff v q.start).0 first) stop)
    | inr later ↦ elim (inv.came v seen) [
      | inl first ↦ absurd (ground arith)
      | inr (c, sn, step) ↦
          let (k, less, chain) = inv.chains (parent_at p.scratch v) c sn in
          let bound = count_of-le p.scratch.search_id p.scratch.closed_stamp in
          rw later (
            path_back-WalkTo v p.scratch (length graph.nodes) (parent_at p.scratch v) k (v ∷ [])
              (omega (arith, less, bound, inv.sized.closed_size)) chain (move step stop))
    ]
  ]

  module _ (valid : IsValid graph) (start_live : IsLive graph.nodes q.start)
      (ready : IsReady (length graph.nodes) marks) where
    -- What the search comes to.
    abbrev pub IsWalked : Ending F → Type 0
    IsWalked (reached p) = WalkTo q.goal q.start (push_path graph p.scratch q.goal q.start)
    IsWalked (partial p) =
        IsLive graph.nodes p.best_node
        × WalkTo p.best_node q.start (push_path graph p.scratch p.best_node q.start)
    IsWalked out_of_fuel = ⊥

    first_work : work graph valid q marks (start_progress graph q marks) ≤ suc (total graph.nodes)
    unfolding work start_progress
    first_work = omega (
      arith,
      length-heap_push marks.heap (fl.fmul (heuristic graph q q.start) q.weight) q.start,
      ap length ready.empty,
      open_edges-le marks.search_id graph.nodes marks.closed_stamp,
    )

    pub search-EndingKept : EndingKept graph valid q marks start_live (search graph q marks)
    unfolding search
    search-EndingKept =
        search_loop-EndingKept graph valid q marks start_live (suc (total graph.nodes)) _
          (start_progress-Inv graph q marks ready start_live.0) first_work

    EndingKept-IsWalked :
        (ending : Ending F) → EndingKept graph valid q marks start_live ending → IsWalked ending
    unfolding EndingKept
    EndingKept-IsWalked (reached p) k = push_path-WalkTo p k.0 q.goal k.1
    EndingKept-IsWalked (partial p) k = (
      seen-IsLive graph valid q marks start_live p k p.best_node k.best_seen,
      push_path-WalkTo p k p.best_node k.best_seen,
    )
    EndingKept-IsWalked out_of_fuel k = k

    -- The search of a well-formed graph from a live start, on marks that are ready, ends: it never
    -- runs out of fuel. Where it takes the goal off the heap, the path that is pushed is a walk from the start to the
    -- goal; where the budget or the heap runs out, it is one from the start to the best node, which is live. Each step
    -- of a walk is along a stored edge whose type, and the type of whose target, are not skipped, to a node that was
    -- not marked.
    pub search-IsWalked : IsWalked (search graph q marks)
    search-IsWalked = EndingKept-IsWalked (search graph q marks) search-EndingKept
