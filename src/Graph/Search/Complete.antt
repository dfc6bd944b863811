-- ===== src/Graph/Search/Complete.antt =====
-- A search of gsc_graph_find_path of code/gsc_graph.cpp that no budget ends misses no path.
use mathlib.Core.List.{not-mem-nil, Memᴰ}
use mathlib.Core.List.Memᴰ
use zk_libcod.Prelude.{
  ℕ, zero, suc, ◌+◌, ◌%◌, ◌<◌, ◌≡◌, inl, inr, refl, sym, subst, Bool, true, false, not, ◌||◌, List,
  [], ◌∷◌, arith, length, ◌==◌, Bool-cases, ==_iff, Mem, get_or-set,
}
use zk_libcod.Prelude.Int.{pos, leb_ℤ}
use zk_libcod.Float.{FloatOps, FloatLaws, IsNonneg}
use zk_libcod.Heap.{heap_pop}
use zk_libcod.Graph.{AStarGraph, GraphEdge, GraphScratch, u32, node_at, skips}
use zk_libcod.Graph.Wellformed.{IsValid, IsLive, total}
use zk_libcod.Graph.Precompute.Ways.{HasNonnegCosts}
use zk_libcod.Graph.Reach.Accessible.{edge_inside}
use zk_libcod.Graph.Scratch.{is_seen, is_closed, close, g_at, f_at}
use zk_libcod.Graph.Scratch.Marks.{IsReady}
use zk_libcod.Graph.Search.{
  Query, Progress, Round, running, found, spent, Ending, reached, partial, out_of_fuel, heuristic,
  is_barred, reach, try_edge, try_edges, is_spent, expand, search_round, follow, search_loop,
  search, start_progress,
}
use zk_libcod.Graph.Search.Chain.{Inv}
use zk_libcod.Graph.Search.Keeps.{close-Inv, pop-Inv, popped_seen}
use zk_libcod.Graph.Search.Rounds.{try_edge-Tried, try_edges-Tried, still_closed, seen-IsLive}
use zk_libcod.Graph.Search.Start.{start_progress-Inv}
use zk_libcod.Graph.Search.Paths.{WalkTo, stop, move}
use zk_libcod.Graph.Search.Full.{
  start_progress-Full, Full, popped-Full, closed-Full, reach-Full, seen_reached, seen_before,
  IsNonneg-fadd,
}

no_entries {ℓ} : {A : Type ℓ} (xs : List A) → length xs ≡ 0 → (a : A) → ¬ Mem a xs
no_entries [] h a m = not-mem-nil m
no_entries (x ∷ xs) h a m = absurd (omega arith)

module _ {F : Type 0} ⦃fl : FloatOps F⦄ (laws : FloatLaws fl) (graph : AStarGraph F)
    (valid : IsValid graph) (q : Query F) (marks : GraphScratch F) (nonneg : HasNonnegCosts graph)
    (estimates : (v : ℕ) → IsNonneg fl (fl.fmul (heuristic graph q v) q.weight))
    (unlimited : leb_ℤ q.max_expansions (pos 0) ≡ true) where
  abbrev Kept : Progress F → Type 0
  Kept p = Inv graph q marks p

  abbrev Whole : (ℕ → Bool) → Progress F → Type 0
  Whole free p = Full laws graph q marks free p

  -- The edges that the search may follow.
  abbrev Wanted : GraphEdge F → Type 0
  Wanted e =
      (skips q.skip_edges e.type ≡ false)
      × (skips q.skip_nodes (node_at graph.nodes e.to).type ≡ false)
      × (is_closed marks e.to ≡ false)

  record Spread (free : ℕ → Bool) (es : List (GraphEdge F)) (p p' : Progress F) : Type 0 where
    whole : Whole free p'
    onward : (e : GraphEdge F) → Memᴰ e es → Wanted e → is_seen p'.scratch e.to ≡ true
    same : (v : ℕ) → is_seen p.scratch v ≡ true → is_seen p'.scratch v ≡ true

  module _ (cur : ℕ) (live : IsLive graph.nodes cur) (free : ℕ → Bool) where
    only : (e e' : GraphEdge F) (P : GraphEdge F → Type 0) → P e → Memᴰ e' (e ∷ []) → P e'
    only e e' P h m = elim (Memᴰ.cases_cons m) [
      | inl here ↦ subst P (sym here) h
      | inr later ↦ absurd (Memᴰ.not-nil later)
    ]

    try_edge-Spread :
        (p : Progress F) (e : GraphEdge F)
        → Kept p
        → Whole free p
        → is_seen p.scratch cur ≡ true
        → Memᴰ e (node_at graph.nodes cur).edges
        → Spread free (e ∷ []) p (try_edge graph q cur p e)
    unfolding try_edge
    try_edge-Spread p e inv whole seen m =
        let s = p.scratch in
        let tentative = fl.fadd (g_at s cur) e.cost in
        elim (Bool-cases (is_barred graph q s e)) [
          | inl barred ↦ rw barred (record {
            whole = whole;
            onward = λ e' m' w.
                only e e' (λ x. Wanted x → is_seen s x.to ≡ true)
                  (λ wanted. whole.closed_seen e.to (ground arith) wanted.2) m' w;
            same = λ v h. h;
          })
          | inr passed ↦
              elim (Bool-cases (not (is_seen s e.to) || fl.flt tentative (g_at s e.to))) [
                | inr worse ↦
                    rw (passed, worse)
                      (record {
                        whole = whole;
                        onward = λ e' m' w.
                            only e e' (λ x. Wanted x → is_seen s x.to ≡ true) (λ _. ground arith) m'
                              w;
                        same = λ v h. h;
                      })
                | inl better ↦
                    let target_in = (edge_inside graph valid cur e m).1 in
                    let cost =
                      IsNonneg-fadd laws graph q marks (g_at s cur) e.cost (whole.costs cur seen)
                        (nonneg cur e live m) in
                    let estimate = estimates e.to in
                    rw (passed, better)
                      (record {
                        whole =
                            reach-Full laws graph q marks p inv.sized cur e target_in tentative cost
                              estimate free whole;
                        onward = λ e' m' w.
                            only e e'
                              (λ x.
                                Wanted x
                                → is_seen (reach graph q cur e tentative p).scratch x.to ≡ true)
                              (λ _.
                                seen_reached laws graph q marks p inv.sized cur e target_in
                                  tentative cost estimate)
                              m' w;
                        same =
                            seen_before laws graph q marks p inv.sized cur e target_in tentative
                              cost estimate;
                      })
              ]
        ]

    try_edges-Spread :
        (es : List (GraphEdge F)) (p : Progress F)
        → Kept p
        → Whole free p
        → is_closed p.scratch cur ≡ true
        → is_seen p.scratch cur ≡ true
        → ((e : GraphEdge F) → Memᴰ e es → Memᴰ e (node_at graph.nodes cur).edges)
        → Spread free es p (try_edges graph q cur es p)
    unfolding try_edges
    try_edges-Spread [] p inv whole closed seen sub = record {
      whole = whole;
      onward = λ e m. absurd (Memᴰ.not-nil m);
      same = λ v h. h;
    }
    try_edges-Spread (e ∷ es) p inv whole closed seen sub =
        let p' = try_edge graph q cur p e in
        let here = sub e (Memᴰ.head refl) in
        let tried = try_edge-Tried graph valid q marks cur live p e inv closed seen here in
        let first = try_edge-Spread p e inv whole seen here in
        let rest =
          try_edges-Spread es p' tried.inv first.whole
            (still_closed graph valid q marks cur live p p' 1 tried closed) tried.seen
            (λ e' m. sub e' (Memᴰ.tail m)) in
        record {
          whole = rest.whole;
          onward = λ e' m w. elim (Memᴰ.cases_cons m) [
            | inl at ↦ rest.same e'.to (first.onward e' (Memᴰ.head at) w)
            | inr later ↦ rest.onward e' later w
          ];
          same = λ v h. rest.same v (first.same v h);
        }

  abbrev every : ℕ → Bool
  every u = true

  never_spent : (n : ℕ) → is_spent graph q n ≡ false
  never_spent n = ground (arith, unlimited)

  abbrev RoundWhole : Round F → Type 0
  RoundWhole (running p) = Kept p × Whole every p
  RoundWhole (found p) = Unit {0}
  RoundWhole (spent p) = ⊥

  -- Once its edges have been tried, the node that was closed is like the others.
  Spread-Whole :
      (cur : ℕ) (p p' : Progress F)
      → Spread (λ u. not (u == cur)) (node_at graph.nodes cur).edges p p'
      → Whole every p'
  Spread-Whole cur p p' spread = record {
    started = spread.whole.started;
    queued = spread.whole.queued;
    done = λ u _ c m w way. elim (Bool-cases (u == cur)) [
      | inr away ↦ spread.whole.done u (ground arith) c m w way
      | inl here ↦
          let at = (==_iff u cur).0 here in
          let stored : Memᴰ way.edge (node_at graph.nodes cur).edges =
            subst (λ x. Memᴰ way.edge (node_at graph.nodes x).edges) at way.link.stored in
          let back = sym way.leads in
          subst (λ x. is_seen p'.scratch x ≡ true) way.leads
            (spread.onward way.edge stored (
              way.link.usable,
              subst (λ x. skips q.skip_nodes (node_at graph.nodes x).type ≡ false) back
                  way.open_way,
              subst (λ x. is_closed marks x ≡ false) back way.unmarked,
            ))
    ];
    closed_seen = spread.whole.closed_seen;
    before_goal = spread.whole.before_goal;
    costs = spread.whole.costs;
  }

  module _ (start_live : IsLive graph.nodes q.start) where
    search_round-RoundWhole :
        (p : Progress F)
        → Kept p
        → Whole every p
        → 0 < length p.scratch.heap
        → RoundWhole (search_round graph q p)
    unfolding search_round expand
    search_round-RoundWhole p inv whole some_left =
        let top = (heap_pop p.scratch.heap).0 in
        let cur = top.node in
        let seen = popped_seen graph q marks p inv some_left in
        let taken = pop-Inv graph q marks p inv some_left in
        elim (Bool-cases (not (fl.feq top.f (f_at p.scratch cur)) || is_closed p.scratch cur)) [
          | inl stale ↦
              rw stale (taken, popped-Full laws graph q marks p some_left every whole stale)
          | inr current ↦ elim (Bool-cases (cur == q.goal)) [
            | inl at_goal ↦ rw (current, at_goal) tt
            | inr elsewhere ↦
                let count = (p.expansions + 1) % u32 in
                let live = seen-IsLive graph valid q marks start_live p inv cur seen in
                let popped : Progress F = record p {
                  scratch = record p.scratch { heap = (heap_pop p.scratch.heap).1 };
                } in
                let closed : Progress F = record popped {
                  scratch = close popped.scratch cur;
                  expansions = count;
                } in
                let kept = close-Inv graph q marks popped taken cur seen (ground arith) count in
                let whole' =
                  closed-Full laws graph q marks p some_left inv.sized whole live.0 seen elsewhere
                    count in
                let now_closed : is_closed closed.scratch cur ≡ true = ground (
                  arith,
                  get_or-set p.scratch.closed_stamp cur cur p.scratch.search_id 0
                      (rw inv.sized.closed_size live.0),
                ) in
                let edges = (node_at graph.nodes cur).edges in
                let tried =
                  try_edges-Tried graph valid q marks cur live edges closed kept now_closed seen
                    (λ e m. m) in
                let spread =
                  try_edges-Spread cur live (λ u. not (u == cur)) edges closed kept whole'
                    now_closed seen (λ e m. m) in
                rw (current, elsewhere, never_spent count)
                  (tried.inv, Spread-Whole cur closed (try_edges graph q cur edges closed) spread)
          ]
        ]

    abbrev EndingWhole : Ending F → Type 0
    EndingWhole (reached p) = Unit {0}
    EndingWhole (partial p) = Whole every p × (length p.scratch.heap ≡ 0)
    EndingWhole out_of_fuel = Unit {0}

    follow-EndingWhole :
        (again : Progress F → Ending F) (r : Round F)
        → RoundWhole r
        → ((p : Progress F) → Kept p → Whole every p → EndingWhole (again p))
        → EndingWhole (follow graph q again r)
    follow-EndingWhole again (running p) k rest = rest p k.0 k.1
    follow-EndingWhole again (found p) k rest = tt
    follow-EndingWhole again (spent p) k rest = absurd k

    search_loop-EndingWhole :
        (fuel : ℕ) (p : Progress F)
        → Kept p
        → Whole every p
        → EndingWhole (search_loop graph q fuel p)
    unfolding search_loop
    search_loop-EndingWhole zero p inv whole = elim (Bool-cases (length p.scratch.heap == 0)) [
      | inl empty ↦ rw empty (whole, ground arith)
      | inr some_left ↦ rw some_left tt
    ]
    search_loop-EndingWhole (suc fuel) p inv whole =
        elim (Bool-cases (length p.scratch.heap == 0)) [
          | inl empty ↦ rw empty (whole, ground arith)
          | inr some_left ↦ rw some_left (
              follow-EndingWhole (search_loop graph q fuel) (search_round graph q p)
                (search_round-RoundWhole p inv whole (ground arith)) (search_loop-EndingWhole fuel))
        ]

    -- Where nothing waits, what a walk leads to was seen.
    module _ (p : Progress F) (whole : Whole every p) (empty : length p.scratch.heap ≡ 0) where
      all_closed : (v : ℕ) → is_seen p.scratch v ≡ true → is_closed p.scratch v ≡ true
      all_closed v seen = elim (Bool-cases (is_closed p.scratch v)) [
        | inl closed ↦ closed
        | inr open_node ↦
            absurd (
              whole.queued v seen open_node
                (λ e m at. absurd (no_entries p.scratch.heap empty e m)))
      ]

      walk_seen :
          (last u : ℕ) (path : List ℕ)
          → WalkTo graph q marks last u path
          → is_seen p.scratch u ≡ true
          → is_closed marks u ≡ false
          → (is_seen p.scratch last ≡ true) × (is_closed marks last ≡ false)
      walk_seen last u path stop seen unmarked = (seen, unmarked)
      walk_seen last u path (move {u = a} {v = b} step rest) seen unmarked =
          walk_seen last b _ rest (whole.done a refl (all_closed a seen) unmarked b step)
            step.unmarked

    -- What a search that ends without the goal says.
    abbrev pub IsExhaustive : Ending F → Type 0
    IsExhaustive (reached p) = Unit {0}
    IsExhaustive (partial p) = (path : List ℕ) → ¬ WalkTo graph q marks q.goal q.start path
    IsExhaustive out_of_fuel = Unit {0}

    EndingWhole-IsExhaustive :
        is_closed marks q.start ≡ false
        → (ending : Ending F) → EndingWhole ending
        → IsExhaustive ending
    EndingWhole-IsExhaustive unmarked (reached p) k = tt
    EndingWhole-IsExhaustive unmarked (partial p) (whole, empty) = λ path walk.
        let (seen, free) =
          walk_seen p whole empty q.goal q.start path walk whole.started unmarked in
        cc (whole.before_goal (all_closed p whole empty q.goal seen), free)
    EndingWhole-IsExhaustive unmarked out_of_fuel k = tt

    -- Under the laws of floats, in a well-formed graph with a live start and on marks that are ready, where costs are
    -- not negative, and neither are the weighted estimates that the search adds to them, the start is not one of the
    -- nodes that are marked, and no budget is set, a search that ends with a partial path shows that there is no
    -- walk from the start to the goal along edges that the search may follow.
    pub search-IsExhaustive :
        IsReady (length graph.nodes) marks
        → is_closed marks q.start ≡ false
        → IsExhaustive (search graph q marks)
    unfolding search
    search-IsExhaustive ready unmarked = EndingWhole-IsExhaustive unmarked (search graph q marks) (
        search_loop-EndingWhole (suc (total graph.nodes)) (start_progress graph q marks)
          (start_progress-Inv graph q marks ready start_live.0)
          (start_progress-Full laws graph q marks ready start_live.0 (estimates q.start)))
