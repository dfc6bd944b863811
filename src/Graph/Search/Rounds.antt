-- ===== src/Graph/Search/Rounds.antt =====
-- The loop of gsc_graph_find_path keeps what holds of the parents, and ends: each round takes an entry off the heap,
-- and the edges of a node are tried once.
use mathlib.Core.List.{Memᴰ}
use zk_libcod.Prelude.{
  ℕ, zero, suc, ◌+◌, ◌%◌, ◌<◌, ◌≤◌, ◌≡◌, inl, inr, refl, sym, subst, ◌∙◌, true, false, not, ◌||◌,
  List, [], ◌∷◌, arith, length, get_or, set, ◌==◌, if◌then◌else◌, get_or-set, Bool-cases, ==_iff,
}
use zk_libcod.Float.{FloatOps}
use zk_libcod.Heap.{heap_pop}
use zk_libcod.Heap.Size.{length-heap_push, length-heap_pop}
use zk_libcod.Graph.{AStarGraph, GraphNode, GraphEdge, GraphScratch, u32, node_at, skips}
use zk_libcod.Graph.Wellformed.{IsValid, IsLive, total}
use zk_libcod.Graph.Reach.Accessible.{edge_inside, target_IsLive}
use zk_libcod.Graph.Search.{
  Query, Progress, Round, running, found, spent, Ending, reached, partial, out_of_fuel, reach,
  is_barred, try_edge, try_edges, is_spent, expand, search_round, follow, search_loop,
}
use zk_libcod.Graph.Scratch.{is_seen, is_closed, close, g_at, f_at}
use zk_libcod.Graph.Search.Chain.{Allowed, Inv}
use zk_libcod.Graph.Search.Keeps.{close-Inv, pop-Inv, popped_seen, reach-Inv, still_seen}

module _ {F : Type 0} ⦃fl : FloatOps F⦄ where
  -- The edges of the nodes that are not closed.
  unfoldable pub open_edges : ℕ → List (GraphNode F) → List ℕ → ℕ
  open_edges id [] cs = 0
  open_edges id (n ∷ ns) [] = length n.edges + open_edges id ns []
  open_edges id (n ∷ ns) (c ∷ cs) = (if c == id then 0 else length n.edges) + open_edges id ns cs

  pub open_edges-le :
      (id : ℕ) (ns : List (GraphNode F)) (cs : List ℕ) → open_edges id ns cs ≤ total ns
  unfolding open_edges total
  open_edges-le id [] cs = omega arith
  open_edges-le id (n ∷ ns) [] = omega (arith, open_edges-le id ns [])
  open_edges-le id (n ∷ ns) (c ∷ cs) = ground (arith, open_edges-le id ns cs)

  open_edges-set :
      (id : ℕ) (ns : List (GraphNode F)) (cs : List ℕ) (v : ℕ)
      → v < length cs
      → (get_or cs v 0 == id) ≡ false
      → open_edges id ns (set cs v id) + length (node_at ns v).edges ≡ open_edges id ns cs
  unfolding open_edges
  open_edges-set id [] [] v h e = elim h [ ]
  open_edges-set id [] (c ∷ cs) v h e = refl
  open_edges-set id (n ∷ ns) [] v h e = elim h [ ]
  open_edges-set id (n ∷ ns) (c ∷ cs) zero h e = ground arith
  open_edges-set id (n ∷ ns) (c ∷ cs) (suc v) h e =
      omega (arith, open_edges-set id ns cs v (omega arith) e)

  module _ (graph : AStarGraph F) (valid : IsValid graph) (q : Query F)
      (marks : GraphScratch F) where
    abbrev Kept : Progress F → Type 0
    Kept p = Inv graph q marks p

    -- What the edges of `cur` leave.
    pub record Tried (cur : ℕ) (p : Progress F) (more : ℕ) (p' : Progress F) : Type 0 where
      pub inv : Kept p'
      pub closed_same : p'.scratch.closed_stamp ≡ p.scratch.closed_stamp
      pub id_same : p'.scratch.search_id ≡ p.scratch.search_id
      pub seen : is_seen p'.scratch cur ≡ true
      pub room : length p'.scratch.heap ≤ length p.scratch.heap + more

    module _ (cur : ℕ) (live : IsLive graph.nodes cur) where
      reach-Tried :
          (p : Progress F) (e : GraphEdge F)
          → Kept p
          → is_closed p.scratch cur ≡ true
          → is_seen p.scratch cur ≡ true
          → e.to < length graph.nodes
          → Allowed graph q marks cur e.to
          → is_closed p.scratch e.to ≡ false
          → (tentative : F) → Tried cur p 1 (reach graph q cur e tentative p)
      unfolding reach
      reach-Tried p e inv closed seen target_in step fresh tentative = record {
        inv = reach-Inv graph q marks p inv cur e closed seen target_in step fresh tentative;
        closed_same = refl;
        id_same = refl;
        seen =
            still_seen graph q marks p inv cur e closed seen target_in step fresh tentative cur
              seen;
        room = omega (arith, length-heap_push p.scratch.heap _ e.to);
      }

      pub try_edge-Tried :
          (p : Progress F) (e : GraphEdge F)
          → Kept p
          → is_closed p.scratch cur ≡ true
          → is_seen p.scratch cur ≡ true
          → Memᴰ e (node_at graph.nodes cur).edges
          → Tried cur p 1 (try_edge graph q cur p e)
      unfolding try_edge
      try_edge-Tried p e inv closed seen m =
          let same : Tried cur p 1 p = record {
            inv = inv;
            closed_same = refl;
            id_same = refl;
            seen = seen;
            room = omega arith;
          } in
          let s = p.scratch in
          let tentative = fl.fadd (g_at s cur) e.cost in
          elim (Bool-cases (is_barred graph q s e)) [
            | inl barred ↦ rw barred same
            | inr free ↦
                elim (Bool-cases (not (is_seen s e.to) || fl.flt tentative (g_at s e.to))) [
                  | inr worse ↦ rw (free, worse) same
                  | inl better ↦
                      let usable : skips q.skip_edges e.type ≡ false = ground arith in
                      let open_way : skips q.skip_nodes (node_at graph.nodes e.to).type ≡ false =
                        ground arith in
                      let fresh : is_closed s e.to ≡ false = ground arith in
                      let unmarked : is_closed marks e.to ≡ false =
                        elim (Bool-cases (is_closed marks e.to)) [
                          | inl marked ↦ absurd (cc (inv.marked e.to marked, fresh))
                          | inr not_marked ↦ not_marked
                        ] in
                      let step : Allowed graph q marks cur e.to = record {
                        edge = e;
                        link = record { live = live; stored = m; usable = usable };
                        leads = refl;
                        open_way = open_way;
                        unmarked = unmarked;
                      } in
                      let target_in = (edge_inside graph valid cur e m).1 in
                      rw (free, better)
                        (reach-Tried p e inv closed seen target_in step fresh tentative)
                ]
          ]

      -- Closing and seeing look at what the steps keep.
      pub still_closed :
          (p p' : Progress F) (more : ℕ)
          → Tried cur p more p'
          → is_closed p.scratch cur ≡ true
          → is_closed p'.scratch cur ≡ true
      still_closed p p' more t h = ground (arith, t.closed_same, t.id_same)

      pub try_edges-Tried :
          (es : List (GraphEdge F)) (p : Progress F)
          → Kept p
          → is_closed p.scratch cur ≡ true
          → is_seen p.scratch cur ≡ true
          → ((e : GraphEdge F) → Memᴰ e es → Memᴰ e (node_at graph.nodes cur).edges)
          → Tried cur p (length es) (try_edges graph q cur es p)
      unfolding try_edges
      try_edges-Tried [] p inv closed seen sub = record {
        inv = inv;
        closed_same = refl;
        id_same = refl;
        seen = seen;
        room = omega arith;
      }
      try_edges-Tried (e ∷ es) p inv closed seen sub =
          let p' = try_edge graph q cur p e in
          let first = try_edge-Tried p e inv closed seen (sub e (Memᴰ.head refl)) in
          let rest =
            try_edges-Tried es p' first.inv (still_closed p p' 1 first closed) first.seen
              (λ e' m. sub e' (Memᴰ.tail m)) in
          record {
            inv = rest.inv;
            closed_same = rest.closed_same ∙ first.closed_same;
            id_same = rest.id_same ∙ first.id_same;
            seen = rest.seen;
            room = omega (arith, first.room, rest.room);
          }

    -- What is left to do: the entries on the heap, and the edges that may still put one there.
    unfoldable pub work : Progress F → ℕ
    work p =
        length p.scratch.heap + open_edges p.scratch.search_id graph.nodes p.scratch.closed_stamp

    abbrev RoundKept : ℕ → Round F → Type 0
    RoundKept bound (running p) = Kept p × (work p < bound)
    RoundKept bound (found p) = Kept p × (is_seen p.scratch q.goal ≡ true)
    RoundKept bound (spent p) = Kept p

    expand-RoundKept :
        (bound cur : ℕ)
        → IsLive graph.nodes cur
        → (p : Progress F) → Kept p
        → is_seen p.scratch cur ≡ true
        → is_closed p.scratch cur ≡ false
        → work p < bound
        → RoundKept bound (expand graph q cur p)
    unfolding expand work
    expand-RoundKept bound cur live p inv seen unclosed less =
        let count = (p.expansions + 1) % u32 in
        let closed : Progress F = record p { scratch = close p.scratch cur; expansions = count } in
        let kept = close-Inv graph q marks p inv cur seen unclosed count in
        let fewer =
          open_edges-set p.scratch.search_id graph.nodes p.scratch.closed_stamp cur
            (rw inv.sized.closed_size live.0) unclosed in
        let now_closed : is_closed closed.scratch cur ≡ true = ground (
          arith,
          get_or-set p.scratch.closed_stamp cur cur p.scratch.search_id 0
              (rw inv.sized.closed_size live.0),
        ) in
        let tried =
          try_edges-Tried cur live (node_at graph.nodes cur).edges closed kept now_closed seen
            (λ e m. m) in
        elim (Bool-cases (is_spent graph q count)) [
          | inl over ↦ rw over kept
          | inr on ↦
              rw on (
                tried.inv,
                rw (tried.closed_same, tried.id_same) (omega (arith, tried.room, fewer)),
              )
        ]

    module _ (start_live : IsLive graph.nodes q.start) where
      -- A node that was seen is there.
      pub seen-IsLive :
          (p : Progress F) → Kept p → (v : ℕ) → is_seen p.scratch v ≡ true → IsLive graph.nodes v
      seen-IsLive p inv v h = elim (inv.came v h) [
        | inl first ↦ subst (IsLive graph.nodes) (sym first) start_live
        | inr (c, sn, step) ↦
            subst (IsLive graph.nodes) step.leads
              (target_IsLive graph valid _ step.edge step.link.stored)
      ]

      search_round-RoundKept :
          (p : Progress F)
          → Kept p
          → 0 < length p.scratch.heap
          → RoundKept (work p) (search_round graph q p)
      unfolding search_round work
      search_round-RoundKept p inv some_left =
          let top = (heap_pop p.scratch.heap).0 in
          let popped : Progress F = record p {
            scratch = record p.scratch { heap = (heap_pop p.scratch.heap).1 };
          } in
          let kept = pop-Inv graph q marks p inv some_left in
          let seen = popped_seen graph q marks p inv some_left in
          let shrinks = length-heap_pop p.scratch.heap some_left in
          elim (Bool-cases
            (not (fl.feq top.f (f_at p.scratch top.node)) || is_closed p.scratch top.node)) [
              | inl stale ↦ rw stale (kept, omega (arith, shrinks))
              | inr current ↦ elim (Bool-cases (top.node == q.goal)) [
                | inl at_goal ↦
                    rw (current, at_goal)
                      (
                        kept,
                        subst (λ v. is_seen p.scratch v ≡ true) ((==_iff top.node q.goal).0 at_goal)
                            seen,
                      )
                | inr elsewhere ↦
                    rw (current, elsewhere)
                      (expand-RoundKept (work p) top.node (seen-IsLive p inv top.node seen) popped
                        kept seen (ground arith) (omega (arith, shrinks)))
              ]
            ]

      -- Where the loop ends, the parents are right, and it does end.
      unfoldable pub EndingKept : Ending F → Type 0
      EndingKept (reached p) = Kept p × (is_seen p.scratch q.goal ≡ true)
      EndingKept (partial p) = Kept p
      EndingKept out_of_fuel = ⊥

      follow-EndingKept :
          (fuel bound : ℕ)
          → bound ≤ suc fuel
          → (r : Round F) → RoundKept bound r
          → ((p : Progress F) → Kept p → work p ≤ fuel → EndingKept (search_loop graph q fuel p))
          → EndingKept (follow graph q (search_loop graph q fuel) r)
      unfolding EndingKept
      follow-EndingKept fuel bound enough (running p) k again = again p k.0 (omega (arith, k.1))
      follow-EndingKept fuel bound enough (found p) k again = k
      follow-EndingKept fuel bound enough (spent p) k again = k

      pub search_loop-EndingKept :
          (fuel : ℕ) (p : Progress F)
          → Kept p
          → work p ≤ fuel
          → EndingKept (search_loop graph q fuel p)
      unfolding search_loop work EndingKept
      search_loop-EndingKept zero p inv enough =
          let empty : (length p.scratch.heap == 0) ≡ true = ground arith in rw empty inv
      search_loop-EndingKept (suc fuel) p inv enough =
          elim (Bool-cases (length p.scratch.heap == 0)) [
            | inl empty ↦ rw empty inv
            | inr some_left ↦ rw some_left (
                follow-EndingKept fuel (work p) enough (search_round graph q p)
                  (search_round-RoundKept p inv (ground arith)) (search_loop-EndingKept fuel))
          ]
