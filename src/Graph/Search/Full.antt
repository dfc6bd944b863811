-- ===== src/Graph/Search/Full.antt =====
-- What else the search of gsc_graph_find_path of code/gsc_graph.cpp keeps: a node that was seen waits on the heap or is
-- closed, and the nodes after a closed one were seen.
use mathlib.Core.List.{mem-cons, mem-cons_self, mem-cons_of_mem}
use mathlib.Core.List.Perm
use mathlib.Core.Logic.Or
use zk_libcod.Prelude.{
  ℕ, ◌<◌, ◌≡◌, inl, inr, refl, sym, ap, subst, ◌∙◌, Bool, true, false, not, ◌||◌, List, arith,
  length, Mem, ◌==◌, if◌then◌else◌, get_or-set, Bool-cases, ==_iff,
}
use zk_libcod.Float.{FloatOps, FloatLaws, IsNonneg}
use zk_libcod.Heap.{GraphHeapEntry, heap_pop}
use zk_libcod.Heap.Shuffle.{heap_push_moves, heap_pop_moves}
use zk_libcod.Graph.{AStarGraph, GraphEdge, GraphScratch}
use zk_libcod.Graph.Scratch.{is_seen, is_closed, close, g_at, f_at}
use zk_libcod.Graph.Scratch.Begin.{IsSized}
use zk_libcod.Graph.Scratch.Marks.{closed-close, IsReady}
use zk_libcod.Graph.Search.{Query, Progress, heuristic, reach, start_progress}
use zk_libcod.Graph.Search.Chain.{Allowed}

module _ {F : Type 0} ⦃fl : FloatOps F⦄ (laws : FloatLaws fl) (graph : AStarGraph F) (q : Query F)
    (marks : GraphScratch F) where
  open fl use {feq, fadd, fmul}

  abbrev size : ℕ
  size = length graph.nodes

  -- No entry of the heap is the current one of the node.
  abbrev pub Lost : GraphScratch F → List (GraphHeapEntry F) → ℕ → Type 0
  Lost s heap v = (e : GraphHeapEntry F) → Mem e heap → e.node ≡ v → feq e.f (f_at s v) ≡ false

  pub record Full (free : ℕ → Bool) (p : Progress F) : Type 0 where
    pub started : is_seen p.scratch q.start ≡ true
    pub queued :
        (v : ℕ)
        → is_seen p.scratch v ≡ true
        → is_closed p.scratch v ≡ false
        → ¬ Lost p.scratch p.scratch.heap v
    pub done :
        (u : ℕ)
        → free u ≡ true
        → is_closed p.scratch u ≡ true
        → is_closed marks u ≡ false
        → (w : ℕ) → Allowed graph q marks u w
        → is_seen p.scratch w ≡ true
    pub closed_seen :
        (u : ℕ)
        → is_closed p.scratch u ≡ true
        → is_closed marks u ≡ false
        → is_seen p.scratch u ≡ true
    pub before_goal : is_closed p.scratch q.goal ≡ true → is_closed marks q.goal ≡ true
    pub costs : (v : ℕ) → is_seen p.scratch v ≡ true → IsNonneg fl (g_at p.scratch v)

  feq_nonneg : (a : F) → IsNonneg fl a → feq a a ≡ true
  feq_nonneg a h = ground (arith, laws.feq_fle a a, (laws.fle_num fl.fzero a h).1)

  pub IsNonneg-fadd : (a b : F) → IsNonneg fl a → IsNonneg fl b → IsNonneg fl (fadd a b)
  IsNonneg-fadd a b h k = laws.fle_trans _ _ _ h (laws.fle-fadd a b h k)

  abbrev popped : Progress F → Progress F
  popped p = record p { scratch = record p.scratch { heap = (heap_pop p.scratch.heap).1 } }

  module _ (p : Progress F) (some_left : 0 < length p.scratch.heap) where
    abbrev top : GraphHeapEntry F
    top = (heap_pop p.scratch.heap).0

    -- Where the entry that is taken off is not the current one of the node, nothing is lost.
    still_queued :
        (v : ℕ)
        → ¬ Lost p.scratch p.scratch.heap v
        → (top.node ≡ v → feq top.f (f_at p.scratch v) ≡ false)
        → ¬ Lost p.scratch (popped p).scratch.heap v
    still_queued v queued other lost = queued (λ e m at.
        Or.elim (hlevel) (mem-cons.0 ((Perm.mem_iff (heap_pop_moves p.scratch.heap some_left)).1 m))
          (λ same.
            let node : top.node ≡ v = sym (ap (λ (x : GraphHeapEntry F). x.node) same) ∙ at in
            subst (λ (x : GraphHeapEntry F). feq x.f (f_at p.scratch v) ≡ false) (sym same)
              (other node))
          (λ old. lost e old at))

    pub popped-Full :
        (free : ℕ → Bool)
        → Full free p
        → (not (feq top.f (f_at p.scratch top.node)) || is_closed p.scratch top.node) ≡ true
        → Full free (popped p)
    popped-Full free full stale = record {
      started = full.started;
      queued = λ v sn open_node. still_queued v (full.queued v sn open_node) (λ node.
          let stale_there : (not (feq top.f (f_at p.scratch v)) || is_closed p.scratch v) ≡ true =
            subst (λ u. (not (feq top.f (f_at p.scratch u)) || is_closed p.scratch u) ≡ true) node
              stale in
          ground arith);
      done = full.done;
      closed_seen = full.closed_seen;
      before_goal = full.before_goal;
      costs = full.costs;
    }

    -- Taking the entry off and closing its node, whose edges are still to be tried.
    pub closed-Full :
        IsSized size p.scratch
        → Full (λ u. true) p
        → top.node < size
        → is_seen p.scratch top.node ≡ true
        → (top.node == q.goal) ≡ false
        → (expansions : ℕ)
        → Full
            (λ u. not (u == top.node))
            (record p { scratch = close (popped p).scratch top.node; expansions = expansions })
    closed-Full sized full inside seen elsewhere expansions =
        let changed = closed-close size p.scratch sized top.node inside in
        record {
          started = full.started;
          queued = λ v sn open_node.
              still_queued v (full.queued v sn (ground (arith, changed v)))
                (λ node. absurd (ground (arith, changed v, node)));
          done = λ u free c m w way. full.done u refl (ground (arith, changed u)) m w way;
          closed_seen = λ u c m. elim (Bool-cases (top.node == u)) [
            | inl here ↦ subst (λ x. is_seen p.scratch x ≡ true) ((==_iff top.node u).0 here) seen
            | inr away ↦ full.closed_seen u (ground (arith, changed u)) m
          ];
          before_goal = λ c. full.before_goal (ground (arith, changed q.goal));
          costs = full.costs;
        }

  -- An edge that is taken.
  module _ (p : Progress F) (sized : IsSized size p.scratch) (cur : ℕ) (edge : GraphEdge F)
      (target_in : edge.to < size) (tentative : F) (cost : IsNonneg fl tentative)
      (estimate : IsNonneg fl (fmul (heuristic graph q edge.to) q.weight)) where
    abbrev before : GraphScratch F
    before = p.scratch

    abbrev later : Progress F
    later = reach graph q cur edge tentative p

    seen_later :
        (v : ℕ) → is_seen later.scratch v ≡ (if edge.to == v then true else is_seen before v)
    unfolding reach
    seen_later v = ground (
      arith,
      get_or-set before.stamp edge.to v before.search_id 0 (rw sized.stamp_size target_in),
    )

    pub seen_reached : is_seen later.scratch edge.to ≡ true
    seen_reached = ground (arith, seen_later edge.to)

    pub seen_before : (v : ℕ) → is_seen before v ≡ true → is_seen later.scratch v ≡ true
    seen_before v h = ground (arith, seen_later v)

    abbrev estimated : F
    estimated = fadd tentative (fmul (heuristic graph q edge.to) q.weight)

    f_later : (v : ℕ) → f_at later.scratch v ≡ (if edge.to == v then estimated else f_at before v)
    unfolding reach
    f_later v = get_or-set before.f_score edge.to v estimated fl.fzero (rw sized.f_size target_in)

    g_later : (v : ℕ) → g_at later.scratch v ≡ (if edge.to == v then tentative else g_at before v)
    unfolding reach
    g_later v = get_or-set before.g_score edge.to v tentative fl.fzero (rw sized.g_size target_in)

    queued_later :
        (free : ℕ → Bool)
        → Full free p
        → (v : ℕ) → is_seen later.scratch v ≡ true
        → is_closed before v ≡ false
        → ¬ Lost later.scratch later.scratch.heap v
    unfolding reach
    queued_later free full v sn open_node lost =
        let push = heap_push_moves before.heap estimated edge.to in
        elim (Bool-cases (edge.to == v)) [
          | inl here ↦
              let fresh : feq estimated (f_at later.scratch v) ≡ false =
                lost (record { f = estimated; node = edge.to })
                  ((Perm.mem_iff push).1 mem-cons_self) ((==_iff edge.to v).0 here) in
              let now : f_at later.scratch v ≡ estimated = f_later v ∙ rw here refl in
              let same = feq_nonneg estimated (IsNonneg-fadd tentative _ cost estimate) in
              absurd (cc (fresh, now, same))
          | inr away ↦
              let old : is_seen before v ≡ true = ground (arith, seen_later v) in
              let unchanged : f_at later.scratch v ≡ f_at before v = f_later v ∙ rw away refl in
              full.queued v old open_node (λ e m at.
                subst (λ f. feq e.f f ≡ false) unchanged
                  (lost e ((Perm.mem_iff push).1 (mem-cons_of_mem _ m)) at))
        ]

    pub reach-Full : (free : ℕ → Bool) → Full free p → Full free later
    unfolding reach
    reach-Full free full = record {
      started = seen_before q.start full.started;
      queued = queued_later free full;
      done = λ u f c m w way. seen_before w (full.done u f c m w way);
      closed_seen = λ u c m. seen_before u (full.closed_seen u c m);
      before_goal = full.before_goal;
      costs = λ v sn. elim (Bool-cases (edge.to == v)) [
        | inl here ↦ subst (IsNonneg fl) (sym (g_later v ∙ rw here refl)) cost
        | inr away ↦
            subst (IsNonneg fl) (sym (g_later v ∙ rw away refl))
              (full.costs v (ground (arith, seen_later v)))
      ];
    }

  -- Before the loop the start waits on the heap, and nothing that is closed was not marked.
  pub start_progress-Full :
      IsReady size marks
      → q.start < size
      → IsNonneg fl (fmul (heuristic graph q q.start) q.weight)
      → Full (λ u. true) (start_progress graph q marks)
  unfolding start_progress
  start_progress-Full k inside estimate =
      let f = fmul (heuristic graph q q.start) q.weight in
      let push = heap_push_moves marks.heap f q.start in
      let seen : (v : ℕ) → is_seen (start_progress graph q marks).scratch v ≡ (q.start == v) = λ v.
        ground (
          arith,
          get_or-set marks.stamp q.start v marks.search_id 0 (rw k.sized.stamp_size inside),
          k.unseen v,
        ) in
      let f_start : f_at (start_progress graph q marks).scratch q.start ≡ f =
        get_or-set marks.f_score q.start q.start f fl.fzero (rw k.sized.f_size inside)
        ∙ rw ((==_iff q.start q.start).1 refl) refl in
      let g_start : g_at (start_progress graph q marks).scratch q.start ≡ fl.fzero =
        get_or-set marks.g_score q.start q.start fl.fzero fl.fzero (rw k.sized.g_size inside)
        ∙ rw ((==_iff q.start q.start).1 refl) refl in
      let none_negative : IsNonneg fl fl.fzero = ground (
        arith,
        laws.flt_fle fl.fzero fl.flt_max,
        laws.flt-zero-max,
        laws.fle_num fl.fzero fl.flt_max,
      ) in
      record {
        started = ground (arith, seen q.start);
        queued = λ v sn open_node lost.
            let here : q.start ≡ v = ground (arith, seen v) in
            let fresh : feq f (f_at (start_progress graph q marks).scratch v) ≡ false =
              lost (record { f = f; node = q.start }) ((Perm.mem_iff push).1 mem-cons_self) here in
            let same = feq_nonneg f estimate in
            let now : f_at (start_progress graph q marks).scratch v ≡ f =
              subst (λ u. f_at (start_progress graph q marks).scratch u ≡ f) here f_start in
            absurd (cc (fresh, now, same));
        done = λ u _ c m. absurd (cc (c, m));
        closed_seen = λ u c m. absurd (cc (c, m));
        before_goal = λ c. c;
        costs = λ v sn.
            let here : q.start ≡ v = ground (arith, seen v) in
            subst (λ u. IsNonneg fl (g_at (start_progress graph q marks).scratch u)) here
              (subst (IsNonneg fl) (sym g_start) none_negative);
      }
