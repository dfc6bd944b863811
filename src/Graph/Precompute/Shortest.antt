-- ===== src/Graph/Precompute/Shortest.antt =====
-- The search finds the cheapest route of every node to the goal.
use mathlib.Core.List.{mem-cons, mem-cons_self, not-mem-nil}
use mathlib.Core.List.Perm
use mathlib.Core.Logic.Or
use native.Mathlib.Bridge.{le_prop}
use zk_libcod.Prelude.{
  ℕ, suc, ◌<◌, ◌≡◌, ◌⊎◌, inl, inr, Bool, true, false, List, [], ◌∷◌, arith, length, set, replicate,
  length-set, length-replicate, get_or-set, get_or-replicate, Mem, Perm, ◌==◌, ==_iff, Bool-cases,
  if◌then◌else◌, subst, sym, none,
}
use zk_libcod.Float.{FloatOps, FloatLaws, IsNum, IsNonneg, fle_of_flt}
use zk_libcod.Heap.{GraphHeapEntry, heap_push}
use zk_libcod.Heap.Order.{IsHeap}
use zk_libcod.Heap.Queue.{heap_push-perm}
use zk_libcod.Heap.Size.{length-heap_push}
use zk_libcod.Graph.Precompute.{
  Incoming, Search, dist_at, hop_at, is_settled, start_search, arc_count, reverse_dijkstra,
}
use zk_libcod.Graph.Precompute.Route.{Route, here, step, Core, HopOk, GoodArcs, entry}
use zk_libcod.Graph.Precompute.Rounds.{Inv}
use zk_libcod.Graph.Precompute.Ends.{open_arcs-replicate, rounds_end}

none_waits {ℓ} : {A : Type ℓ} {a : A} (xs : List A) → length xs ≡ 0 → Mem a xs → ⊥
none_waits [] e m = not-mem-nil m
none_waits (x ∷ xs) e m = absurd (omega arith)

module _ {F : Type 0} ⦃fl : FloatOps F⦄ (laws : FloatLaws fl) (incoming : Incoming F)
    (blocked : ℕ → Bool) (goal n : ℕ) (goal_in : goal < n)
    (good : GoodArcs incoming blocked goal n) where
  open fl use {fzero, fadd, flt_max, flt, fle}

  abbrev start : Search F
  start = record {
    dist = set (replicate n flt_max) goal fzero;
    next_hop = replicate n none;
    settled = replicate n false;
    heap = heap_push [] fzero goal;
  }

  zero-le-max : fle fzero flt_max ≡ true
  zero-le-max = fle_of_flt laws _ _ laws.flt-zero-max

  zero-IsNum : IsNum fl fzero
  zero-IsNum = (laws.fle_num _ _ zero-le-max).0

  dist-start : (v : ℕ) → dist_at start v ≡ (if goal == v then fzero else flt_max)
  dist-start v = ground (
    arith,
    get_or-set (replicate n flt_max) goal v fzero flt_max (rw length-replicate goal_in),
    get_or-replicate n v flt_max,
  )

  settled-start : (v : ℕ) → is_settled start v ≡ false
  settled-start v = get_or-replicate n v false

  hop-start : (v : ℕ) → hop_at start v ≡ none
  hop-start v = get_or-replicate n v none

  pushed : IsHeap start.heap × Perm start.heap (entry fzero goal ∷ [])
  pushed =
      heap_push-perm laws [] fzero goal
        (record { ordered = λ c p q. elim q [ ]; numbers = λ i p. elim p [ ] }) zero-IsNum

  start_mem : (e : GraphHeapEntry F) → Mem e start.heap → (e.node < n) × IsNonneg fl e.f
  start_mem e m =
      Or.elim (hlevel le_prop) (mem-cons.0 ((Perm.mem_iff pushed.1).0 m))
        (λ same.
          subst (λ (x : GraphHeapEntry F). (x.node < n) × IsNonneg fl x.f) (sym same)
            (goal_in, zero-IsNum))
        (λ none_left. absurd (not-mem-nil none_left))

  start-Core : Core incoming blocked goal n start
  start-Core = record {
    dist_size = rw length-set (length-replicate n flt_max);
    hop_size = length-replicate n none;
    settled_size = length-replicate n false;
    heap_ok = pushed.0;
    entries = start_mem;
    bounded = λ v. elim (Bool-cases (goal == v)) [
      | inl at_goal ↦
          (ground (arith, dist-start v, zero-IsNum), ground (arith, dist-start v, zero-le-max))
      | inr away ↦ (
        ground (arith, dist-start v, zero-le-max),
        ground (arith, dist-start v, laws.fle_num fzero flt_max, zero-le-max),
      )
    ];
    queued = λ v inside _. elim (Bool-cases (goal == v)) [
      | inl at_goal ↦
          let cost : dist_at start v ≡ fzero = ground (arith, dist-start v) in
          inr (rw (cost, ← (==_iff goal v).0 at_goal) ((Perm.mem_iff pushed.1).1 mem-cons_self))
      | inr away ↦ inl (ground (arith, dist-start v))
    ];
    floor = λ u h e m. cc (settled-start u, h);
    goal_cost = ground (arith, dist-start goal);
    goal_hop = hop-start goal;
    hops = λ v inside. inl (
      hop-start v,
      elim (Bool-cases (goal == v)) [
        | inl at_goal ↦ inl (ground arith)
        | inr away ↦ inr (ground (arith, dist-start v))
      ],
    );
    routes = λ v. elim (Bool-cases (goal == v)) [
      | inl at_goal ↦
          let cost : dist_at start v ≡ fzero = ground (arith, dist-start v) in
          inr (rw (cost, ← (==_iff goal v).0 at_goal) here)
      | inr away ↦ inl (ground (arith, dist-start v))
    ];
  }

  start-Inv : Inv laws incoming blocked goal n goal_in good start
  start-Inv = record { core = start-Core; relaxed = λ u h open_way a m. cc (settled-start u, h) }

  -- The search ends by its test, with nothing left in the heap.
  pub ended :
      Inv laws incoming blocked goal n goal_in good (reverse_dijkstra incoming blocked n goal)
      × (length (reverse_dijkstra incoming blocked n goal).heap ≡ 0)
  unfolding reverse_dijkstra start_search
  ended =
      rounds_end laws incoming blocked goal n goal_in good (suc (arc_count incoming)) start
        start-Inv (omega (arith, length-heap_push [] fzero goal, open_arcs-replicate incoming n))

  module _ (s : Search F) (inv : Inv laws incoming blocked goal n goal_in good s)
      (empty : length s.heap ≡ 0) where
    -- A node that is not settled at the end was not reached.
    unsettled_far : (v : ℕ) → v < n → is_settled s v ≡ false → dist_at s v ≡ flt_max
    unsettled_far v inside unsettled = elim (inv.core.queued v inside unsettled) [
      | inl far ↦ far
      | inr waits ↦ absurd (none_waits s.heap empty waits)
    ]

    Route-IsNonneg : (v : ℕ) (c : F) → Route incoming blocked goal v c → (v < n) × IsNonneg fl c
    Route-IsNonneg v c here = (goal_in, zero-IsNum)
    Route-IsNonneg v c (step {v = u} {c = c'} a way open_way edge) =
        let (_, rest) = Route-IsNonneg u c' way in
        let (nonneg, inside) = good u a edge in
        (inside, laws.fle_trans _ _ _ rest (laws.fle-fadd _ _ rest nonneg))

    -- No route is cheaper.
    cheapest : (v : ℕ) (c : F) → Route incoming blocked goal v c → fle (dist_at s v) c ≡ true
    cheapest v c here = rw inv.core.goal_cost zero-IsNum
    cheapest v c (step {v = u} {c = c'} a way open_way edge) =
        let (inside, c_nonneg) = Route-IsNonneg u c' way in
        let nonneg = (good u a edge).0 in
        let ih = cheapest u c' way in
        elim (Bool-cases (is_settled s u)) [
          | inl final ↦
              laws.fle_trans _ _ _ (inv.relaxed u final open_way a edge)
                (laws.fadd_mono _ _ _ (inv.core.bounded u).0 nonneg ih)
          | inr unsettled ↦
              let far : fle flt_max c' ≡ true =
                subst (λ x. fle x c' ≡ true) (unsettled_far u inside unsettled) ih in
              laws.fle_trans _ _ _ (inv.core.bounded a.node).1
                (laws.fle_trans _ _ _ far (laws.fle-fadd _ _ c_nonneg nonneg))
        ]

  -- What the search leaves: the cost of a node is that of a route, and the least of all routes; where
  -- it is FLT_MAX, every route costs at least that.
  pub record IsShortest (s : Search F) : Type 0 where
    pub size : length s.dist ≡ n
    pub hop_size : length s.next_hop ≡ n
    pub at_goal : dist_at s goal ≡ fzero
    pub attained : (v : ℕ) → (dist_at s v ≡ flt_max) ⊎ Route incoming blocked goal v (dist_at s v)
    pub least : (v : ℕ) (c : F) → Route incoming blocked goal v c → fle (dist_at s v) c ≡ true
    pub hops : (v : ℕ) → v < n → HopOk incoming blocked goal s v

  pub reverse_dijkstra-IsShortest : IsShortest (reverse_dijkstra incoming blocked n goal)
  reverse_dijkstra-IsShortest =
      let s = reverse_dijkstra incoming blocked n goal in
      let inv = ended.0 in
      record {
        size = inv.core.dist_size;
        hop_size = inv.core.hop_size;
        at_goal = inv.core.goal_cost;
        attained = inv.core.routes;
        least = cheapest s inv ended.1;
        hops = inv.core.hops;
      }
