-- ===== src/Graph/Precompute/Relax.antt =====
-- One edge is relaxed.
use mathlib.Core.List.{Memᴰ, mem-cons, mem-cons_of_mem, mem-cons_self}
use mathlib.Core.List.Perm
use mathlib.Core.Logic.Or
use native.Mathlib.Bridge.{le_prop}
use zk_libcod.Prelude.{
  ℕ, ◌<◌, ◌≡◌, ◌≢◌, ◌↔◌, refl, ◌⊎◌, inl, inr, Bool, true, false, ◌∷◌, none, some, arith, Mem, Perm,
  set, length-set, get_or-set, ◌==◌, ==_iff, if◌then◌else◌, Bool-cases, subst, sym, ne→==, ◌∙◌,
}
use zk_libcod.Float.{FloatOps, FloatLaws, IsNum, IsNonneg, fle_of_flt, fle_of_not_flt}
use zk_libcod.Heap.{GraphHeapEntry, heap_push}
use zk_libcod.Heap.Order.{IsHeap}
use zk_libcod.Heap.Queue.{heap_push-perm}
use zk_libcod.Graph.Precompute.{Incoming, Search, arcs_into, dist_at, hop_at, is_settled, relax}
use zk_libcod.Graph.Precompute.Route.{Route, step, Core, HopOk, Lowers, GoodArcs, entry}

module _ {F : Type 0} ⦃fl : FloatOps F⦄ (laws : FloatLaws fl) (incoming : Incoming F)
    (blocked : ℕ → Bool) (goal n : ℕ) (goal_in : goal < n) (good : GoodArcs incoming blocked goal n)
    (s : Search F) (c : Core incoming blocked goal n s) (cur : ℕ) (open_way : blocked cur ≡ false)
    (is_final : is_settled s cur ≡ true)
    (highest : (u : ℕ) → is_settled s u ≡ true → fl.fle (dist_at s u) (dist_at s cur) ≡ true)
    (a : GraphHeapEntry F) (edge : Memᴰ a (arcs_into incoming cur)) where
  open fl use {fzero, fadd, flt_max, flt, fle}

  abbrev cost : F
  cost = fadd (dist_at s cur) a.f

  abbrev from : ℕ
  from = a.node

  arc-IsNonneg : IsNonneg fl a.f
  arc-IsNonneg = (good cur a edge).0

  from_in : a.node < n
  from_in = (good cur a edge).1

  cur-le-cost : fle (dist_at s cur) cost ≡ true
  cur-le-cost = laws.fle-fadd _ _ (c.bounded cur).0 arc-IsNonneg

  cost-IsNonneg : IsNonneg fl cost
  cost-IsNonneg = laws.fle_trans _ _ _ (c.bounded cur).0 cur-le-cost

  cost-IsNum : IsNum fl cost
  cost-IsNum = (laws.fle_num _ _ cost-IsNonneg).1

  dist-IsNum : (v : ℕ) → IsNum fl (dist_at s v)
  dist-IsNum v = (laws.fle_num _ _ (c.bounded v).0).1

  settled-le-cost : (u : ℕ) → is_settled s u ≡ true → fle (dist_at s u) cost ≡ true
  settled-le-cost u h = laws.fle_trans _ _ _ (highest u h) cur-le-cost

  module _ (lower : flt cost (dist_at s a.node) ≡ true) where
    not_above : fle (dist_at s a.node) cost ≡ false
    not_above = ground (arith, laws.flt_fle cost (dist_at s a.node))

    from_open : is_settled s a.node ≡ false
    from_open = elim (Bool-cases (is_settled s a.node)) [
      | inl old ↦ cc (not_above, settled-le-cost a.node old)
      | inr new ↦ new
    ]

    from-ne-goal : a.node ≢ goal
    from-ne-goal e =
        let zeroth : dist_at s a.node ≡ fzero = rw e c.goal_cost in
        absurd (cc (zeroth, cost-IsNonneg, not_above))

    abbrev after : Search F
    after = record s {
      dist = set s.dist a.node cost;
      next_hop = set s.next_hop a.node (some cur);
      heap = heap_push s.heap cost a.node;
    }

    dist-after : (v : ℕ) → dist_at after v ≡ (if a.node == v then cost else dist_at s v)
    dist-after v = get_or-set s.dist a.node v cost flt_max (rw c.dist_size from_in)

    hop-after : (v : ℕ) → hop_at after v ≡ (if a.node == v then some cur else hop_at s v)
    hop-after v = get_or-set s.next_hop a.node v (some cur) none (rw c.hop_size from_in)

    pushed : IsHeap after.heap × Perm after.heap (entry cost a.node ∷ s.heap)
    pushed = heap_push-perm laws s.heap cost a.node c.heap_ok cost-IsNum

    mem-after : (e : GraphHeapEntry F) → Mem e after.heap ↔ Mem e (entry cost a.node ∷ s.heap)
    mem-after e = Perm.mem_iff pushed.1

    -- An entry that waits afterwards is the new one, or waited before.
    mem-split :
        (P : GraphHeapEntry F → Type 0)
        → ((e : GraphHeapEntry F) → IsProp (P e))
        → P (entry cost a.node)
        → ((e : GraphHeapEntry F) → Mem e s.heap → P e)
        → (e : GraphHeapEntry F) → Mem e after.heap
        → P e
    mem-split P prop new old e m =
        Or.elim (prop e) (mem-cons.0 ((mem-after e).0 m)) (λ same. subst P (sym same) new) (old e)

    IsNonneg-prop : (x : F) → IsProp (IsNonneg fl x)
    IsNonneg-prop x = hlevel

    settled-ne-from : (u : ℕ) → is_settled s u ≡ true → a.node ≢ u
    settled-ne-from u h e = absurd (cc (from_open, subst (λ v. is_settled s v ≡ true) (sym e) h))

    dist_settled-after : (u : ℕ) → is_settled s u ≡ true → dist_at after u ≡ dist_at s u
    dist_settled-after u h = ground (arith, dist-after u, ne→== a.node u (settled-ne-from u h))

    hops-after : (v : ℕ) → v < n → HopOk incoming blocked goal after v
    hops-after v inside = elim (Bool-cases (a.node == v)) [
      | inl here ↦ inr (record {
        arc = a;
        next = cur;
        source = (==_iff a.node v).0 here;
        edge = edge;
        open_way = open_way;
        stored = ground (arith, hop-after v);
        final = is_final;
        cost = ground (arith, dist-after v, dist_settled-after cur is_final);
      })
      | inr away ↦ elim (c.hops v inside) [
        | inl (none_yet, why) ↦ inl (
          ground (arith, hop-after v),
          elim why [ inl e ↦ inl e | inr far ↦ inr (ground (arith, dist-after v)) ],
        )
        | inr h ↦ inr (record {
          arc = h.arc;
          next = h.next;
          source = h.source;
          edge = h.edge;
          open_way = h.open_way;
          stored = ground (arith, hop-after v, h.stored);
          final = h.final;
          cost = ground (arith, dist-after v, dist_settled-after h.next h.final, h.cost);
        })
      ]
    ]

    queued-after :
        (v : ℕ)
        → v < n
        → is_settled s v ≡ false
        → (dist_at after v ≡ flt_max) ⊎ Mem (entry (dist_at after v) v) after.heap
    queued-after v inside unsettled = elim (Bool-cases (a.node == v)) [
      | inl here ↦
          let at_v : dist_at after v ≡ cost = ground (arith, dist-after v) in
          inr (rw (at_v, ← (==_iff a.node v).0 here) ((mem-after _).1 mem-cons_self))
      | inr away ↦
          let as_before : dist_at after v ≡ dist_at s v = ground (arith, dist-after v) in
          elim (c.queued v inside unsettled) [
            | inl far ↦ inl (as_before ∙ far)
            | inr waits ↦ inr (rw as_before ((mem-after _).1 (mem-cons_of_mem _ waits)))
          ]
    ]

    -- A node that costs FLT_MAX lowers nothing.
    cur-Route : Route incoming blocked goal cur (dist_at s cur)
    cur-Route = elim (c.routes cur) [
      | inl far ↦
          let above : fle flt_max cost ≡ true = subst (λ x. fle x cost ≡ true) far cur-le-cost in
          absurd (cc (not_above, laws.fle_trans _ _ _ (c.bounded a.node).1 above))
      | inr way ↦ way
    ]

    routes-after :
        (v : ℕ) → (dist_at after v ≡ flt_max) ⊎ Route incoming blocked goal v (dist_at after v)
    routes-after v = elim (Bool-cases (a.node == v)) [
      | inl here ↦
          let at_v : dist_at after v ≡ cost = ground (arith, dist-after v) in
          inr (rw (at_v, ← (==_iff a.node v).0 here) (step a cur-Route open_way edge))
      | inr away ↦
          let as_before : dist_at after v ≡ dist_at s v = ground (arith, dist-after v) in
          rw as_before (c.routes v)
    ]

    after-Core : Core incoming blocked goal n after
    after-Core = record {
      dist_size = rw length-set c.dist_size;
      hop_size = rw length-set c.hop_size;
      settled_size = c.settled_size;
      heap_ok = pushed.0;
      entries = mem-split _ (λ e. hlevel le_prop) (from_in, cost-IsNonneg) c.entries;
      bounded = λ v. elim (Bool-cases (a.node == v)) [
        | inl here ↦ (
          ground (arith, dist-after v, cost-IsNonneg),
          ground (
            arith,
            dist-after v,
            c.bounded a.node,
            laws.fle_trans cost (dist_at s a.node) flt_max,
            fle_of_flt laws cost (dist_at s a.node),
          ),
        )
        | inr away ↦
            (ground (arith, dist-after v, c.bounded v), ground (arith, dist-after v, c.bounded v))
      ];
      queued = queued-after;
      floor = λ u h.
          mem-split _ (λ e. hlevel) (rw (dist_settled-after u h) (settled-le-cost u h))
            (λ e m. rw (dist_settled-after u h) (c.floor u h e m));
      goal_cost = ground (arith, dist-after goal, ne→== a.node goal from-ne-goal, c.goal_cost);
      goal_hop = ground (arith, hop-after goal, ne→== a.node goal from-ne-goal, c.goal_hop);
      hops = hops-after;
      routes = routes-after;
    }

    after-Lowers : Lowers incoming blocked goal s after
    after-Lowers = record {
      same_settled = λ v. refl;
      kept = dist_settled-after;
      lower = λ v. elim (Bool-cases (a.node == v)) [
        | inl here ↦
            ground (
              arith,
              dist-after v,
              fle_of_flt laws cost (dist_at s a.node),
              (==_iff a.node v).0 here,
            )
        | inr away ↦ ground (arith, dist-after v, dist-IsNum v)
      ];
    }

    after_relaxed : fle (dist_at after a.node) (fadd (dist_at after cur) a.f) ≡ true
    after_relaxed = ground (arith, dist-after a.node, dist_settled-after cur is_final, cost-IsNum)

  -- A relaxed edge: the invariant holds, what is settled stays, and the edge is satisfied.
  pub record Relaxed (r : Search F) : Type 0 where
    pub core : Core incoming blocked goal n r
    pub lowers : Lowers incoming blocked goal s r
    pub satisfied : fle (dist_at r a.node) (fadd (dist_at r cur) a.f) ≡ true

  pub relax-Relaxed : Relaxed (relax cur s a)
  unfolding relax
  relax-Relaxed = elim (Bool-cases (flt cost (dist_at s a.node))) [
    | inl lower ↦ rw lower (record {
      core = after-Core lower;
      lowers = after-Lowers lower;
      satisfied = after_relaxed lower;
    })
    | inr keep ↦ rw keep (record {
      core = c;
      lowers = record { same_settled = λ v. refl; kept = λ v _. refl; lower = λ v. dist-IsNum v };
      satisfied = fle_of_not_flt laws _ _ cost-IsNum (dist-IsNum a.node) keep;
    })
  ]
