-- ===== src/Graph/Precompute/Rounds.antt =====
-- One round of the loop keeps the invariant.
use mathlib.Core.List.{Memᴰ, mem-cons, mem-cons_of_mem, mem-cons_self, Mem-prop}
use mathlib.Core.List.Memᴰ
use mathlib.Core.List.Perm
use mathlib.Core.Logic.Or
use zk_libcod.Prelude.{
  ℕ, ◌<◌, ◌≡◌, refl, ◌∙◌, inl, inr, Bool, true, false, List, [], ◌∷◌, arith, length, Mem, Perm, set,
  length-set, get_or-set, ◌==◌, ==_iff, if◌then◌else◌, Bool-cases, subst, sym, ap, not, ◌||◌,
}
use zk_libcod.Float.{FloatOps, FloatLaws, IsNum}
use zk_libcod.Heap.{GraphHeapEntry, heap_pop}
use zk_libcod.Heap.Queue.{heap_pop-perm, heap_pop-least}
use zk_libcod.Graph.Precompute.{
  Incoming, Search, arcs_into, dist_at, hop_at, is_settled, relax, relax_all, round,
}
use zk_libcod.Graph.Precompute.Route.{Core, HopOk, Lowers, IsRelaxed, GoodArcs, entry}
use zk_libcod.Graph.Precompute.Relax.{relax-Relaxed}

module _ {F : Type 0} ⦃fl : FloatOps F⦄ (laws : FloatLaws fl) (incoming : Incoming F)
    (blocked : ℕ → Bool) (goal n : ℕ) (goal_in : goal < n)
    (good : GoodArcs incoming blocked goal n) where
  open fl use {fadd, flt_max, fle, feq}

  -- The invariant of the loop.
  pub record Inv (s : Search F) : Type 0 where
    pub core : Core incoming blocked goal n s
    pub relaxed : IsRelaxed incoming blocked goal s

  abbrev IsHighest : Search F → ℕ → Type 0
  IsHighest s cur = (u : ℕ) → is_settled s u ≡ true → fle (dist_at s u) (dist_at s cur) ≡ true

  dist-IsNum : (s : Search F) → Core incoming blocked goal n s → (v : ℕ) → IsNum fl (dist_at s v)
  dist-IsNum s c v = (laws.fle_num _ _ (c.bounded v).0).1

  record RelaxedAll (s : Search F) (cur : ℕ) (arcs : List (GraphHeapEntry F)) (r : Search F)
      : Type 0 where
    core : Core incoming blocked goal n r
    lowers : Lowers incoming blocked goal s r
    satisfied :
        (a : GraphHeapEntry F)
        → Memᴰ a arcs
        → fle (dist_at r a.node) (fadd (dist_at r cur) a.f) ≡ true

  relax_all-RelaxedAll :
      (cur : ℕ)
      → blocked cur ≡ false
      → (arcs : List (GraphHeapEntry F))
      → ((a : GraphHeapEntry F) → Memᴰ a arcs → Memᴰ a (arcs_into incoming cur))
      → (s : Search F) → Core incoming blocked goal n s
      → is_settled s cur ≡ true
      → IsHighest s cur
      → RelaxedAll s cur arcs (relax_all cur arcs s)
  unfolding relax_all
  relax_all-RelaxedAll cur open_way [] edges s c final highest = record {
    core = c;
    lowers = record { same_settled = λ v. refl; kept = λ v _. refl; lower = λ v. dist-IsNum s c v };
    satisfied = λ a m. absurd (Memᴰ.not-nil m);
  }
  relax_all-RelaxedAll cur open_way (a ∷ arcs) edges s c final highest =
      let mid = relax cur s a in
      let first =
        relax-Relaxed laws incoming blocked goal n goal_in good s c cur open_way final highest a
          (edges a (Memᴰ.head refl)) in
      let keep = first.lowers.kept in
      let highest' : IsHighest mid cur = λ u h.
        let old : is_settled s u ≡ true = sym (first.lowers.same_settled u) ∙ h in
        rw (keep u old, keep cur final) (highest u old) in
      let r = relax_all cur arcs mid in
      let rest =
        relax_all-RelaxedAll cur open_way arcs (λ b m. edges b (Memᴰ.tail m)) mid first.core
          (first.lowers.same_settled cur ∙ final) highest' in
      record {
        core = rest.core;
        lowers = record {
          same_settled = λ v. rest.lowers.same_settled v ∙ first.lowers.same_settled v;
          kept = λ v h. rest.lowers.kept v (first.lowers.same_settled v ∙ h) ∙ keep v h;
          lower = λ v. laws.fle_trans _ _ _ (rest.lowers.lower v) (first.lowers.lower v);
        };
        satisfied = λ b m. elim (Memᴰ.cases_cons m) [
          | inl same ↦
              subst (λ x. fle (dist_at r x.node) (fadd (dist_at r cur) x.f) ≡ true) (sym same)
                (rw (rest.lowers.kept cur (first.lowers.same_settled cur ∙ final))
                  (laws.fle_trans _ _ _ (rest.lowers.lower a.node) first.satisfied))
          | inr later ↦ rest.satisfied b later
        ];
      }

  HopOk-mono :
      (s s' : Search F) (v : ℕ)
      → hop_at s' v ≡ hop_at s v
      → dist_at s' v ≡ dist_at s v
      → ((u : ℕ) → dist_at s' u ≡ dist_at s u)
      → ((u : ℕ) → is_settled s u ≡ true → is_settled s' u ≡ true)
      → HopOk incoming blocked goal s v
      → HopOk incoming blocked goal s' v
  HopOk-mono s s' v hop cost costs settled (inl (none_yet, why)) =
      inl (hop ∙ none_yet, elim why [ inl e ↦ inl e | inr far ↦ inr (cost ∙ far) ])
  HopOk-mono s s' v hop cost costs settled (inr h) = inr (record {
    arc = h.arc;
    next = h.next;
    source = h.source;
    edge = h.edge;
    open_way = h.open_way;
    stored = hop ∙ h.stored;
    final = settled h.next h.final;
    cost = cost ∙ h.cost ∙ ap (λ x. fadd x h.arc.f) (sym (costs h.next));
  })

  module _ (s : Search F) (inv : Inv s) (pos : 0 < length s.heap) where
    abbrev c : Core incoming blocked goal n s
    c = inv.core

    abbrev top : GraphHeapEntry F
    top = (heap_pop s.heap).0

    abbrev rest : List (GraphHeapEntry F)
    rest = (heap_pop s.heap).1

    abbrev popped : Search F
    popped = record s { heap = rest }

    split : Perm (top ∷ rest) s.heap
    split = (heap_pop-perm laws s.heap c.heap_ok pos).1

    mem_rest : (e : GraphHeapEntry F) → Mem e rest → Mem e s.heap
    mem_rest e m = (Perm.mem_iff split).0 (mem-cons_of_mem top m)

    -- What waits and is not on top waits still.
    still_waits : (e : GraphHeapEntry F) → Mem e s.heap → (e ≡ top → ⊥) → Mem e rest
    still_waits e m other =
        Or.elim Mem-prop (mem-cons.0 ((Perm.mem_iff split).1 m)) (λ same. absurd (other same))
          (λ r. r)

    pub top_in : (top.node < n) × (fle fl.fzero top.f ≡ true)
    top_in = c.entries top ((Perm.mem_iff split).0 mem-cons_self)

    least : (e : GraphHeapEntry F) → Mem e s.heap → fle top.f e.f ≡ true
    least = heap_pop-least laws s.heap c.heap_ok pos

    -- The entry of a node that is not settled, at its cost, is not stale.
    not_stale :
        (v : ℕ)
        → is_settled s v ≡ false
        → entry (dist_at s v) v ≡ top
        → (is_settled s top.node || not (feq top.f (dist_at s top.node))) ≡ true
        → ⊥
    not_stale v unsettled same stale =
        let equal : feq (dist_at s v) (dist_at s v) ≡ true =
          ground (arith, laws.feq_fle (dist_at s v) (dist_at s v), dist-IsNum s c v) in
        let fresh : (is_settled s v || not (feq (dist_at s v) (dist_at s v))) ≡ false =
          ground (arith, equal, unsettled) in
        let fresh_top =
          subst
            (λ (x : GraphHeapEntry F).
              (is_settled s x.node || not (feq x.f (dist_at s x.node))) ≡ false)
            same fresh in
        absurd (cc (fresh_top, stale))

    -- A stale entry is dropped.
    popped-Inv : (is_settled s top.node || not (feq top.f (dist_at s top.node))) ≡ true → Inv popped
    popped-Inv stale = record {
      core = record {
        dist_size = c.dist_size;
        hop_size = c.hop_size;
        settled_size = c.settled_size;
        heap_ok = (heap_pop-perm laws s.heap c.heap_ok pos).0;
        entries = λ e m. c.entries e (mem_rest e m);
        bounded = c.bounded;
        queued = λ v inside unsettled. elim (c.queued v inside unsettled) [
          | inl far ↦ inl far
          | inr waits ↦ inr (still_waits _ waits (λ same. not_stale v unsettled same stale))
        ];
        floor = λ u h e m. c.floor u h e (mem_rest e m);
        goal_cost = c.goal_cost;
        goal_hop = c.goal_hop;
        hops = λ v inside. HopOk-mono s popped v refl refl (λ u. refl) (λ u h. h) (c.hops v inside);
        routes = c.routes;
      };
      relaxed = inv.relaxed;
    }

    module _ (fresh : (is_settled s top.node || not (feq top.f (dist_at s top.node))) ≡ false) where
      abbrev closed : Search F
      closed = record popped { settled = set s.settled top.node true }

      same_key : (fle top.f (dist_at s top.node) ≡ true) × (fle (dist_at s top.node) top.f ≡ true)
      same_key = ground (arith, laws.feq_fle top.f (dist_at s top.node))

      settled-closed :
          (u : ℕ) → is_settled closed u ≡ (if top.node == u then true else is_settled s u)
      settled-closed u = get_or-set s.settled top.node u true false (rw c.settled_size top_in.0)

      stays_settled : (u : ℕ) → is_settled s u ≡ true → is_settled closed u ≡ true
      stays_settled u h = ground (arith, settled-closed u)

      -- What is settled now costs no more than what was on top.
      settled-le-top : (u : ℕ) → is_settled closed u ≡ true → fle (dist_at s u) top.f ≡ true
      settled-le-top u h = elim (Bool-cases (top.node == u)) [
        | inl here ↦
            subst (λ v. fle (dist_at s v) top.f ≡ true) ((==_iff top.node u).0 here) same_key.1
        | inr away ↦
            c.floor u (ground (arith, settled-closed u)) top ((Perm.mem_iff split).0 mem-cons_self)
      ]

      closed-Core : Core incoming blocked goal n closed
      closed-Core = record {
        dist_size = c.dist_size;
        hop_size = c.hop_size;
        settled_size = rw length-set c.settled_size;
        heap_ok = (heap_pop-perm laws s.heap c.heap_ok pos).0;
        entries = λ e m. c.entries e (mem_rest e m);
        bounded = c.bounded;
        queued = λ v inside unsettled.
            let before : is_settled s v ≡ false = ground (arith, settled-closed v) in
            elim (c.queued v inside before) [
              | inl far ↦ inl far
              | inr waits ↦ inr (
                  still_waits _ waits (λ same.
                    let here : top.node ≡ v = sym (ap (λ (x : GraphHeapEntry F). x.node) same) in
                    ground (arith, settled-closed v)))
            ];
        floor = λ u h e m. laws.fle_trans _ _ _ (settled-le-top u h) (least e (mem_rest e m));
        goal_cost = c.goal_cost;
        goal_hop = c.goal_hop;
        hops =
            λ v inside. HopOk-mono s closed v refl refl (λ u. refl) stays_settled (c.hops v inside);
        routes = c.routes;
      }

      closed_relaxed :
          (u : ℕ)
          → is_settled s u ≡ true
          → blocked u ≡ false
          → (a : GraphHeapEntry F) → Memᴰ a (arcs_into incoming u)
          → fle (dist_at closed a.node) (fadd (dist_at closed u) a.f) ≡ true
      closed_relaxed u h = inv.relaxed u h

      blocked-Inv : blocked top.node ≡ true → Inv closed
      blocked-Inv shut = record {
        core = closed-Core;
        relaxed = λ u h open_way a m. elim (Bool-cases (top.node == u)) [
          | inl here ↦ absurd (cc (shut, open_way, (==_iff top.node u).0 here))
          | inr away ↦ inv.relaxed u (ground (arith, settled-closed u)) open_way a m
        ];
      }

      highest : IsHighest closed top.node
      highest u h = laws.fle_trans _ _ _ (settled-le-top u h) same_key.0

      expanded : Search F
      expanded = relax_all top.node (arcs_into incoming top.node) closed

      open-Inv :
          blocked top.node ≡ false → Inv (relax_all top.node (arcs_into incoming top.node) closed)
      open-Inv way =
          let r = relax_all top.node (arcs_into incoming top.node) closed in
          let all =
            relax_all-RelaxedAll top.node way (arcs_into incoming top.node) (λ a m. m) closed
              closed-Core (ground (arith, settled-closed top.node)) highest in
          record {
            core = all.core;
            relaxed = λ u h open_way a m. elim (Bool-cases (top.node == u)) [
              | inl here ↦
                  let same = (==_iff top.node u).0 here in
                  subst (λ v. fle (dist_at r a.node) (fadd (dist_at r v) a.f) ≡ true) same
                    (all.satisfied a (subst (λ v. Memᴰ a (arcs_into incoming v)) (sym same) m))
              | inr away ↦
                  let was : is_settled closed u ≡ true = sym (all.lowers.same_settled u) ∙ h in
                  let before : is_settled s u ≡ true = ground (arith, settled-closed u) in
                  rw (all.lowers.kept u was) (
                    laws.fle_trans _ _ _ (all.lowers.lower a.node)
                      (inv.relaxed u before open_way a m))
            ];
          }

    -- One round keeps the invariant.
    pub round-Inv : Inv (round incoming blocked s)
    unfolding round
    round-Inv = elim (Bool-cases (is_settled s top.node || not (feq top.f (dist_at s top.node)))) [
      | inl stale ↦ rw stale (popped-Inv stale)
      | inr fresh ↦ elim (Bool-cases (blocked top.node)) [
        | inl shut ↦ rw (fresh, shut) (blocked-Inv fresh shut)
        | inr way ↦ rw (fresh, way) (open-Inv fresh way)
      ]
    ]
