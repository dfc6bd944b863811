-- ===== src/Graph/Search/Keeps.antt =====
-- Each step of gsc_graph_find_path keeps what holds of the parents.
use mathlib.Core.List.{mem-cons, mem-cons_self, mem-cons_of_mem}
use mathlib.Core.List.Perm
use mathlib.Core.Logic.Or
use zk_libcod.Prelude.{
  ℕ, suc, ◌<◌, ◌≡◌, inl, inr, refl, sym, ap, subst, ◌∙◌, true, false, arith, length, ◌==◌,
  if◌then◌else◌, get_or-set, Bool-cases, length-set, ==_iff,
}
use zk_libcod.Float.{FloatOps}
use zk_libcod.Heap.{GraphHeapEntry, heap_pop}
use zk_libcod.Heap.Shuffle.{heap_push_moves, heap_pop_moves}
use zk_libcod.Graph.{AStarGraph, GraphEdge, GraphScratch}
use zk_libcod.Graph.Search.{Query, Progress, reach, heuristic}
use zk_libcod.Graph.Scratch.{is_seen, is_closed, parent_at, close}
use zk_libcod.Graph.Scratch.Marks.{closed-close, close-IsSized}
use zk_libcod.Graph.Scratch.Begin.{IsSized}
use zk_libcod.Graph.Search.Chain.{
  Allowed, Chain, begun, onward, Came, Inv, Chain-mono, count_of, count_of-set, seen_inside,
}

module _ {F : Type 0} ⦃fl : FloatOps F⦄ (graph : AStarGraph F) (q : Query F)
    (marks : GraphScratch F) where
  open fl use {flt}

  abbrev Kept : Progress F → Type 0
  Kept p = Inv graph q marks p

  abbrev size : ℕ
  size = length graph.nodes

  -- The entry that is taken off was waiting, and the others still are.
  pub popped_seen :
      (p : Progress F)
      → Kept p
      → 0 < length p.scratch.heap
      → is_seen p.scratch (heap_pop p.scratch.heap).0.node ≡ true
  popped_seen p inv some_left =
      inv.waiting (heap_pop p.scratch.heap).0
        ((Perm.mem_iff (heap_pop_moves p.scratch.heap some_left)).0 mem-cons_self)

  pub pop-Inv :
      (p : Progress F)
      → Kept p
      → 0 < length p.scratch.heap
      → Kept (record p { scratch = record p.scratch { heap = (heap_pop p.scratch.heap).1 } })
  pop-Inv p inv some_left = record {
    sized = record {
      g_size = inv.sized.g_size;
      f_size = inv.sized.f_size;
      parent_size = inv.sized.parent_size;
      stamp_size = inv.sized.stamp_size;
      closed_size = inv.sized.closed_size;
      stamps = inv.sized.stamps;
      closed_stamps = inv.sized.closed_stamps;
      id_pos = inv.sized.id_pos;
      id_bound = inv.sized.id_bound;
    };
    waiting = λ e m.
        inv.waiting e
          ((Perm.mem_iff (heap_pop_moves p.scratch.heap some_left)).0 (mem-cons_of_mem _ m));
    best_seen = inv.best_seen;
    came = inv.came;
    chains = λ v c s.
        let (k, less, chain) = inv.chains v c s in
        (k, less, Chain-mono graph q marks p.scratch _ (λ u h. h) (λ u h. refl) v k chain);
    marked = inv.marked;
  }

  module _ (p : Progress F) (inv : Kept p) (cur : ℕ) (seen : is_seen p.scratch cur ≡ true)
      (unclosed : is_closed p.scratch cur ≡ false) (expansions : ℕ) where
    abbrev s : GraphScratch F
    s = p.scratch

    abbrev t : GraphScratch F
    t = close p.scratch cur

    inside : cur < size
    inside = seen_inside size s inv.sized cur seen

    more_closed : (v : ℕ) → is_closed s v ≡ true → is_closed t v ≡ true
    more_closed v h = ground (arith, closed-close size s inv.sized cur inside v)

    counted : count_of s.search_id t.closed_stamp ≡ suc (count_of s.search_id s.closed_stamp)
    counted = count_of-set s.search_id s.closed_stamp cur (rw inv.sized.closed_size inside) unclosed

    abbrev ChainOf : ℕ → Type 0
    ChainOf v = (k : ℕ) × (k < count_of t.search_id t.closed_stamp) × Chain graph q marks t v k

    extend : (v : ℕ) → is_closed s v ≡ true → is_seen s v ≡ true → ChainOf v
    extend v c sn =
        let (k, less, chain) = inv.chains v c sn in
        (
          k,
          omega (arith, less, counted),
          Chain-mono graph q marks s t more_closed (λ u h. refl) v k chain,
        )

    -- The chain of the node that is closed.
    own_chain : ChainOf cur
    own_chain = elim (inv.came cur seen) [
      | inl first ↦
          (0, omega (arith, counted), subst (λ u. Chain graph q marks t u 0) (sym first) begun)
      | inr (c, sn, step) ↦
          let (k, less, chain) = inv.chains (parent_at s cur) c sn in
          let here : is_closed t cur ≡ true =
            ground (arith, closed-close size s inv.sized cur inside cur) in
          (
            suc k,
            omega (arith, less, counted),
            onward here step (Chain-mono graph q marks s t more_closed (λ u h. refl) _ k chain),
          )
    ]

    pub close-Inv : Kept (record p { scratch = close p.scratch cur; expansions = expansions })
    close-Inv = record {
      sized = close-IsSized size s inv.sized cur inside;
      waiting = inv.waiting;
      best_seen = inv.best_seen;
      came = λ v sn. elim (inv.came v sn) [
        | inl first ↦ inl first
        | inr (c, psn, step) ↦ inr (more_closed (parent_at s v) c, psn, step)
      ];
      chains = λ v c sn. elim (Bool-cases (cur == v)) [
        | inl here ↦ subst ChainOf ((==_iff cur v).0 here) own_chain
        | inr away ↦ extend v (ground (arith, closed-close size s inv.sized cur inside v)) sn
      ];
      marked = λ v h. more_closed v (inv.marked v h);
    }

  -- The tests that let an edge through.
  module _ (p : Progress F) (inv : Kept p) (cur : ℕ) (edge : GraphEdge F)
      (closed : is_closed p.scratch cur ≡ true) (seen : is_seen p.scratch cur ≡ true)
      (target_in : edge.to < size) (step : Allowed graph q marks cur edge.to)
      (fresh : is_closed p.scratch edge.to ≡ false) (tentative : F) where
    abbrev before : GraphScratch F
    before = p.scratch

    abbrev later : Progress F
    later = reach graph q cur edge tentative p

    seen-reach :
        (v : ℕ) → is_seen later.scratch v ≡ (if edge.to == v then true else is_seen before v)
    unfolding reach
    seen-reach v = ground (
      arith,
      get_or-set before.stamp edge.to v before.search_id 0 (rw inv.sized.stamp_size target_in),
    )

    parent-reach :
        (v : ℕ) → parent_at later.scratch v ≡ (if edge.to == v then cur else parent_at before v)
    unfolding reach
    parent-reach v = get_or-set before.parent edge.to v cur 0 (rw inv.sized.parent_size target_in)

    pub still_seen : (v : ℕ) → is_seen before v ≡ true → is_seen later.scratch v ≡ true
    still_seen v h = ground (arith, seen-reach v)

    -- A closed node is not the target, so its parent stays.
    same_parent :
        (v : ℕ) → is_closed before v ≡ true → parent_at later.scratch v ≡ parent_at before v
    same_parent v c = elim (Bool-cases (edge.to == v)) [
      | inl here ↦
          let clash : is_closed before edge.to ≡ true =
            subst (λ u. is_closed before u ≡ true) (sym ((==_iff edge.to v).0 here)) c in
          absurd (cc (clash, fresh))
      | inr away ↦ parent-reach v ∙ rw away refl
    ]

    Came-later : (v : ℕ) → is_seen later.scratch v ≡ true → Came graph q marks later.scratch v
    unfolding reach
    Came-later v h = elim (Bool-cases (edge.to == v)) [
      | inl here ↦
          let parent : parent_at later.scratch v ≡ cur = parent-reach v ∙ rw here refl in
          let arrives : Allowed graph q marks cur v =
            subst (Allowed graph q marks cur) ((==_iff edge.to v).0 here) step in
          inr (
            subst
              (λ u.
                (is_closed later.scratch u ≡ true)
                × (is_seen later.scratch u ≡ true)
                × Allowed graph q marks u v)
              (sym parent) (closed, still_seen cur seen, arrives))
      | inr away ↦
          let old : is_seen before v ≡ true = ground (arith, seen-reach v) in
          let parent : parent_at later.scratch v ≡ parent_at before v =
            parent-reach v ∙ rw away refl in
          elim (inv.came v old) [
            | inl first ↦ inl first
            | inr (c, sn, way) ↦ inr (
                subst
                  (λ u.
                    (is_closed later.scratch u ≡ true)
                    × (is_seen later.scratch u ≡ true)
                    × Allowed graph q marks u v)
                  (sym parent) (c, still_seen _ sn, way))
          ]
    ]

    reach-IsSized : IsSized size later.scratch
    unfolding reach
    reach-IsSized = record {
      g_size = length-set _ _ _ ∙ inv.sized.g_size;
      f_size = length-set _ _ _ ∙ inv.sized.f_size;
      parent_size = length-set _ _ _ ∙ inv.sized.parent_size;
      stamp_size = length-set _ _ _ ∙ inv.sized.stamp_size;
      closed_size = inv.sized.closed_size;
      stamps = λ v. ground (
        arith,
        get_or-set before.stamp edge.to v before.search_id 0 (rw inv.sized.stamp_size target_in),
        inv.sized.stamps v,
      );
      closed_stamps = inv.sized.closed_stamps;
      id_pos = inv.sized.id_pos;
      id_bound = inv.sized.id_bound;
    }

    pub reach-Inv : Kept later
    unfolding reach
    reach-Inv =
        let push = heap_push_moves before.heap _ edge.to in
        record {
          sized = reach-IsSized;
          waiting = λ e m.
              Or.elim (hlevel) (mem-cons.0 ((Perm.mem_iff push).0 m))
                (λ new.
                  let target : edge.to ≡ e.node = sym (ap (λ (x : GraphHeapEntry F). x.node) new) in
                  ground (arith, seen-reach e.node))
                (λ old. still_seen e.node (inv.waiting e old));
          best_seen = elim (Bool-cases (flt (heuristic graph q edge.to) p.best_h)) [
            | inl closer ↦ rw closer (ground (arith, seen-reach edge.to))
            | inr farther ↦ rw farther (still_seen p.best_node inv.best_seen)
          ];
          came = Came-later;
          chains = λ v c sn. elim (Bool-cases (edge.to == v)) [
            | inl here ↦
                let clash : is_closed before edge.to ≡ true =
                  subst (λ u. is_closed before u ≡ true) (sym ((==_iff edge.to v).0 here)) c in
                absurd (cc (clash, fresh))
            | inr away ↦
                let (k, less, chain) = inv.chains v c (ground (arith, seen-reach v)) in
                (
                  k,
                  less,
                  Chain-mono graph q marks before later.scratch (λ u h. h) same_parent v k chain,
                )
          ];
          marked = inv.marked;
        }
