-- ===== src/Graph/Precompute/Ends.antt =====
-- The search ends: each round takes an entry off the heap, and an edge is relaxed once.
use zk_libcod.Prelude.{
  ℕ, zero, suc, ◌+◌, ◌<◌, ◌≤◌, ◌≡◌, refl, inl, inr, Bool, true, false, not, ◌||◌, List, [], ◌∷◌,
  arith, length, get_or, set, replicate, ◌==◌, ==_iff, Bool-cases, ◌∙◌,
}
use zk_libcod.Float.{FloatOps, FloatLaws}
use zk_libcod.Heap.{GraphHeapEntry, heap_pop}
use zk_libcod.Heap.Size.{length-heap_push, length-heap_pop}
use zk_libcod.Graph.Precompute.{
  Incoming, Search, arcs_into, dist_at, is_settled, relax, relax_all, round, rounds, arc_count,
}
use zk_libcod.Graph.Precompute.Route.{GoodArcs}
use zk_libcod.Graph.Precompute.Rounds.{Inv, round-Inv, top_in}

module _ {F : Type 0} where
  -- The edges into the nodes that are not settled.
  unfoldable pub open_arcs : Incoming F → List Bool → ℕ
  open_arcs [] bs = 0
  open_arcs (arcs ∷ rest) [] = length arcs + open_arcs rest []
  open_arcs (arcs ∷ rest) (true ∷ bs) = open_arcs rest bs
  open_arcs (arcs ∷ rest) (false ∷ bs) = length arcs + open_arcs rest bs

  open_arcs-set :
      (incoming : Incoming F) (bs : List Bool) (v : ℕ)
      → v < length bs
      → get_or bs v false ≡ false
      → open_arcs incoming (set bs v true) + length (arcs_into incoming v) ≡ open_arcs incoming bs
  unfolding open_arcs
  open_arcs-set [] [] v h e = elim h [ ]
  open_arcs-set [] (b ∷ bs) v h e = refl
  open_arcs-set (arcs ∷ rest) [] v h e = elim h [ ]
  open_arcs-set (arcs ∷ rest) (true ∷ bs) zero h e = cc
  open_arcs-set (arcs ∷ rest) (false ∷ bs) zero h e = omega arith
  open_arcs-set (arcs ∷ rest) (true ∷ bs) (suc v) h e = open_arcs-set rest bs v (omega arith) e
  open_arcs-set (arcs ∷ rest) (false ∷ bs) (suc v) h e =
      omega (arith, open_arcs-set rest bs v (omega arith) e)

  pub open_arcs-replicate :
      (incoming : Incoming F) (n : ℕ) → open_arcs incoming (replicate n false) ≡ arc_count incoming
  unfolding open_arcs arc_count
  open_arcs-replicate [] n = refl
  open_arcs-replicate (arcs ∷ rest) zero = omega (arith, open_arcs-replicate rest zero)
  open_arcs-replicate (arcs ∷ rest) (suc n) = omega (arith, open_arcs-replicate rest n)

module _ {F : Type 0} ⦃fl : FloatOps F⦄ where
  relax-size :
      (cur : ℕ) (s : Search F) (a : GraphHeapEntry F)
      → length (relax cur s a).heap ≤ length s.heap + 1
  unfolding relax
  relax-size cur s a = ground (arith, length-heap_push s.heap (fl.fadd (dist_at s cur) a.f) a.node)

  relax-settled :
      (cur : ℕ) (s : Search F) (a : GraphHeapEntry F) → (relax cur s a).settled ≡ s.settled
  unfolding relax
  relax-settled cur s a = ground arith

  relax_all-size :
      (cur : ℕ) (arcs : List (GraphHeapEntry F)) (s : Search F)
      → length (relax_all cur arcs s).heap ≤ length s.heap + length arcs
  unfolding relax_all
  relax_all-size cur [] s = omega arith
  relax_all-size cur (a ∷ arcs) s =
      omega (arith, relax-size cur s a, relax_all-size cur arcs (relax cur s a))

  relax_all-settled :
      (cur : ℕ) (arcs : List (GraphHeapEntry F)) (s : Search F)
      → (relax_all cur arcs s).settled ≡ s.settled
  unfolding relax_all
  relax_all-settled cur [] s = refl
  relax_all-settled cur (a ∷ arcs) s =
      relax_all-settled cur arcs (relax cur s a) ∙ relax-settled cur s a

module _ {F : Type 0} ⦃fl : FloatOps F⦄ (laws : FloatLaws fl) (incoming : Incoming F)
    (blocked : ℕ → Bool) (goal n : ℕ) (goal_in : goal < n)
    (good : GoodArcs incoming blocked goal n) where
  open fl use {feq}

  abbrev work : Search F → ℕ
  work s = length s.heap + open_arcs incoming s.settled

  round-work :
      (s : Search F)
      → Inv laws incoming blocked goal n goal_in good s
      → 0 < length s.heap
      → suc (work (round incoming blocked s)) ≤ work s
  unfolding round
  round-work s inv pos =
      let top = (heap_pop s.heap).0 in
      let shorter = length-heap_pop s.heap pos in
      let inside = (top_in laws incoming blocked goal n goal_in good s inv pos).0 in
      let closed : Search F = record s {
        heap = (heap_pop s.heap).1;
        settled = set s.settled top.node true;
      } in
      let fewer =
        open_arcs-set incoming s.settled top.node (omega (arith, inv.core.settled_size)) in
      let grows = relax_all-size top.node (arcs_into incoming top.node) closed in
      let same = relax_all-settled top.node (arcs_into incoming top.node) closed in
      elim (Bool-cases (is_settled s top.node || not (feq top.f (dist_at s top.node)))) [
        | inl stale ↦ rw stale (omega arith)
        | inr fresh ↦
            let less = fewer (ground arith) in
            elim (Bool-cases (blocked top.node)) [
              | inl shut ↦ rw (fresh, shut) (omega arith)
              | inr way ↦ rw (fresh, way, same) (omega arith)
            ]
      ]

  -- With enough fuel the loop ends by its test, and the invariant holds.
  pub rounds_end :
      (fuel : ℕ) (s : Search F)
      → Inv laws incoming blocked goal n goal_in good s
      → work s ≤ fuel
      → Inv laws incoming blocked goal n goal_in good (rounds incoming blocked fuel s)
        × (length (rounds incoming blocked fuel s).heap ≡ 0)
  unfolding rounds
  rounds_end zero s inv h = (inv, omega arith)
  rounds_end (suc fuel) s inv h = elim (Bool-cases (length s.heap == 0)) [
    | inl empty ↦ rw empty (inv, (==_iff _ 0).0 empty)
    | inr more ↦
        let pos : 0 < length s.heap = ground arith in
        rw more (
          rounds_end fuel (round incoming blocked s)
            (round-Inv laws incoming blocked goal n goal_in good s inv pos)
            (omega (arith, round-work s inv pos)))
  ]
