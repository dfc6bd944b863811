-- ===== src/Graph/Precompute/Arcs.antt =====
-- The reverse adjacency holds an edge of the graph exactly where the search may use it.
use mathlib.Core.List.{Memᴰ}
use mathlib.Core.List.Memᴰ
use zk_libcod.Prelude.Members.{memᴰ_snoc, snoc_last, snoc_old}
use zk_libcod.Prelude.{
  ℕ, ◌<◌, ◌≡◌, refl, sym, ◌⊎◌, inl, inr, false, List, [], ◌∷◌, ◌++◌, length, length-set, get_or-set,
  ◌==◌, ==_iff, Bool-cases, if◌then◌else◌, subst, ◌∙◌, All,
}
use zk_libcod.Prelude.Int.{ℤ}
use zk_libcod.Heap.{GraphHeapEntry}
use zk_libcod.Graph.{GraphEdge, skips}
use zk_libcod.Graph.Precompute.{Incoming, arcs_into, push_arc, add_arcs}

module _ {F : Type 0} where
  length-push_arc :
      (inc : Incoming F) (to : ℕ) (b : GraphHeapEntry F) → length (push_arc inc to b) ≡ length inc
  unfolding push_arc
  length-push_arc inc to b = length-set inc to (arcs_into inc to ++ b ∷ [])

  module _ (inc : Incoming F) (to : ℕ) (b : GraphHeapEntry F) (inside : to < length inc)
      (v : ℕ) where
    arcs-push_arc :
        arcs_into (push_arc inc to b) v
        ≡ (if to == v then arcs_into inc to ++ b ∷ [] else arcs_into inc v)
    unfolding push_arc
    arcs-push_arc = get_or-set inc to v (arcs_into inc to ++ b ∷ []) [] inside

    push_arc_sound :
        (a : GraphHeapEntry F)
        → Memᴰ a (arcs_into (push_arc inc to b) v)
        → Memᴰ a (arcs_into inc v) ⊎ ((to ≡ v) × (a ≡ b))
    push_arc_sound a m = elim (Bool-cases (to == v)) [
      | inl here ↦
          let same = (==_iff to v).0 here in
          let there : arcs_into (push_arc inc to b) v ≡ arcs_into inc to ++ b ∷ [] =
            arcs-push_arc ∙ rw here refl in
          elim (memᴰ_snoc a b (arcs_into inc to) (subst (Memᴰ a) there m)) [
            | inl old ↦ inl (subst (λ x. Memᴰ a (arcs_into inc x)) same old)
            | inr new ↦ inr (same, new)
          ]
      | inr away ↦
          let there : arcs_into (push_arc inc to b) v ≡ arcs_into inc v =
            arcs-push_arc ∙ rw away refl in
          inl (subst (Memᴰ a) there m)
    ]

    push_arc_keeps :
        (a : GraphHeapEntry F) → Memᴰ a (arcs_into inc v) → Memᴰ a (arcs_into (push_arc inc to b) v)
    push_arc_keeps a m = elim (Bool-cases (to == v)) [
      | inl here ↦
          let same = (==_iff to v).0 here in
          rw (arcs-push_arc, here)
            (snoc_old a b (subst (λ x. Memᴰ a (arcs_into inc x)) (sym same) m))
      | inr away ↦ rw (arcs-push_arc, away) m
    ]

  push_arc_new :
      (inc : Incoming F) (to : ℕ) (b : GraphHeapEntry F)
      → to < length inc
      → Memᴰ b (arcs_into (push_arc inc to b) to)
  push_arc_new inc to b inside =
      rw (arcs-push_arc inc to b inside to, (==_iff to to).1 refl) (snoc_last b (arcs_into inc to))

-- The arc that an edge of node `i` gives.
abbrev pub arc_of : {F : Type 0} → ℕ → GraphEdge F → GraphHeapEntry F
arc_of i e = record { f = e.cost; node = i }

-- Every edge leads to a node below `n`.
abbrev pub Inside : {F : Type 0} → ℕ → List (GraphEdge F) → Type 0
Inside n es = All (λ e. e.to < n) es

-- Node `i` has an edge that the search may use, which leads to `v` and gives the arc `a`.
pub record Edge {F : Type 0} (mask : ℤ) (i v : ℕ) (es : List (GraphEdge F)) (a : GraphHeapEntry F)
    : Type 0 where
  pub edge : GraphEdge F
  pub stored : Memᴰ edge es
  pub usable : skips mask edge.type ≡ false
  pub leads : edge.to ≡ v
  pub gives : a ≡ arc_of i edge

Edge-later :
    {F : Type 0} (mask : ℤ) (i v : ℕ) (e : GraphEdge F) (es : List (GraphEdge F))
    (a : GraphHeapEntry F)
    → Edge mask i v es a
    → Edge mask i v (e ∷ es) a
Edge-later mask i v e es a x = record {
  edge = x.edge;
  stored = Memᴰ.tail x.stored;
  usable = x.usable;
  leads = x.leads;
  gives = x.gives;
}

module _ {F : Type 0} (mask : ℤ) (i : ℕ) where
  -- What one round of the loop makes of the lists.
  abbrev one : GraphEdge F → Incoming F → Incoming F
  one e inc = if skips mask e.type then inc else push_arc inc e.to (arc_of i e)

  length-one : (e : GraphEdge F) (inc : Incoming F) → length (one e inc) ≡ length inc
  length-one e inc = elim (Bool-cases (skips mask e.type)) [
    | inl skipped ↦ rw skipped refl
    | inr usable ↦ rw usable (length-push_arc inc e.to (arc_of i e))
  ]

  pub length-add_arcs :
      (es : List (GraphEdge F)) (inc : Incoming F) → length (add_arcs mask i es inc) ≡ length inc
  unfolding add_arcs
  length-add_arcs [] inc = refl
  length-add_arcs (e ∷ es) inc = length-add_arcs es (one e inc) ∙ length-one e inc

  one_keeps :
      (e : GraphEdge F) (inc : Incoming F)
      → e.to < length inc
      → (v : ℕ) (a : GraphHeapEntry F) → Memᴰ a (arcs_into inc v)
      → Memᴰ a (arcs_into (one e inc) v)
  one_keeps e inc inside v a m = elim (Bool-cases (skips mask e.type)) [
    | inl skipped ↦ rw skipped m
    | inr usable ↦ rw usable (push_arc_keeps inc e.to (arc_of i e) inside v a m)
  ]

  pub add_arcs_keeps :
      (es : List (GraphEdge F)) (inc : Incoming F)
      → Inside (length inc) es
      → (v : ℕ) (a : GraphHeapEntry F) → Memᴰ a (arcs_into inc v)
      → Memᴰ a (arcs_into (add_arcs mask i es inc) v)
  unfolding add_arcs
  add_arcs_keeps [] inc inside v a m = m
  add_arcs_keeps (e ∷ es) inc inside v a m =
      add_arcs_keeps es (one e inc) (rw (length-one e inc) inside.1) v a
        (one_keeps e inc inside.0 v a m)

  pub add_arcs_complete :
      (es : List (GraphEdge F)) (inc : Incoming F)
      → Inside (length inc) es
      → (e : GraphEdge F) → Memᴰ e es
      → skips mask e.type ≡ false
      → Memᴰ (arc_of i e) (arcs_into (add_arcs mask i es inc) e.to)
  unfolding add_arcs
  add_arcs_complete [] inc inside e m usable = absurd (Memᴰ.not-nil m)
  add_arcs_complete (x ∷ es) inc inside e (Memᴰ.head same) usable =
      add_arcs_keeps es (one x inc) (rw (length-one x inc) inside.1) e.to (arc_of i e)
        (rw (← same, usable) (push_arc_new inc e.to (arc_of i e) (rw same inside.0)))
  add_arcs_complete (x ∷ es) inc inside e (Memᴰ.tail m) usable =
      add_arcs_complete es (one x inc) (rw (length-one x inc) inside.1) e m usable

  pub add_arcs_sound :
      (es : List (GraphEdge F)) (inc : Incoming F)
      → Inside (length inc) es
      → (v : ℕ) (a : GraphHeapEntry F) → Memᴰ a (arcs_into (add_arcs mask i es inc) v)
      → Memᴰ a (arcs_into inc v) ⊎ Edge mask i v es a
  unfolding add_arcs
  add_arcs_sound [] inc inside v a m = inl m
  add_arcs_sound (e ∷ es) inc inside v a m =
      elim (add_arcs_sound es (one e inc) (rw (length-one e inc) inside.1) v a m) [
        | inr later ↦ inr (Edge-later mask i v e es a later)
        | inl sooner ↦ elim (Bool-cases (skips mask e.type)) [
          | inl skipped ↦ inl (rw skipped at sooner)
          | inr usable ↦
              let pushed : Memᴰ a (arcs_into (push_arc inc e.to (arc_of i e)) v) =
                rw usable at sooner in
              elim (push_arc_sound inc e.to (arc_of i e) inside.0 v a pushed) [
                | inl old ↦ inl old
                | inr (leads, gives) ↦ inr (record {
                  edge = e;
                  stored = Memᴰ.head refl;
                  usable = usable;
                  leads = leads;
                  gives = gives;
                })
              ]
        ]
      ]
