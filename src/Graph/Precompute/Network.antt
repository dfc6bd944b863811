-- ===== src/Graph/Precompute/Network.antt =====
-- The reverse adjacency of a whole graph: the arcs into a node are the usable edges that lead to it.
use mathlib.Core.List.{Memᴰ}
use mathlib.Core.List.Memᴰ
use zk_libcod.Prelude.{
  ℕ, zero, suc, ◌+◌, ◌<◌, ◌≡◌, refl, ◌⊎◌, inl, inr, false, List, [], ◌∷◌, arith, length, replicate,
  get_or, ap, length-replicate, get_or-replicate, Bool-cases, if◌then◌else◌, ◌∙◌, subst, All,
}
use zk_libcod.Prelude.Int.{ℤ}
use zk_libcod.Float.{FloatOps}
use zk_libcod.Heap.{GraphHeapEntry}
use zk_libcod.Graph.{GraphNode, GraphEdge, node_at, skips}
use zk_libcod.Graph.Precompute.{Incoming, arcs_into, add_arcs, add_all_arcs, incoming_arcs}
use zk_libcod.Graph.Precompute.Arcs.{
  Edge, arc_of, Inside, length-add_arcs, add_arcs_keeps, add_arcs_complete, add_arcs_sound,
}

module _ {F : Type 0} ⦃fl : FloatOps F⦄ (mask : ℤ) where
  -- What the round for node `i` makes of the lists.
  abbrev one_node : ℕ → GraphNode F → Incoming F → Incoming F
  one_node i n inc = if n.removed then inc else add_arcs mask i n.edges inc

  length-one_node :
      (i : ℕ) (n : GraphNode F) (inc : Incoming F) → length (one_node i n inc) ≡ length inc
  length-one_node i n inc = elim (Bool-cases n.removed) [
    | inl gone ↦ rw gone refl
    | inr live ↦ rw live (length-add_arcs mask i n.edges inc)
  ]

  pub length-add_all_arcs :
      (i : ℕ) (ns : List (GraphNode F)) (inc : Incoming F)
      → length (add_all_arcs mask i ns inc) ≡ length inc
  unfolding add_all_arcs
  length-add_all_arcs i [] inc = refl
  length-add_all_arcs i (n ∷ ns) inc =
      length-add_all_arcs (suc i) ns (one_node i n inc) ∙ length-one_node i n inc

  abbrev AllInside : ℕ → List (GraphNode F) → Type 0
  AllInside size ns = All (λ n. Inside size n.edges) ns

  one_node_keeps :
      (i : ℕ) (n : GraphNode F) (inc : Incoming F)
      → Inside (length inc) n.edges
      → (v : ℕ) (a : GraphHeapEntry F) → Memᴰ a (arcs_into inc v)
      → Memᴰ a (arcs_into (one_node i n inc) v)
  one_node_keeps i n inc inside v a m = elim (Bool-cases n.removed) [
    | inl gone ↦ rw gone m
    | inr live ↦ rw live (add_arcs_keeps mask i n.edges inc inside v a m)
  ]

  add_all_arcs_keeps :
      (i : ℕ) (ns : List (GraphNode F)) (inc : Incoming F)
      → AllInside (length inc) ns
      → (v : ℕ) (a : GraphHeapEntry F) → Memᴰ a (arcs_into inc v)
      → Memᴰ a (arcs_into (add_all_arcs mask i ns inc) v)
  unfolding add_all_arcs
  add_all_arcs_keeps i [] inc inside v a m = m
  add_all_arcs_keeps i (n ∷ ns) inc inside v a m =
      add_all_arcs_keeps (suc i) ns (one_node i n inc) (rw (length-one_node i n inc) inside.1) v a
        (one_node_keeps i n inc inside.0 v a m)

  add_all_arcs_complete :
      (i : ℕ) (ns : List (GraphNode F)) (inc : Incoming F)
      → AllInside (length inc) ns
      → (k u : ℕ) → u ≡ i + k
      → k < length ns
      → (node_at ns k).removed ≡ false
      → (e : GraphEdge F) → Memᴰ e (node_at ns k).edges
      → skips mask e.type ≡ false
      → Memᴰ (arc_of u e) (arcs_into (add_all_arcs mask i ns inc) e.to)
  unfolding add_all_arcs
  add_all_arcs_complete i [] inc inside k u place lt live e m usable = elim lt [ ]
  add_all_arcs_complete i (n ∷ ns) inc inside zero u place lt live e m usable =
      let first : u ≡ i = omega arith in
      add_all_arcs_keeps (suc i) ns (one_node i n inc) (rw (length-one_node i n inc) inside.1) e.to
        _ (rw (live, first) (add_arcs_complete mask i n.edges inc inside.0 e m usable))
  add_all_arcs_complete i (n ∷ ns) inc inside (suc k) u place lt live e m usable =
      add_all_arcs_complete (suc i) ns (one_node i n inc) (rw (length-one_node i n inc) inside.1) k
        u (omega arith) (omega arith) live e m usable

  -- Where an arc comes from: node `u`, at index `k` of the list.
  record From (ns : List (GraphNode F)) (i v : ℕ) (a : GraphHeapEntry F) : Type 0 where
    index : ℕ
    inside : index < length ns
    live : (node_at ns index).removed ≡ false
    edge : Edge mask (i + index) v (node_at ns index).edges a

  From-later :
      (n : GraphNode F) (ns : List (GraphNode F)) (i v : ℕ) (a : GraphHeapEntry F)
      → From ns (suc i) v a
      → From (n ∷ ns) i v a
  From-later n ns i v a x =
      let place : suc i + x.index ≡ i + suc x.index = omega arith in
      record {
        index = suc x.index;
        inside = omega (arith, x.inside);
        live = x.live;
        edge = subst (λ j. Edge mask j v (node_at ns x.index).edges a) place x.edge;
      }

  add_all_arcs_sound :
      (i : ℕ) (ns : List (GraphNode F)) (inc : Incoming F)
      → AllInside (length inc) ns
      → (v : ℕ) (a : GraphHeapEntry F) → Memᴰ a (arcs_into (add_all_arcs mask i ns inc) v)
      → Memᴰ a (arcs_into inc v) ⊎ From ns i v a
  unfolding add_all_arcs
  add_all_arcs_sound i [] inc inside v a m = inl m
  add_all_arcs_sound i (n ∷ ns) inc inside v a m =
      elim (add_all_arcs_sound (suc i) ns (one_node i n inc) (rw (length-one_node i n inc) inside.1)
        v a m) [
          | inr later ↦ inr (From-later n ns i v a later)
          | inl sooner ↦ elim (Bool-cases n.removed) [
            | inl gone ↦ inl (rw gone at sooner)
            | inr live ↦
                let added : Memᴰ a (arcs_into (add_arcs mask i n.edges inc) v) =
                  rw live at sooner in
                elim (add_arcs_sound mask i n.edges inc inside.0 v a added) [
                  | inl old ↦ inl old
                  | inr found ↦
                      let place : i ≡ i + 0 = omega arith in
                      inr (record {
                        index = 0;
                        inside = omega arith;
                        live = live;
                        edge = subst (λ j. Edge mask j v n.edges a) place found;
                      })
                ]
          ]
        ]

  module _ (nodes : List (GraphNode F)) (inside : AllInside (length nodes) nodes) where
    pub length-incoming_arcs : length (incoming_arcs mask nodes) ≡ length nodes
    unfolding incoming_arcs
    length-incoming_arcs =
        length-add_all_arcs 0 nodes (replicate (length nodes) [])
        ∙ length-replicate (length nodes) []

    abbrev all_inside :
        AllInside (length (replicate {A = List (GraphHeapEntry F)} (length nodes) [])) nodes
    all_inside = rw (length-replicate (length nodes)) inside

    -- Every usable edge of a node that is not removed is an arc.
    pub incoming_arcs_complete :
        (u : ℕ)
        → u < length nodes
        → (node_at nodes u).removed ≡ false
        → (e : GraphEdge F) → Memᴰ e (node_at nodes u).edges
        → skips mask e.type ≡ false
        → Memᴰ (arc_of u e) (arcs_into (incoming_arcs mask nodes) e.to)
    unfolding incoming_arcs
    incoming_arcs_complete u lt live e m usable =
        add_all_arcs_complete 0 nodes (replicate (length nodes) []) all_inside u u (omega arith) lt
          live e m usable

    -- An arc is a usable edge of a node that is not removed.
    pub incoming_arcs_sound :
        (v : ℕ) (a : GraphHeapEntry F)
        → Memᴰ a (arcs_into (incoming_arcs mask nodes) v)
        → (a.node < length nodes)
          × ((node_at nodes a.node).removed ≡ false)
          × Edge mask a.node v (node_at nodes a.node).edges a
    unfolding incoming_arcs
    incoming_arcs_sound v a m =
        elim (add_all_arcs_sound 0 nodes (replicate (length nodes) []) all_inside v a m) [
          | inl old ↦
              let none_old : Memᴰ a (get_or (replicate (length nodes) []) v []) = old in
              absurd (
                Memᴰ.not-nil (
                  rw (get_or-replicate {A = List (GraphHeapEntry F)} (length nodes) v []) at
                    none_old))
          | inr from ↦
              let source : a.node ≡ 0 + from.index =
                ap (λ (x : GraphHeapEntry F). x.node) from.edge.gives in
              let place : from.index ≡ a.node = omega arith in
              let front : 0 + from.index ≡ from.index = omega arith in
              let edge : Edge mask from.index v (node_at nodes from.index).edges a =
                subst (λ j. Edge mask j v (node_at nodes from.index).edges a) front from.edge in
              subst
                (λ j.
                  (j < length nodes)
                  × ((node_at nodes j).removed ≡ false)
                  × Edge mask j v (node_at nodes j).edges a)
                place (from.inside, from.live, edge)
        ]
