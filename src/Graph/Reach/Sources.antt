-- ===== src/Graph/Reach/Sources.antt =====
-- The lists of sources that graphGetNodeIdsAccessibleTo builds, and the walk against the edges.
use mathlib.Core.List.{Memᴰ}
use mathlib.Core.List.Memᴰ
use zk_libcod.Prelude.Members.{memᴰ_snoc, snoc_last, snoc_old}
use zk_libcod.Prelude.{
  ℕ, zero, suc, ◌+◌, ◌<◌, ◌≡◌, ◌⊎◌, ◌↔◌, inl, inr, refl, sym, subst, ◌∙◌, List, [], ◌∷◌, ◌++◌,
  arith, length, get_or, set, replicate, length-set, length-replicate, get_or-set, get_or-replicate,
  ◌==◌, ==_iff, Bool-cases, if◌then◌else◌, All, All-map,
}
use zk_libcod.Float.{FloatOps}
use zk_libcod.Graph.{AStarGraph, GraphNode, GraphEdge, node_at}
use zk_libcod.Graph.Wellformed.{IsValid}
use zk_libcod.Graph.Precompute.Arcs.{Inside}
use zk_libcod.Graph.Reach.{note_sources, note_all_sources, accessible_to}
use zk_libcod.Graph.Reach.Rounds.{Reached, origin, onward, walk_from_iff}
use zk_libcod.Graph.Reach.Accessible.{Trail, stay, hop, Trail-cons, edge_inside}

abbrev at : List (List ℕ) → ℕ → List ℕ
at inc v = get_or inc v []

-- `incoming[to].push_back(i)`
abbrev push_source : List (List ℕ) → ℕ → ℕ → List (List ℕ)
push_source inc to i = set inc to (at inc to ++ i ∷ [])

module _ (inc : List (List ℕ)) (to i : ℕ) (inside : to < length inc) (v u : ℕ) where
  at-push_source : at (push_source inc to i) v ≡ (if to == v then at inc to ++ i ∷ [] else at inc v)
  at-push_source = get_or-set inc to v (at inc to ++ i ∷ []) [] inside

  push_source_only : Memᴰ u (at (push_source inc to i) v) → Memᴰ u (at inc v) ⊎ ((u ≡ i) × (to ≡ v))
  push_source_only m = elim (Bool-cases (to == v)) [
    | inl here ↦
        let same = (==_iff to v).0 here in
        let there : at (push_source inc to i) v ≡ at inc to ++ i ∷ [] =
          at-push_source ∙ rw here refl in
        elim (memᴰ_snoc u i (at inc to) (subst (Memᴰ u) there m)) [
          | inl old ↦ inl (subst (λ x. Memᴰ u (at inc x)) same old)
          | inr new ↦ inr (new, same)
        ]
    | inr away ↦
        let there : at (push_source inc to i) v ≡ at inc v = at-push_source ∙ rw away refl in
        inl (subst (Memᴰ u) there m)
  ]

  push_source_keeps : Memᴰ u (at inc v) → Memᴰ u (at (push_source inc to i) v)
  push_source_keeps m = elim (Bool-cases (to == v)) [
    | inl here ↦
        let same = (==_iff to v).0 here in
        rw (at-push_source, here) (snoc_old u i (subst (λ x. Memᴰ u (at inc x)) (sym same) m))
    | inr away ↦ rw (at-push_source, away) m
  ]

push_source_new :
    (inc : List (List ℕ)) (to i : ℕ) → to < length inc → Memᴰ i (at (push_source inc to i) to)
push_source_new inc to i inside =
    rw (at-push_source inc to i inside to i, (==_iff to to).1 refl) (snoc_last i (at inc to))

module _ {F : Type 0} (i : ℕ) where
  abbrev one : GraphEdge F → List (List ℕ) → List (List ℕ)
  one e inc = push_source inc e.to i

  length-note_sources :
      (es : List (GraphEdge F)) (inc : List (List ℕ)) → length (note_sources i es inc) ≡ length inc
  unfolding note_sources
  length-note_sources [] inc = refl
  length-note_sources (e ∷ es) inc =
      length-note_sources es (one e inc) ∙ length-set inc e.to (at inc e.to ++ i ∷ [])

  note_sources_keeps :
      (es : List (GraphEdge F)) (inc : List (List ℕ))
      → Inside (length inc) es
      → (v u : ℕ) → Memᴰ u (at inc v)
      → Memᴰ u (at (note_sources i es inc) v)
  unfolding note_sources
  note_sources_keeps [] inc inside v u m = m
  note_sources_keeps (e ∷ es) inc inside v u m =
      note_sources_keeps es (one e inc) (rw length-set inside.1) v u
        (push_source_keeps inc e.to i inside.0 v u m)

  note_sources_complete :
      (es : List (GraphEdge F)) (inc : List (List ℕ))
      → Inside (length inc) es
      → (e : GraphEdge F) → Memᴰ e es
      → Memᴰ i (at (note_sources i es inc) e.to)
  unfolding note_sources
  note_sources_complete [] inc inside e m = absurd (Memᴰ.not-nil m)
  note_sources_complete (x ∷ es) inc inside e (Memᴰ.head same) =
      note_sources_keeps es (one x inc) (rw length-set inside.1) e.to i
        (rw same (push_source_new inc x.to i inside.0))
  note_sources_complete (x ∷ es) inc inside e (Memᴰ.tail m) =
      note_sources_complete es (one x inc) (rw length-set inside.1) e m

  -- Node `i` is noted where it has an edge to `v`.
  Noted : ℕ → ℕ → List (GraphEdge F) → Type 0
  Noted v u es = (u ≡ i) × ((e : GraphEdge F) × Memᴰ e es × (e.to ≡ v))

  note_sources_sound :
      (es : List (GraphEdge F)) (inc : List (List ℕ))
      → Inside (length inc) es
      → (v u : ℕ) → Memᴰ u (at (note_sources i es inc) v)
      → Memᴰ u (at inc v) ⊎ Noted v u es
  unfolding note_sources Noted
  note_sources_sound [] inc inside v u m = inl m
  note_sources_sound (e ∷ es) inc inside v u m =
      elim (note_sources_sound es (one e inc) (rw length-set inside.1) v u m) [
        | inr (same, (e', m', leads)) ↦ inr (same, (e', Memᴰ.tail m', leads))
        | inl sooner ↦ elim (push_source_only inc e.to i inside.0 v u sooner) [
          | inl old ↦ inl old
          | inr (same, leads) ↦ inr (same, (e, Memᴰ.head refl, leads))
        ]
      ]

module _ {F : Type 0} ⦃fl : FloatOps F⦄ where
  abbrev AllInside : ℕ → List (GraphNode F) → Type 0
  AllInside size ns = All (λ n. Inside size n.edges) ns

  note_all_sources_keeps :
      (i : ℕ) (ns : List (GraphNode F)) (inc : List (List ℕ))
      → AllInside (length inc) ns
      → (v u : ℕ) → Memᴰ u (at inc v)
      → Memᴰ u (at (note_all_sources i ns inc) v)
  unfolding note_all_sources
  note_all_sources_keeps i [] inc inside v u m = m
  note_all_sources_keeps i (n ∷ ns) inc inside v u m =
      note_all_sources_keeps (suc i) ns (note_sources i n.edges inc)
        (rw (length-note_sources i n.edges inc) inside.1) v u
        (note_sources_keeps i n.edges inc inside.0 v u m)

  note_all_sources_complete :
      (i : ℕ) (ns : List (GraphNode F)) (inc : List (List ℕ))
      → AllInside (length inc) ns
      → (k u : ℕ) → u ≡ i + k
      → k < length ns
      → (e : GraphEdge F) → Memᴰ e (node_at ns k).edges
      → Memᴰ u (at (note_all_sources i ns inc) e.to)
  unfolding note_all_sources
  note_all_sources_complete i [] inc inside k u place lt e m = elim lt [ ]
  note_all_sources_complete i (n ∷ ns) inc inside zero u place lt e m =
      let first : u ≡ i = omega arith in
      note_all_sources_keeps (suc i) ns (note_sources i n.edges inc)
        (rw (length-note_sources i n.edges inc) inside.1) e.to u
        (rw first (note_sources_complete i n.edges inc inside.0 e m))
  note_all_sources_complete i (n ∷ ns) inc inside (suc k) u place lt e m =
      note_all_sources_complete (suc i) ns (note_sources i n.edges inc)
        (rw (length-note_sources i n.edges inc) inside.1) k u (omega arith) (omega arith) e m

  -- Where a source comes from: the node at index `k` of the list.
  AllNoted : ℕ → List (GraphNode F) → ℕ → ℕ → Type 0
  AllNoted i ns v u =
      (k : ℕ) × (u ≡ i + k) × ((e : GraphEdge F) × Memᴰ e (node_at ns k).edges × (e.to ≡ v))

  note_all_sources_sound :
      (i : ℕ) (ns : List (GraphNode F)) (inc : List (List ℕ))
      → AllInside (length inc) ns
      → (v u : ℕ) → Memᴰ u (at (note_all_sources i ns inc) v)
      → Memᴰ u (at inc v) ⊎ AllNoted i ns v u
  unfolding note_all_sources AllNoted Noted
  note_all_sources_sound i [] inc inside v u m = inl m
  note_all_sources_sound i (n ∷ ns) inc inside v u m =
      elim (note_all_sources_sound (suc i) ns (note_sources i n.edges inc)
        (rw (length-note_sources i n.edges inc) inside.1) v u m) [
          | inr (k, place, found) ↦ inr (suc k, omega arith, found)
          | inl sooner ↦ elim (note_sources_sound i n.edges inc inside.0 v u sooner) [
            | inl old ↦ inl old
            | inr (same, found) ↦ inr (0, omega arith, found)
          ]
        ]

  module _ (graph : AStarGraph F) (valid : IsValid graph) where
    abbrev sources : List (List ℕ)
    sources = note_all_sources 0 graph.nodes (replicate (length graph.nodes) [])

    abbrev blank : List (List ℕ)
    blank = replicate (length graph.nodes) []

    inside : AllInside (length blank) graph.nodes
    inside = rw length-replicate (
        All-map _ _ (λ n s. All-map _ _ (λ e live. live.0) n.edges s.targets) graph.nodes
          valid.sound)

    source_edge :
        (v u : ℕ)
        → Memᴰ u (at sources v)
        → (e : GraphEdge F) × Memᴰ e (node_at graph.nodes u).edges × (e.to ≡ v)
    unfolding AllNoted
    source_edge v u m = elim (note_all_sources_sound 0 graph.nodes blank inside v u m) [
      | inl old ↦
          absurd (Memᴰ.not-nil (subst (Memᴰ u) (get_or-replicate (length graph.nodes) v []) old))
      | inr (k, place, found) ↦
          let same : k ≡ u = omega arith in
          subst (λ j. (e : GraphEdge F) × Memᴰ e (node_at graph.nodes j).edges × (e.to ≡ v)) same
            found
    ]

    edge_source :
        (u : ℕ) (e : GraphEdge F) → Memᴰ e (node_at graph.nodes u).edges → Memᴰ u (at sources e.to)
    edge_source u e m =
        note_all_sources_complete 0 graph.nodes blank inside u u (omega arith)
          (edge_inside graph valid u e m).0 e m

    Trail-of_Sources : (goal v : ℕ) → Reached (at sources) goal v → Trail graph.nodes v goal
    Trail-of_Sources goal v origin = stay
    Trail-of_Sources goal v (onward {u = u} v' way m) =
        let (e, stored, same) = source_edge u v' m in
        Trail-cons graph.nodes v' e stored goal (rw same (Trail-of_Sources goal u way))

    -- Whoever reaches the goal from `v` reaches it from a source of `v`.
    Reached-before :
        (goal u v : ℕ)
        → Trail graph.nodes u v
        → Reached (at sources) goal v
        → Reached (at sources) goal u
    Reached-before goal u v stay way = way
    Reached-before goal u v (hop {v = w} e rest m) way =
        Reached-before goal u w rest (onward w way (edge_source w e m))

    -- In a well-formed graph, the walk of graphGetNodeIdsAccessibleTo from a node in range gives the nodes from which a
    -- trail of edges leads to it, and no others.
    pub accessible_to_iff :
        (goal : ℕ)
        → goal < length graph.nodes
        → (v : ℕ) → Memᴰ v (accessible_to graph goal) ↔ Trail graph.nodes v goal
    unfolding accessible_to
    accessible_to_iff goal lt v =
        let walk =
          walk_from_iff (at sources) goal (length graph.nodes)
            (λ u w m.
              let (e, stored, same) = source_edge u w m in (edge_inside graph valid w e stored).0)
            lt v in
        (λ m. Trail-of_Sources goal v (walk.0 m), λ t. walk.1 (Reached-before goal v goal t origin))
