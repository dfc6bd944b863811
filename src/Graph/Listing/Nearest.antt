-- ===== src/Graph/Listing/Nearest.antt =====
-- The edge that graphFindClosestEdge of code/gsc_graph.cpp finds is the closest.
use mathlib.Core.List.{Memᴰ}
use mathlib.Core.List.Memᴰ
use zk_libcod.Prelude.{
  ℕ, suc, ◌+◌, ◌<◌, ◌≡◌, ◌⊎◌, inl, inr, refl, sym, subst, true, List, [], ◌∷◌, none, some, arith,
  length, Bool-cases, ap, ◌==◌, ==_iff,
}
use zk_libcod.Float.{FloatOps, FloatLaws, IsNum, fle_of_not_fle}
use zk_libcod.Script.{Vec3}
use zk_libcod.Graph.{GraphNode, GraphEdge, node_at}
use zk_libcod.Graph.Listing.{
  BestEdge, is_no_nearer, edge_distance_sq, consider_edge, consider_edges, consider_nodes,
  closest_edge,
}

module _ {F : Type 0} ⦃fl : FloatOps F⦄ (laws : FloatLaws fl) (origin : Vec3 F)
    (nodes : List (GraphNode F)) where
  open fl use {fle}

  abbrev pub distance : ℕ → GraphEdge F → F
  distance i e = edge_distance_sq origin nodes i e

  -- Among the edges that satisfy `S`, at the index of their source, the best is one and none is closer; or there is none.
  abbrev pub IsNearest : (ℕ → GraphEdge F → Type 0) → BestEdge F → Type 0
  IsNearest S none = (i : ℕ) (e : GraphEdge F) → ¬ S i e
  IsNearest S (some b) =
      ((e : GraphEdge F) × S b.0 e × (e.to ≡ b.1) × (b.2 ≡ distance b.0 e))
      × ((i : ℕ) (e : GraphEdge F) → S i e → fle b.2 (distance i e) ≡ true)

  abbrev pub AllNum : (ℕ → GraphEdge F → Type 0) → Type 0
  AllNum S = (i : ℕ) (e : GraphEdge F) → S i e → IsNum fl (distance i e)

  IsNearest-same :
      (S T : ℕ → GraphEdge F → Type 0)
      → ((i : ℕ) (e : GraphEdge F) → S i e → T i e)
      → ((i : ℕ) (e : GraphEdge F) → T i e → S i e)
      → (best : BestEdge F) → IsNearest S best
      → IsNearest T best
  IsNearest-same S T to from none h = λ i e t. h i e (from i e t)
  IsNearest-same S T to from (some b) ((e, s, leads, at), least) =
      ((e, to b.0 e s, leads, at), λ i e' t. least i e' (from i e' t))

  -- One edge more.
  abbrev With : (ℕ → GraphEdge F → Type 0) → ℕ → GraphEdge F → ℕ → GraphEdge F → Type 0
  With S i e j e' = S j e' ⊎ (j ≡ i) × (e' ≡ e)

  consider_edge-IsNearest :
      (S : ℕ → GraphEdge F → Type 0) (i : ℕ) (e : GraphEdge F) (best : BestEdge F)
      → AllNum (With S i e)
      → IsNearest S best
      → IsNearest (With S i e) (consider_edge origin nodes i e best)
  unfolding consider_edge
  consider_edge-IsNearest S i e none nums h = (
    (e, inr (refl, refl), refl, refl),
    λ j e' s. elim s [
      | inl old ↦ absurd (h j e' old)
      | inr (there, same) ↦ rw (there, same) (nums i e (inr (refl, refl)))
    ],
  )
  consider_edge-IsNearest S i e (some b) nums ((e0, s0, leads, at), least) =
      elim (Bool-cases (is_no_nearer (distance i e) (some b))) [
        | inl far ↦ rw far (
          (e0, inl s0, leads, at),
          λ j e' s. elim s [ inl old ↦ least j e' old | inr (there, same) ↦ rw (there, same) far ],
        )
        | inr near ↦
            let old : IsNum fl b.2 = rw at (nums b.0 e0 (inl s0)) in
            let here = nums i e (inr (refl, refl)) in
            let closer = fle_of_not_fle laws b.2 (distance i e) old here near in
            rw near (
              (e, inr (refl, refl), refl, refl),
              λ j e' s. elim s [
                | inl before ↦ laws.fle_trans _ _ _ closer (least j e' before)
                | inr (there, same) ↦ rw (there, same) here
              ],
            )
      ]

  abbrev WithAll : (ℕ → GraphEdge F → Type 0) → ℕ → List (GraphEdge F) → ℕ → GraphEdge F → Type 0
  WithAll S i es j e = S j e ⊎ (j ≡ i) × Memᴰ e es

  consider_edges-IsNearest :
      (S : ℕ → GraphEdge F → Type 0) (i : ℕ) (es : List (GraphEdge F)) (best : BestEdge F)
      → AllNum (WithAll S i es)
      → IsNearest S best
      → IsNearest (WithAll S i es) (consider_edges origin nodes i es best)
  unfolding consider_edges
  consider_edges-IsNearest S i [] best nums h =
      IsNearest-same S (WithAll S i []) (λ j e s. inl s)
        (λ j e s. elim s [ inl old ↦ old | inr (there, m) ↦ absurd (Memᴰ.not-nil m) ]) best h
  consider_edges-IsNearest S i (e ∷ es) best nums h =
      let into : (j : ℕ) (e' : GraphEdge F)
          → WithAll (With S i e) i es j e'
          → WithAll S i (e ∷ es) j e' =
        λ j e' s. elim s [
          | inl (inl old) ↦ inl old
          | inl (inr (there, same)) ↦ inr (there, Memᴰ.head same)
          | inr (there, m) ↦ inr (there, Memᴰ.tail m)
        ] in
      IsNearest-same (WithAll (With S i e) i es) (WithAll S i (e ∷ es)) into
        (λ j e' s. elim s [
          | inl old ↦ inl (inl old)
          | inr (there, m) ↦ elim (Memᴰ.cases_cons m) [
            | inl same ↦ inl (inr (there, same))
            | inr later ↦ inr (there, later)
          ]
        ])
        (consider_edges origin nodes i es (consider_edge origin nodes i e best))
        (consider_edges-IsNearest (With S i e) i es (consider_edge origin nodes i e best)
          (λ j e' s. nums j e' (into j e' s))
          (consider_edge-IsNearest S i e best (λ j e' s. nums j e' (into j e' (inl s))) h))

  -- The edges of the nodes before `end`.
  abbrev pub Before : ℕ → ℕ → GraphEdge F → Type 0
  Before end i e = (i < end) × Memᴰ e (node_at nodes i).edges

  consider_nodes-IsNearest :
      (i : ℕ) (ns : List (GraphNode F)) (best : BestEdge F)
      → ((k : ℕ) → k < length ns → node_at nodes (i + k) ≡ node_at ns k)
      → i + length ns ≡ length nodes
      → AllNum (Before (length nodes))
      → IsNearest (Before i) best
      → IsNearest (Before (length nodes)) (consider_nodes origin nodes i ns best)
  unfolding consider_nodes
  consider_nodes-IsNearest i [] best same size nums h =
      let end : i ≡ length nodes = omega arith in subst (λ k. IsNearest (Before k) best) end h
  consider_nodes-IsNearest i (n ∷ ns) best same size nums h =
      let front : i + 0 ≡ i = omega arith in
      let here : node_at nodes i ≡ n =
        subst (λ k. node_at nodes k ≡ n) front (same 0 (omega arith)) in
      let into : (j : ℕ) (e : GraphEdge F) → WithAll (Before i) i n.edges j e → Before (suc i) j e =
        λ j e s. elim s [
          | inl (inside, m) ↦ (omega arith, m)
          | inr (there, m) ↦ (
            omega arith,
            subst (λ k. Memᴰ e (node_at nodes k).edges) (sym there)
                (subst (λ (x : GraphNode F). Memᴰ e x.edges) (sym here) m),
          )
        ] in
      consider_nodes-IsNearest (suc i) ns _
        (λ k lt.
          let place : i + suc k ≡ suc i + k = omega arith in
          subst (λ j. node_at nodes j ≡ node_at ns k) place (same (suc k) (omega arith)))
        (omega arith) nums
        (IsNearest-same (WithAll (Before i) i n.edges) (Before (suc i)) into
          (λ j e (inside, m). elim (Bool-cases (j == i)) [
            | inl there ↦
                let at = (==_iff j i).0 there in
                inr (
                  at,
                  subst (λ (x : GraphNode F). Memᴰ e x.edges) here
                      (subst (λ k. Memᴰ e (node_at nodes k).edges) at m),
                )
            | inr away ↦ inl (ground arith, m)
          ])
          (consider_edges origin nodes i n.edges best)
          (consider_edges-IsNearest (Before i) i n.edges best
            (λ j e s. let (inside, m) = into j e s in nums j e (omega (arith, inside), m)) h))

  -- Under the laws of floats, where every distance is a number, the ends that are found are those of a stored edge and
  -- no stored edge is closer; if none is found, no edge is stored.
  pub closest_edge-IsNearest :
      AllNum (Before (length nodes)) → IsNearest (Before (length nodes)) (closest_edge origin nodes)
  closest_edge-IsNearest nums =
      consider_nodes-IsNearest 0 nodes none (λ k h. ap (node_at nodes) (omega arith)) (omega arith)
        nums (λ i e s. omega (arith, s.0))
