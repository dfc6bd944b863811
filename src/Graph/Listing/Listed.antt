-- ===== src/Graph/Listing/Listed.antt =====
-- What graphGetAllNodes and graphGetAllEdges of code/gsc_graph.cpp list.
use mathlib.Core.List.{Memᴰ}
use mathlib.Core.List.Memᴰ
use zk_libcod.Prelude.{
  ℕ, zero, suc, ◌+◌, ◌<◌, ◌≡◌, ◌↔◌, inl, inr, refl, sym, true, false, List, [], ◌∷◌, Option, none,
  some, ◌⊎◌, arith, length, Bool-cases, subst,
}
use zk_libcod.Float.{FloatOps}
use zk_libcod.Script.{Vec3, Value}
use zk_libcod.Graph.{Graphs, GraphNode, node_at}
use zk_libcod.Graph.Closest.{distance_squared}
use zk_libcod.Graph.Reply.{ends, after_or_return, after_return_if, settle-Keeps}
use zk_libcod.Graph.Listing.{
  is_listed, count_listed, listed_ids, gsc_graph_get_all_nodes, gsc_graph_get_all_edges,
  gsc_graph_find_closest_edge,
}

module _ {F : Type 0} ⦃fl : FloatOps F⦄ where
  -- Whether a place passes the radius around an origin, where there is one; a negative radius means none.
  abbrev pub IsNear : Option (Vec3 F) → F → Vec3 F → Type 0
  IsNear none max_dist_sq there = Unit
  IsNear (some origin) max_dist_sq there =
      (fl.fle fl.fzero max_dist_sq ≡ false)
      ⊎ (fl.flt max_dist_sq (distance_squared there origin) ≡ false)

  is_listed_iff :
      (origin : Option (Vec3 F)) (max_dist_sq : F) (n : GraphNode F)
      → (is_listed origin max_dist_sq n ≡ true)
        ↔ ((n.removed ≡ false) × IsNear origin max_dist_sq n.origin)
  unfolding is_listed
  is_listed_iff none max_dist_sq n = elim (Bool-cases n.removed) [
    | inl gone ↦ rw gone ((λ e. cc), λ h. cc)
    | inr there ↦ rw there ((λ e. (refl, tt)), λ h. refl)
  ]
  is_listed_iff (some o) max_dist_sq n = (λ e. ground arith, λ h. ground arith)

  module _ (origin : Option (Vec3 F)) (max_dist_sq : F) where
    -- The first loop counts what the second pushes.
    pub count_listed-length :
        (i : ℕ) (ns : List (GraphNode F))
        → count_listed origin max_dist_sq ns ≡ length (listed_ids origin max_dist_sq i ns)
    unfolding count_listed listed_ids
    count_listed-length i [] = refl
    count_listed-length i (n ∷ ns) = elim (Bool-cases (is_listed origin max_dist_sq n)) [
      | inl hit ↦ rw hit (omega (arith, count_listed-length (suc i) ns))
      | inr miss ↦ rw miss (omega (arith, count_listed-length (suc i) ns))
    ]

    listed_later :
        (i v : ℕ) (ns : List (GraphNode F))
        → Memᴰ v (listed_ids origin max_dist_sq i ns)
        → (k : ℕ) × (v ≡ i + k)
          × (k < length ns)
          × (is_listed origin max_dist_sq (node_at ns k) ≡ true)
    unfolding listed_ids
    listed_later i v [] m = absurd (Memᴰ.not-nil m)
    listed_later i v (n ∷ ns) m = elim (Bool-cases (is_listed origin max_dist_sq n)) [
      | inr miss ↦
          let (k, place, inside, listed) = listed_later (suc i) v ns (rw miss at m) in
          (suc k, omega (arith, place), omega (arith, inside), listed)
      | inl hit ↦ elim (Memᴰ.cases_cons (rw hit at m)) [
        | inl here ↦ (0, omega (arith, here), omega arith, hit)
        | inr later ↦
            let (k, place, inside, listed) = listed_later (suc i) v ns later in
            (suc k, omega (arith, place), omega (arith, inside), listed)
      ]
    ]

    listed_there :
        (i k : ℕ) (ns : List (GraphNode F))
        → k < length ns
        → is_listed origin max_dist_sq (node_at ns k) ≡ true
        → Memᴰ (i + k) (listed_ids origin max_dist_sq i ns)
    unfolding listed_ids
    listed_there i k [] h listed = elim h [ ]
    listed_there i zero (n ∷ ns) h listed = rw listed (Memᴰ.head (omega arith))
    listed_there i (suc k) (n ∷ ns) h listed =
        let place : suc i + k ≡ i + suc k = omega arith in
        let later = listed_there (suc i) k ns (omega arith) listed in
        elim (Bool-cases (is_listed origin max_dist_sq n)) [
          | inl hit ↦ rw (hit, sym place) (Memᴰ.tail later)
          | inr miss ↦ rw (miss, sym place) later
        ]

    -- The ids that graphGetAllNodes pushes are exactly those of the nodes in range that are not removed and, where an
    -- origin was given and the square of the radius is at least zero, whose squared distance to the origin does not
    -- compare as above that square.
    pub listed_ids_iff :
        (ns : List (GraphNode F)) (v : ℕ)
        → Memᴰ v (listed_ids origin max_dist_sq 0 ns) ↔ (
            (v < length ns)
            × ((node_at ns v).removed ≡ false)
            × IsNear origin max_dist_sq (node_at ns v).origin)
    listed_ids_iff ns v = (
      λ m.
          let (k, place, inside, listed) = listed_later 0 v ns m in
          let same : k ≡ v = omega (arith, place) in
          subst
            (λ u.
              (u < length ns)
              × ((node_at ns u).removed ≡ false)
              × IsNear origin max_dist_sq (node_at ns u).origin)
            same
            (let (there, near) = (is_listed_iff origin max_dist_sq (node_at ns k)).0 listed in
              (inside, there, near)),
      λ h.
          let same : 0 + v ≡ v = omega arith in
          subst (λ u. Memᴰ u (listed_ids origin max_dist_sq 0 ns)) same
            (listed_there 0 v ns h.0
              ((is_listed_iff origin max_dist_sq (node_at ns v)).1 (h.1, h.2))),
    )

module _ {F : Type 0} ⦃fl : FloatOps F⦄ (gs : Graphs F) (args : List (Value F)) where
  pub get_all_nodes-same : (gsc_graph_get_all_nodes gs args).0 ≡ gs
  unfolding gsc_graph_get_all_nodes
  get_all_nodes-same =
      settle-Keeps (λ after. after ≡ gs) gs _ refl
        (after_or_return _ _ _ _ λ a0 _. after_or_return _ _ _ _ λ a1 _.
          after_or_return _ _ _ _ λ a2 _.
            after_return_if _ _ _ _
              λ _. after_or_return _ _ _ _ λ a3 _. after_return_if _ _ _ _ λ _. ends _ _ refl)

  pub get_all_edges-same : (gsc_graph_get_all_edges gs args).0 ≡ gs
  unfolding gsc_graph_get_all_edges
  get_all_edges-same =
      settle-Keeps (λ after. after ≡ gs) gs _ refl
        (after_or_return _ _ _ _
          λ a0 _. after_or_return _ _ _ _ λ a1 _. after_return_if _ _ _ _ λ _. ends _ _ refl)

  pub find_closest_edge-same : (gsc_graph_find_closest_edge gs args).0 ≡ gs
  unfolding gsc_graph_find_closest_edge
  find_closest_edge-same =
      settle-Keeps (λ after. after ≡ gs) gs _ refl
        (after_or_return _ _ _ _
          λ a0 _. after_or_return _ _ _ _ λ a1 _. after_or_return _ _ _ _ λ a2 _. ends _ _ refl)
