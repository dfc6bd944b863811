-- ===== src/Graph/Nodes/Keeps.antt =====
-- Adding, replacing and moving a node keep a graph well formed.
use zk_libcod.Prelude.{
  ℕ, zero, suc, ◌<◌, ◌≡◌, refl, ap, List, [], ◌∷◌, ◌++◌, arith, length, set, length-set, get_or-set,
  ◌∙◌, length-append, get_or-append, All-append, All-map, Bool-cases, inl, inr, ◌==◌,
}
use zk_libcod.Float.{FloatOps}
use zk_libcod.Script.{Vec3}
use zk_libcod.Graph.{AStarGraph, GraphNode, GraphEdge, node_at, no_node, invalidate_precompute}
use zk_libcod.Graph.Wellformed.{IsScratch-more, IsLive, IsValid, IsSound-mono, total, total-append}
use zk_libcod.Graph.Shape.{targets, IsAlike, AllAlike, AllAlike-IsValid}
use zk_libcod.Graph.Nodes.{
  append_node, replace_node, recost_outgoing, recost_incoming, recost_others, move_node,
}

module _ {F : Type 0} ⦃fl : FloatOps F⦄ where
  IsLive-append :
      (nodes : List (GraphNode F)) (n : GraphNode F) (v : ℕ)
      → IsLive nodes v
      → IsLive (nodes ++ n ∷ []) v
  IsLive-append nodes n v live = (
    omega (arith, live.0, length-append nodes (n ∷ [])),
    ground (arith, get_or-append nodes (n ∷ []) v no_node live.0),
  )

  pub append_node-IsValid :
      (g : AStarGraph F) (n : GraphNode F) → IsValid g → n.edges ≡ [] → IsValid (append_node g n)
  unfolding append_node invalidate_precompute total
  append_node-IsValid g n v bare =
      let none_out : length n.edges ≡ 0 = ap length bare in
      record {
        sound =
            All-append _ g.nodes (n ∷ [])
              (All-map _ _ (IsSound-mono g.nodes _ (IsLive-append g.nodes n)) g.nodes v.sound)
              (record { targets = rw bare tt; buried = λ _. bare }, tt);
        counted = omega (arith, v.counted, total-append g.nodes (n ∷ []));
        scratch_ok =
            IsScratch-more _ _ _ (omega (arith, length-append g.nodes (n ∷ []))) v.scratch_ok;
        cache_size = omega arith;
        fresh = tt;
      }

  AllAlike-refl : (ns : List (GraphNode F)) → AllAlike ns ns
  AllAlike-refl [] = tt
  AllAlike-refl (n ∷ ns) = ((refl, refl), AllAlike-refl ns)

  AllAlike-trans :
      (ns ms ks : List (GraphNode F)) → AllAlike ns ms → AllAlike ms ks → AllAlike ns ks
  AllAlike-trans [] [] [] a b = tt
  AllAlike-trans [] (_ ∷ _) ks a b = absurd a
  AllAlike-trans (_ ∷ _) [] ks a b = absurd a
  AllAlike-trans [] [] (_ ∷ _) a b = absurd b
  AllAlike-trans (_ ∷ _) (_ ∷ _) [] a b = absurd b
  AllAlike-trans (n ∷ ns) (m ∷ ms) (k ∷ ks) a b =
      ((b.0.0 ∙ a.0.0, b.0.1 ∙ a.0.1), AllAlike-trans ns ms ks a.1 b.1)

  AllAlike-set :
      (ns : List (GraphNode F)) (i : ℕ) (n : GraphNode F)
      → i < length ns
      → IsAlike (node_at ns i) n
      → AllAlike ns (set ns i n)
  AllAlike-set [] i n h a = tt
  AllAlike-set (x ∷ xs) zero n h a = (a, AllAlike-refl xs)
  AllAlike-set (x ∷ xs) (suc i) n h a = ((refl, refl), AllAlike-set xs i n (omega arith) a)

  pub replace_node-IsValid :
      (g : AStarGraph F) (i : ℕ) (n : GraphNode F)
      → IsValid g
      → i < length g.nodes
      → IsAlike (node_at g.nodes i) n
      → IsValid (replace_node g i n)
  unfolding replace_node invalidate_precompute
  replace_node-IsValid g i n v h a =
      AllAlike-IsValid g _ v (AllAlike-set g.nodes i n h a) refl refl refl

  -- New costs leave the targets of the edges as they are.
  recost_outgoing-targets :
      (nodes : List (GraphNode F)) (origin : Vec3 F) (es : List (GraphEdge F))
      → targets (recost_outgoing nodes origin es) ≡ targets es
  unfolding recost_outgoing
  recost_outgoing-targets nodes origin [] = refl
  recost_outgoing-targets nodes origin (e ∷ es) =
      ap (◌∷◌ e.to) (recost_outgoing-targets nodes origin es)

  recost_incoming-targets :
      (moved : ℕ) (origin target : Vec3 F) (es : List (GraphEdge F))
      → targets (recost_incoming moved origin target es) ≡ targets es
  unfolding recost_incoming
  recost_incoming-targets moved origin target [] = refl
  recost_incoming-targets moved origin target (e ∷ es) =
      ground (arith, recost_incoming-targets moved origin target es)

  recost_others-AllAlike :
      (moved : ℕ) (target : Vec3 F) (i : ℕ) (ns : List (GraphNode F))
      → AllAlike ns (recost_others moved target i ns)
  unfolding recost_others
  recost_others-AllAlike moved target i [] = tt
  recost_others-AllAlike moved target i (n ∷ ns) = (
    elim (Bool-cases (i == moved)) [
      | inl self ↦ rw self (refl, refl)
      | inr other ↦ rw other (refl, recost_incoming-targets moved n.origin target n.edges)
    ],
    recost_others-AllAlike moved target (suc i) ns,
  )

  pub move_node-IsValid :
      (g : AStarGraph F) (i : ℕ) (origin : Vec3 F)
      → IsValid g
      → i < length g.nodes
      → IsValid (move_node g i origin)
  unfolding move_node invalidate_precompute
  move_node-IsValid g i origin v h =
      let node = node_at g.nodes i in
      let n : GraphNode F = record node { origin = origin } in
      let placed = set g.nodes i n in
      let n' : GraphNode F = record node {
        origin = origin;
        edges = recost_outgoing placed origin node.edges;
      } in
      let here : node_at placed i ≡ n = ground (arith, get_or-set g.nodes i i n no_node h) in
      let first : AllAlike g.nodes placed = AllAlike-set g.nodes i n h (refl, refl) in
      let second : AllAlike placed (set placed i n') =
        AllAlike-set placed i n' (rw (length-set g.nodes i n) h)
          (rw here (refl, recost_outgoing-targets placed origin node.edges)) in
      AllAlike-IsValid g _ v
        (AllAlike-trans g.nodes _ _ (AllAlike-trans g.nodes placed _ first second)
          (recost_others-AllAlike i origin 0 (set placed i n')))
        refl refl refl

  pub id-append_node : (g : AStarGraph F) (n : GraphNode F) → (append_node g n).id ≡ g.id
  unfolding append_node invalidate_precompute
  id-append_node g n = refl

  pub id-replace_node :
      (g : AStarGraph F) (i : ℕ) (n : GraphNode F) → (replace_node g i n).id ≡ g.id
  unfolding replace_node invalidate_precompute
  id-replace_node g i n = refl

  pub id-move_node : (g : AStarGraph F) (i : ℕ) (origin : Vec3 F) → (move_node g i origin).id ≡ g.id
  unfolding move_node invalidate_precompute
  id-move_node g i origin = refl
