-- ===== src/Graph/Closest/Nearest.antt =====
-- The node that graphFindClosestNode finds is the closest.
use zk_libcod.Prelude.{
  ℕ, suc, ◌+◌, ◌<◌, ◌≡◌, inl, inr, refl, sym, ap, Bool, true, false, List, [], ◌∷◌, none, some,
  arith, length, Bool-cases, ==_iff, ◌==◌, subst,
}
use zk_libcod.Prelude.Int.{ℤ}
use zk_libcod.Graph.Reply.{ends, after_or_return, settle-Keeps}
use zk_libcod.Float.{FloatOps, FloatLaws, IsNum, fle_of_not_fle}
use zk_libcod.Script.{Vec3, Value}
use zk_libcod.Graph.{Graphs, GraphNode, node_at}
use zk_libcod.Graph.Closest.{
  Best, distance_squared, is_no_closer, consider, consider_all, closest_node,
  gsc_graph_find_closest_node,
}

module _ {F : Type 0} ⦃fl : FloatOps F⦄ (laws : FloatLaws fl) (passes : Vec3 F → Bool)
    (origin : Vec3 F) where
  open fl use {fle}

  abbrev pub distance : GraphNode F → F
  distance n = distance_squared n.origin origin

  -- The nodes that may be found.
  pub record IsCandidate (n : GraphNode F) : Type 0 where
    pub there : n.removed ≡ false
    pub passed : passes n.origin ≡ true

  -- Of the nodes before `end`, the candidate at index `i` is at the distance `d`, and none is closer.
  pub record Least (nodes : List (GraphNode F)) (end i : ℕ) (d : F) : Type 0 where
    pub inside : i < end
    pub candidate : IsCandidate (node_at nodes i)
    pub at_distance : d ≡ distance (node_at nodes i)
    pub least :
        (j : ℕ)
        → j < end
        → IsCandidate (node_at nodes j)
        → fle d (distance (node_at nodes j)) ≡ true

  -- What the best so far says of the nodes before `end`: nothing was found, as there is no candidate, or the closest.
  abbrev pub IsLeast : List (GraphNode F) → ℕ → Best F → Type 0
  IsLeast nodes end none = (j : ℕ) → j < end → ¬ IsCandidate (node_at nodes j)
  IsLeast nodes end (some b) = Least nodes end b.0 b.1

  module _ (nodes : List (GraphNode F)) (i : ℕ) where
    -- A node that is no candidate changes nothing.
    skip :
        (best : Best F)
        → IsLeast nodes i best
        → ¬ IsCandidate (node_at nodes i)
        → IsLeast nodes (suc i) best
    skip none before out = λ j h c. elim (Bool-cases (j == i)) [
      | inl here ↦ out (subst (λ k. IsCandidate (node_at nodes k)) ((==_iff j i).0 here) c)
      | inr away ↦ before j (ground arith) c
    ]
    skip (some b) before out = record {
      inside = omega (arith, before.inside);
      candidate = before.candidate;
      at_distance = before.at_distance;
      least = λ j h c. elim (Bool-cases (j == i)) [
        | inl here ↦
            absurd (out (subst (λ k. IsCandidate (node_at nodes k)) ((==_iff j i).0 here) c))
        | inr away ↦ before.least j (ground arith) c
      ];
    }

    -- Nor does one that is as far.
    keep :
        (best : Best F)
        → IsLeast nodes i best
        → is_no_closer (distance (node_at nodes i)) best ≡ true
        → IsLeast nodes (suc i) best
    keep none before far = absurd (cc (far))
    keep (some b) before far = record {
      inside = omega (arith, before.inside);
      candidate = before.candidate;
      at_distance = before.at_distance;
      least = λ j h c. elim (Bool-cases (j == i)) [
        | inl here ↦
            subst (λ k. fle b.1 (distance (node_at nodes k)) ≡ true) (sym ((==_iff j i).0 here)) far
        | inr away ↦ before.least j (ground arith) c
      ];
    }

    abbrev AllNum : Type 0
    AllNum = (j : ℕ) → j < length nodes → IsNum fl (distance (node_at nodes j))

    -- A closer candidate takes the place.
    take_place :
        (best : Best F)
        → IsLeast nodes i best
        → AllNum
        → i < length nodes
        → is_no_closer (distance (node_at nodes i)) best ≡ false
        → IsCandidate (node_at nodes i)
        → Least nodes (suc i) i (distance (node_at nodes i))
    take_place none before nums inside near c = record {
      inside = omega arith;
      candidate = c;
      at_distance = refl;
      least = λ j h c'. elim (Bool-cases (j == i)) [
        | inl here ↦
            subst (λ k. fle (distance (node_at nodes i)) (distance (node_at nodes k)) ≡ true)
              (sym ((==_iff j i).0 here)) (nums i inside)
        | inr away ↦ absurd (before j (ground arith) c')
      ];
    }
    take_place (some b) before nums inside near c =
        let old : IsNum fl b.1 = rw before.at_distance (nums b.0 (omega (arith, before.inside))) in
        let closer =
          fle_of_not_fle laws b.1 (distance (node_at nodes i)) old (nums i inside) near in
        record {
          inside = omega arith;
          candidate = c;
          at_distance = refl;
          least = λ j h c'. elim (Bool-cases (j == i)) [
            | inl here ↦
                subst (λ k. fle (distance (node_at nodes i)) (distance (node_at nodes k)) ≡ true)
                  (sym ((==_iff j i).0 here)) (nums i inside)
            | inr away ↦ laws.fle_trans _ _ _ closer (before.least j (ground arith) c')
          ];
        }

    consider-IsLeast :
        (best : Best F)
        → IsLeast nodes i best
        → AllNum
        → i < length nodes
        → IsLeast nodes (suc i) (consider passes origin i (node_at nodes i) best)
    unfolding consider
    consider-IsLeast best before nums inside =
        let n = node_at nodes i in
        elim (Bool-cases n.removed) [
          | inl gone ↦ rw gone (skip best before (λ c. cc (gone, c.there)))
          | inr there ↦ elim (Bool-cases (is_no_closer (distance n) best)) [
            | inl far ↦ rw (there, far) (keep best before far)
            | inr near ↦ elim (Bool-cases (passes n.origin)) [
              | inr blocked ↦
                  rw (there, near, blocked) (skip best before (λ c. cc (blocked, c.passed)))
              | inl clear ↦
                  rw (there, near, clear)
                    (take_place best before nums inside near
                      (record { there = there; passed = clear }))
            ]
          ]
        ]

  consider_all-IsLeast :
      (nodes : List (GraphNode F)) (i : ℕ) (ns : List (GraphNode F)) (best : Best F)
      → ((k : ℕ) → k < length ns → node_at nodes (i + k) ≡ node_at ns k)
      → i + length ns ≡ length nodes
      → IsLeast nodes i best
      → ((j : ℕ) → j < length nodes → IsNum fl (distance (node_at nodes j)))
      → IsLeast nodes (length nodes) (consider_all passes origin i ns best)
  unfolding consider_all
  consider_all-IsLeast nodes i [] best same size before nums =
      let end : i ≡ length nodes = omega arith in subst (λ k. IsLeast nodes k best) end before
  consider_all-IsLeast nodes i (n ∷ ns) best same size before nums =
      let front : i + 0 ≡ i = omega arith in
      let here : node_at nodes i ≡ n =
        subst (λ k. node_at nodes k ≡ n) front (same 0 (omega arith)) in
      consider_all-IsLeast nodes (suc i) ns _
        (λ k h.
          let place : i + suc k ≡ suc i + k = omega arith in
          subst (λ j. node_at nodes j ≡ node_at ns k) place (same (suc k) (omega arith)))
        (omega arith)
        (subst (λ m. IsLeast nodes (suc i) (consider passes origin i m best)) here
          (consider-IsLeast nodes i best before nums (omega arith)))
        nums

  -- Under the laws of floats, where every distance is a number, the node that is found is there
  -- and passes the test of the content mask, and no such node is closer; if none is found, there
  -- is none.
  pub closest_node-IsLeast :
      (nodes : List (GraphNode F))
      → ((j : ℕ) → j < length nodes → IsNum fl (distance (node_at nodes j)))
      → IsLeast nodes (length nodes) (closest_node passes origin nodes)
  closest_node-IsLeast nodes nums =
      consider_all-IsLeast nodes 0 nodes none (λ k h. ap (node_at nodes) (omega arith))
        (omega arith) (λ j h. elim h [ ]) nums

module _ {F : Type 0} ⦃fl : FloatOps F⦄ (trace : Vec3 F → Vec3 F → ℤ → Bool) (gs : Graphs F)
    (args : List (Value F)) where
  pub find_closest_node-same : (gsc_graph_find_closest_node trace gs args).0 ≡ gs
  unfolding gsc_graph_find_closest_node
  find_closest_node-same =
      settle-Keeps (λ after. after ≡ gs) gs _ refl
        (after_or_return _ _ _ _ λ a0 _.
          after_or_return _ _ _ _
            λ a1 _. after_or_return _ _ _ _ λ a2 _. after_or_return _ _ _ _ λ a3 _. ends _ _ refl)
