-- ===== src/Graph/Shape.antt =====
-- What the invariant sees of the nodes: the flags and the targets, but no origin, type or cost.
use zk_libcod.Prelude.{
  ℕ, zero, suc, ◌≡◌, refl, sym, ap, subst, List, [], ◌∷◌, ◌∙◌, arith, length, map, All, All-map,
  length-map,
}
use zk_libcod.Float.{FloatOps}
use zk_libcod.Graph.{AStarGraph, GraphNode, GraphEdge}
use zk_libcod.Graph.Wellformed.{IsScratch-more, IsLive, IsSound, IsValid, total}

module _ {F : Type 0} where
  abbrev pub targets : List (GraphEdge F) → List ℕ
  targets = map λ (e : GraphEdge F). e.to

  -- The same flag and the same targets.
  abbrev pub IsAlike : GraphNode F → GraphNode F → Type 0
  IsAlike n n' = (n'.removed ≡ n.removed) × (targets n'.edges ≡ targets n.edges)

  -- Node for node alike.
  abbrev pub AllAlike : List (GraphNode F) → List (GraphNode F) → Type 0
  AllAlike [] [] = Unit {0}
  AllAlike [] (_ ∷ _) = ⊥
  AllAlike (_ ∷ _) [] = ⊥
  AllAlike (n ∷ ns) (n' ∷ ns') = IsAlike n n' × AllAlike ns ns'

  targets-All :
      (P : ℕ → Type 0) (es es' : List (GraphEdge F))
      → targets es' ≡ targets es
      → All (λ e. P e.to) es
      → All (λ e. P e.to) es'
  targets-All P [] [] e h = tt
  targets-All P [] (y ∷ ys) e h = absurd (cc)
  targets-All P (x ∷ xs) [] e h = absurd (cc)
  targets-All P (x ∷ xs) (y ∷ ys) e h =
      let head : x.to ≡ y.to = cc in (subst P head h.0, targets-All P xs ys (cc) h.1)

  targets-nil : (es : List (GraphEdge F)) → targets es ≡ [] → es ≡ []
  targets-nil [] e = refl
  targets-nil (x ∷ es) e = absurd (cc)

module _ {F : Type 0} ⦃fl : FloatOps F⦄ where
  AllAlike-length : (ns ns' : List (GraphNode F)) → AllAlike ns ns' → length ns' ≡ length ns
  AllAlike-length [] [] a = refl
  AllAlike-length [] (_ ∷ _) a = absurd a
  AllAlike-length (_ ∷ _) [] a = absurd a
  AllAlike-length (n ∷ ns) (n' ∷ ns') a = omega (arith, AllAlike-length ns ns' a.1)

  AllAlike-total : (ns ns' : List (GraphNode F)) → AllAlike ns ns' → total ns' ≡ total ns
  unfolding total
  AllAlike-total [] [] a = refl
  AllAlike-total [] (_ ∷ _) a = absurd a
  AllAlike-total (_ ∷ _) [] a = absurd a
  AllAlike-total (n ∷ ns) (n' ∷ ns') a = omega (
    arith,
    AllAlike-total ns ns' a.1,
    ap length a.0.1,
    length-map n.edges (λ (e : GraphEdge F). e.to),
    length-map n'.edges (λ (e : GraphEdge F). e.to),
  )

  AllAlike-IsLive :
      (ns ns' : List (GraphNode F)) → AllAlike ns ns' → (v : ℕ) → IsLive ns v → IsLive ns' v
  AllAlike-IsLive [] [] a v live = live
  AllAlike-IsLive [] (_ ∷ _) a v live = absurd a
  AllAlike-IsLive (_ ∷ _) [] a v live = absurd a
  AllAlike-IsLive (n ∷ ns) (n' ∷ ns') a zero live = (omega arith, a.0.0 ∙ live.1)
  AllAlike-IsLive (n ∷ ns) (n' ∷ ns') a (suc v) live =
      let rest = AllAlike-IsLive ns ns' a.1 v (omega arith, live.1) in
      (omega (arith, rest.0), rest.1)

  AllAlike-IsSound :
      (nodes nodes' : List (GraphNode F))
      → ((v : ℕ) → IsLive nodes v → IsLive nodes' v)
      → (ns ns' : List (GraphNode F)) → AllAlike ns ns'
      → All (IsSound nodes) ns
      → All (IsSound nodes') ns'
  AllAlike-IsSound nodes nodes' more [] [] a h = tt
  AllAlike-IsSound nodes nodes' more [] (_ ∷ _) a h = absurd a
  AllAlike-IsSound nodes nodes' more (_ ∷ _) [] a h = absurd a
  AllAlike-IsSound nodes nodes' more (n ∷ ns) (n' ∷ ns') a h = (
    record {
      targets =
          targets-All (IsLive nodes') n.edges n'.edges a.0.1
            (All-map _ _ (λ e live. more e.to live) n.edges h.0.targets);
      buried = λ gone. targets-nil n'.edges (a.0.1 ∙ ap targets (h.0.buried (sym a.0.0 ∙ gone)));
    },
    AllAlike-IsSound nodes nodes' more ns ns' a.1 h.1,
  )

  -- A graph whose nodes are alike to those of a valid one is valid.
  pub AllAlike-IsValid :
      (g g' : AStarGraph F)
      → IsValid g
      → AllAlike g.nodes g'.nodes
      → g'.edge_count ≡ g.edge_count
      → g'.precomputes ≡ []
      → g'.scratch ≡ g.scratch
      → IsValid g'
  AllAlike-IsValid g g' v a e cold same = record {
    sound = AllAlike-IsSound g.nodes g'.nodes (AllAlike-IsLive _ _ a) g.nodes g'.nodes a v.sound;
    counted = omega (arith, v.counted, e, AllAlike-total g.nodes g'.nodes a);
    scratch_ok =
        rw same
          (IsScratch-more _ _ _ (omega (arith, AllAlike-length g.nodes g'.nodes a)) v.scratch_ok);
    cache_size = rw cold (omega arith);
    fresh = rw cold tt;
  }
