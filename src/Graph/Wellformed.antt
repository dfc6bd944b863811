-- ===== src/Graph/Wellformed.antt =====
-- What the functions of code/gsc_graph.cpp that are modelled here keep: an edge leads to a node that is in range and not
-- removed, a removed node has no edges, the edge counter counts the edges, and at most eight cached
-- trees are there, none of them stale.
use zk_libcod.Prelude.{
  refl, get_or, ℕ, zero, suc, ◌+◌, ◌%◌, ◌<◌, ◌≤◌, ◌≡◌, true, false, List, [], ◌∷◌, ◌++◌, arith,
  length, set, length-set, get_or-set, ap, Bool-cases, inl, inr, All-get_or, All, All-map, All-set,
}
use zk_libcod.Float.{FloatOps}
use zk_libcod.Graph.{
  Graphs, AStarGraph, GraphNode, GraphPrecompute, GraphScratch, no_scratch, u32, node_at, no_node,
}
use zk_libcod.Graph.Precompute.{shortest_path_tree}

module _ {F : Type 0} ⦃fl : FloatOps F⦄ where
  abbrev pub IsLive : List (GraphNode F) → ℕ → Type 0
  IsLive nodes v = (v < length nodes) × ((node_at nodes v).removed ≡ false)

  pub record IsSound (nodes : List (GraphNode F)) (n : GraphNode F) : Type 0 where
    pub targets : All (λ e. IsLive nodes e.to) n.edges
    pub buried : n.removed ≡ true → n.edges ≡ []

  -- The number of edges that are stored.
  unfoldable pub total : List (GraphNode F) → ℕ
  total [] = 0
  total (n ∷ ns) = length n.edges + total ns

  -- The vectors of the scratch are as long as each other, no longer than that of the nodes, and hold no stamp
  -- that is still to be given.
  pub record IsScratch (n : ℕ) (s : GraphScratch F) : Type 0 where
    pub f_size : length s.f_score ≡ length s.g_score
    pub parent_size : length s.parent ≡ length s.g_score
    pub stamp_size : length s.stamp ≡ length s.g_score
    pub closed_size : length s.closed_stamp ≡ length s.g_score
    pub fits : length s.g_score ≤ n
    pub stamps : (v : ℕ) → get_or s.stamp v 0 ≤ s.search_id
    pub closed_stamps : (v : ℕ) → get_or s.closed_stamp v 0 ≤ s.search_id
    pub id_bound : s.search_id < u32

  pub no_scratch-IsScratch : (n : ℕ) → IsScratch n no_scratch
  no_scratch-IsScratch n = record {
    f_size = refl;
    parent_size = refl;
    stamp_size = refl;
    closed_size = refl;
    fits = omega arith;
    stamps = λ v. omega arith;
    closed_stamps = λ v. omega arith;
    id_bound = omega arith;
  }

  pub IsScratch-more : (n m : ℕ) (s : GraphScratch F) → n ≤ m → IsScratch n s → IsScratch m s
  IsScratch-more n m s h k = record {
    f_size = k.f_size;
    parent_size = k.parent_size;
    stamp_size = k.stamp_size;
    closed_size = k.closed_size;
    fits = omega (arith, k.fits);
    stamps = k.stamps;
    closed_stamps = k.closed_stamps;
    id_bound = k.id_bound;
  }

  -- A cached tree is the one that a search over the graph as it is now gives.
  abbrev pub IsFresh : AStarGraph F → GraphPrecompute F → Type 0
  IsFresh g pc =
      (i : ℕ) × IsLive g.nodes i
      × (pc ≡ shortest_path_tree g i pc.skip_node_types pc.skip_edge_types)

  pub record IsValid (g : AStarGraph F) : Type 0 where
    pub sound : All (IsSound g.nodes) g.nodes
    pub counted : g.edge_count ≡ total g.nodes % u32
    pub scratch_ok : IsScratch (length g.nodes) g.scratch
    pub cache_size : length g.precomputes ≤ 8
    pub fresh : All (IsFresh g) g.precomputes

  abbrev pub AllValid : Graphs F → Type 0
  AllValid gs = All IsValid gs

  pub IsSound-mono :
      (nodes nodes' : List (GraphNode F))
      → ((v : ℕ) → IsLive nodes v → IsLive nodes' v)
      → (n : GraphNode F) → IsSound nodes n
      → IsSound nodes' n
  IsSound-mono nodes nodes' more n s = record {
    targets = All-map _ _ (λ e live. more e.to live) n.edges s.targets;
    buried = s.buried;
  }

  pub IsLive-set :
      (nodes : List (GraphNode F)) (i : ℕ) (n : GraphNode F)
      → i < length nodes
      → n.removed ≡ (node_at nodes i).removed
      → (v : ℕ) → IsLive nodes v
      → IsLive (set nodes i n) v
  IsLive-set nodes i n hi same v live =
      (rw (length-set nodes i n) live.0, ground (arith, get_or-set nodes i v n no_node hi))

  -- A node may be written over by one that is sound and is removed just as it was.
  pub set-IsSound :
      (nodes : List (GraphNode F)) (i : ℕ) (n : GraphNode F)
      → i < length nodes
      → n.removed ≡ (node_at nodes i).removed
      → IsSound nodes n
      → All (IsSound nodes) nodes
      → All (IsSound (set nodes i n)) (set nodes i n)
  set-IsSound nodes i n hi same s all =
      All-map _ _ (IsSound-mono nodes (set nodes i n) (IsLive-set nodes i n hi same))
        (set nodes i n) (All-set _ nodes i n all s)

  pub total-set :
      (nodes : List (GraphNode F)) (i : ℕ) (n : GraphNode F)
      → i < length nodes
      → total (set nodes i n) + length (node_at nodes i).edges ≡ total nodes + length n.edges
  unfolding total
  total-set [] i n h = elim h [ ]
  total-set (x ∷ xs) zero n h = omega arith
  total-set (x ∷ xs) (suc i) n h = omega (arith, total-set xs i n (omega arith))

  pub total-append :
      (nodes more : List (GraphNode F)) → total (nodes ++ more) ≡ total nodes + total more
  unfolding total
  total-append [] more = omega arith
  total-append (x ∷ xs) more = omega (arith, total-append xs more)

  -- The source node of an edge that is found has edges, so it is not removed.
  pub source_IsLive :
      (g : AStarGraph F)
      → IsValid g
      → (u idx : ℕ) → u < length g.nodes
      → idx < length (node_at g.nodes u).edges
      → IsLive g.nodes u
  source_IsLive g v u idx inside room =
      let sound : IsSound g.nodes (node_at g.nodes u) = All-get_or _ g.nodes u _ v.sound inside in
      (
        inside,
        elim (Bool-cases (node_at g.nodes u).removed) [
          | inl gone ↦ absurd (omega (arith, ap length (sound.buried gone)))
          | inr live ↦ live
        ],
      )
