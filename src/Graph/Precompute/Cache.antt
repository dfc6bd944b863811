-- ===== src/Graph/Precompute/Cache.antt =====
-- The cache of shortest-path trees: what graphPrecomputePathsToNode stores is fresh, and at most eight
-- trees are kept.
use zk_libcod.Prelude.{
  ℕ, ◌≡◌, refl, List, [], ◌∷◌, Option, none, some, if◌then◌else◌, arith, length, drop, leb,
  length-set, length-append, length-drop, All, All-map, All-set, All-append, All-drop, Bool-cases,
  inl, inr,
}
use zk_libcod.Prelude.Int.{ℤ}
use zk_libcod.Float.{FloatOps}
use zk_libcod.Script.{Value}
use zk_libcod.Graph.{Graphs, AStarGraph, GraphPrecompute, GraphScratch, GraphStats, find_precompute}
use zk_libcod.Graph.Reply.{ends, after_or_return, settle-Keeps}
use zk_libcod.Graph.Wellformed.{IsScratch, IsLive, IsFresh, IsValid}
use zk_libcod.Graph.World.{IsWorld, graph_IsValid, write-IsWorld}
use zk_libcod.Graph.Nodes.Calls.{live_index-some}
use zk_libcod.Graph.Precompute.{
  shortest_path_tree, is_blocked, put_precompute, store_precompute,
  gsc_graph_precompute_paths_to_node,
}

module _ {F : Type 0} ⦃fl : FloatOps F⦄ where
  -- A tree depends on the nodes alone.
  shortest_path_tree-nodes :
      (g g' : AStarGraph F)
      → g'.nodes ≡ g.nodes
      → (i : ℕ) (a b : ℤ) → shortest_path_tree g' i a b ≡ shortest_path_tree g i a b
  unfolding shortest_path_tree is_blocked
  shortest_path_tree-nodes g g' same i a b = rw same refl

  IsFresh-nodes :
      (g g' : AStarGraph F)
      → g'.nodes ≡ g.nodes
      → (pc : GraphPrecompute F) → IsFresh g pc
      → IsFresh g' pc
  IsFresh-nodes g g' same pc (i, live, tree) = (
    i,
    rw same live,
    rw (shortest_path_tree-nodes g g' same i pc.skip_node_types pc.skip_edge_types) tree,
  )

  -- Wherever the tree is put.
  put_precompute-IsValid :
      (g : AStarGraph F) (tree : GraphPrecompute F) (o : Option ℕ)
      → IsValid g
      → IsFresh g tree
      → IsValid (put_precompute g tree o)
  unfolding put_precompute
  put_precompute-IsValid g tree (some i) v new = record {
    sound = v.sound;
    counted = v.counted;
    scratch_ok = v.scratch_ok;
    cache_size = rw length-set v.cache_size;
    fresh =
        All-map _ _ (IsFresh-nodes g (put_precompute g tree (some i)) refl) _
          (All-set _ g.precomputes i tree v.fresh new);
  }
  put_precompute-IsValid g tree none v new =
      let pcs = g.precomputes in
      let room = if leb 8 (length pcs) then drop 1 pcs else pcs in
      let room_fresh : All (IsFresh g) room = elim (Bool-cases (leb 8 (length pcs))) [
        | inl full ↦ rw full (All-drop _ 1 pcs v.fresh)
        | inr free ↦ rw free v.fresh
      ] in
      record {
        sound = v.sound;
        counted = v.counted;
        scratch_ok = v.scratch_ok;
        cache_size =
            ground (arith, v.cache_size, length-append room (tree ∷ []), length-drop 1 pcs);
        fresh =
            All-map _ _ (IsFresh-nodes g (put_precompute g tree none) refl) _
              (All-append _ room (tree ∷ []) room_fresh (new, tt));
      }

  pub store_precompute-IsValid :
      (g : AStarGraph F) (tree : GraphPrecompute F)
      → IsValid g
      → IsFresh g tree
      → IsValid (store_precompute g tree)
  unfolding store_precompute
  store_precompute-IsValid g tree =
      put_precompute-IsValid g tree
        (find_precompute g tree.goal tree.skip_node_types tree.skip_edge_types)

  id-put_precompute :
      (g : AStarGraph F) (tree : GraphPrecompute F) (o : Option ℕ)
      → (put_precompute g tree o).id ≡ g.id
  unfolding put_precompute
  id-put_precompute g tree (some i) = refl
  id-put_precompute g tree none = refl

  id-store_precompute :
      (g : AStarGraph F) (tree : GraphPrecompute F) → (store_precompute g tree).id ≡ g.id
  unfolding store_precompute
  id-store_precompute g tree =
      id-put_precompute g tree
        (find_precompute g tree.goal tree.skip_node_types tree.skip_edge_types)

  pub shortest_path_tree-IsFresh :
      (g : AStarGraph F) (i : ℕ)
      → IsLive g.nodes i
      → (a b : ℤ) → IsFresh g (shortest_path_tree g i a b)
  unfolding shortest_path_tree
  shortest_path_tree-IsFresh g i live a b = (i, live, refl)

  -- A graph may be given other statistics and another scratch.
  pub after_search-IsValid :
      (g : AStarGraph F) (s : GraphScratch F) (stats : GraphStats)
      → IsValid g
      → IsScratch (length g.nodes) s
      → IsValid (record g { scratch = s; stats = stats })
  after_search-IsValid g s stats v k = record {
    sound = v.sound;
    counted = v.counted;
    scratch_ok = k;
    cache_size = v.cache_size;
    fresh =
        All-map _ _ (IsFresh-nodes g (record g { scratch = s; stats = stats }) refl) g.precomputes
          v.fresh;
  }

  -- Whoever forgets the statistics keeps the cache.
  pub forget_stats-IsValid :
      (g : AStarGraph F) (stats : GraphStats) → IsValid g → IsValid (record g { stats = stats })
  forget_stats-IsValid g stats v = after_search-IsValid g g.scratch stats v v.scratch_ok

  pub precompute_paths_to_node-IsWorld :
      (gs : Graphs F) (args : List (Value F))
      → IsWorld gs
      → IsWorld (gsc_graph_precompute_paths_to_node gs args).0
  unfolding gsc_graph_precompute_paths_to_node
  precompute_paths_to_node-IsWorld gs args world = settle-Keeps IsWorld gs _ world (
      after_or_return IsWorld _ _ _ λ p _. after_or_return IsWorld _ _ _ λ skip_nodes _.
        after_or_return IsWorld _ _ _ λ skip_edges _. after_or_return IsWorld _ _ _ λ g found.
          after_or_return IsWorld _ _ _ λ goal live. ends _ _ (
            write-IsWorld gs world p.0 g found _
              (store_precompute-IsValid _ _ (graph_IsValid gs world p.0 g found) (
                shortest_path_tree-IsFresh _ goal (live_index-some _ _ goal live).0 skip_nodes
                  skip_edges))
              (id-store_precompute _ _)))
