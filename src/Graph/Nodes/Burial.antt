-- ===== src/Graph/Nodes/Burial.antt =====
-- graphRemoveNode leaves a tombstone: the slot stays, with no edge out of it and none into it.
use zk_libcod.Prelude.{
  ℕ, zero, suc, ◌+◌, ◌-◌, ◌%◌, ◌<◌, ◌≡◌, ◌≢◌, refl, ap, sym, ◌∙◌, true, List, [], ◌∷◌, arith,
  length, set, length-set, get_or-set, All, All-map, All-get_or, All-set, All-intro, Bool-cases,
  inl, inr, ◌==◌, ==_iff, if◌then◌else◌,
}
use zk_libcod.Float.{FloatOps}
use zk_libcod.Graph.{AStarGraph, GraphNode, GraphEdge, u32, node_at, no_node, invalidate_precompute}
use zk_libcod.Graph.Wellformed.{IsScratch-more, IsLive, IsSound, IsValid, total, total-set}
use zk_libcod.Graph.Nodes.{count_down, drop_edges_to, drop_all_to, entomb_node}

module _ {F : Type 0} ⦃fl : FloatOps F⦄ (target : ℕ) where
  -- The loop over one node keeps the edges that lead elsewhere.
  drop_edges_to-All :
      (P : ℕ → Type 0) (es : List (GraphEdge F)) (count : ℕ)
      → All (λ e. P e.to) es
      → All (λ e. P e.to × (e.to ≢ target)) (drop_edges_to target es count).0
  unfolding drop_edges_to
  drop_edges_to-All P [] count h = tt
  drop_edges_to-All P (e ∷ es) count h = elim (Bool-cases (e.to == target)) [
    | inl hit ↦ rw (hit, drop_edges_to) (drop_edges_to-All P es (count_down count) h.1)
    | inr miss ↦
        rw (miss, drop_edges_to)
          ((h.0, λ same. cc (miss, (==_iff e.to target).1 same)), drop_edges_to-All P es count h.1)
  ]

  -- The counter goes down by one for each edge that is erased.
  drop_edges_to-count :
      (es : List (GraphEdge F)) (count : ℕ)
      → ((drop_edges_to target es count).1 + length es) % u32
        ≡ (count + length (drop_edges_to target es count).0) % u32
  unfolding drop_edges_to
  drop_edges_to-count [] count = refl
  drop_edges_to-count (e ∷ es) count = elim (Bool-cases (e.to == target)) [
    | inl hit ↦ rw (hit, drop_edges_to) (omega (arith, drop_edges_to-count es (count_down count)))
    | inr miss ↦ rw (miss, drop_edges_to) (omega (arith, drop_edges_to-count es count))
  ]

  drop_edges_to-lt :
      (es : List (GraphEdge F)) (count : ℕ) → count < u32 → (drop_edges_to target es count).1 < u32
  unfolding drop_edges_to
  drop_edges_to-lt [] count h = h
  drop_edges_to-lt (e ∷ es) count h =
      drop_edges_to-lt es (if e.to == target then count_down count else count) (ground arith)

  abbrev kept : List (GraphNode F) → ℕ → List (GraphNode F)
  kept ns count = (drop_all_to target ns count).0

  abbrev left : List (GraphNode F) → ℕ → ℕ
  left ns count = (drop_all_to target ns count).1

  drop_all_to-count :
      (ns : List (GraphNode F)) (count : ℕ)
      → (left ns count + total ns) % u32 ≡ (count + total (kept ns count)) % u32
  unfolding drop_all_to total
  drop_all_to-count [] count = refl
  drop_all_to-count (n ∷ ns) count =
      let mid = (drop_edges_to target n.edges count).1 in
      omega (arith, drop_edges_to-count n.edges count, drop_all_to-count ns mid)

  drop_all_to-lt : (ns : List (GraphNode F)) (count : ℕ) → count < u32 → left ns count < u32
  unfolding drop_all_to
  drop_all_to-lt [] count h = h
  drop_all_to-lt (n ∷ ns) count h = drop_all_to-lt ns _ (drop_edges_to-lt n.edges count h)

  length-kept : (ns : List (GraphNode F)) (count : ℕ) → length (kept ns count) ≡ length ns
  unfolding drop_all_to
  length-kept [] count = refl
  length-kept (n ∷ ns) count = ap suc (length-kept ns _)

  -- What the loop leaves of the node at `j`.
  removed-kept :
      (ns : List (GraphNode F)) (count j : ℕ)
      → (node_at (kept ns count) j).removed ≡ (node_at ns j).removed
  unfolding drop_all_to
  removed-kept [] count j = refl
  removed-kept (n ∷ ns) count zero = refl
  removed-kept (n ∷ ns) count (suc j) = removed-kept ns _ j

  bare-kept :
      (ns : List (GraphNode F)) (count j : ℕ)
      → (node_at ns j).edges ≡ []
      → (node_at (kept ns count) j).edges ≡ []
  unfolding drop_all_to drop_edges_to
  bare-kept [] count j e = refl
  bare-kept (n ∷ ns) count zero e = rw e refl
  bare-kept (n ∷ ns) count (suc j) e = bare-kept ns _ j e

  targets-kept :
      (P : ℕ → Type 0) (ns : List (GraphNode F)) (count : ℕ)
      → All (λ n. All (λ e. P e.to) n.edges) ns
      → All (λ n. All (λ e. P e.to × (e.to ≢ target)) n.edges) (kept ns count)
  unfolding drop_all_to
  targets-kept P [] count h = tt
  targets-kept P (n ∷ ns) count h = (drop_edges_to-All P n.edges count h.0, targets-kept P ns _ h.1)

module _ {F : Type 0} ⦃fl : FloatOps F⦄ where
  -- What removal does to the nodes: the slot `i` stays as a tombstone without edges, no edge leads to
  -- it any more, and every other node keeps its flag.
  pub record Buries (i : ℕ) (nodes nodes' : List (GraphNode F)) : Type 0 where
    pub size : length nodes' ≡ length nodes
    pub gone : (node_at nodes' i).removed ≡ true
    pub bare : (node_at nodes' i).edges ≡ []
    pub unreachable : (j : ℕ) → j < length nodes' → All (λ e. e.to ≢ i) (node_at nodes' j).edges
    pub others : (j : ℕ) → j ≢ i → (node_at nodes' j).removed ≡ (node_at nodes j).removed

module _ {F : Type 0} ⦃fl : FloatOps F⦄ (g : AStarGraph F) (v : IsValid g) (i : ℕ)
    (inside : i < length g.nodes) where
  node : GraphNode F
  node = node_at g.nodes i

  -- The nodes once the outgoing edges are cleared.
  abbrev cleared : List (GraphNode F)
  cleared = set g.nodes i (record (node_at g.nodes i) { edges = [] })

  abbrev counted_out : ℕ
  counted_out = (g.edge_count + u32 - length (node_at g.nodes i).edges % u32) % u32

  -- The nodes once the edges into the node are dropped.
  abbrev unlinked : List (GraphNode F)
  unlinked = kept i cleared counted_out

  abbrev buried : List (GraphNode F)
  buried = set unlinked i (record (node_at unlinked i) { removed = true })

  length-cleared : length cleared ≡ length g.nodes
  length-cleared = length-set g.nodes i (record (node_at g.nodes i) { edges = [] })

  length-unlinked : length unlinked ≡ length g.nodes
  length-unlinked = omega (arith, length-kept i cleared counted_out, length-cleared)

  node_at-cleared :
      (j : ℕ)
      → node_at cleared j
        ≡ (if i == j then record (node_at g.nodes i) { edges = [] } else node_at g.nodes j)
  node_at-cleared j =
      get_or-set g.nodes i j (record (node_at g.nodes i) { edges = [] }) no_node inside

  node_at-buried :
      (j : ℕ)
      → node_at buried j
        ≡ (if i == j then record (node_at unlinked i) { removed = true } else node_at unlinked j)
  node_at-buried j =
      get_or-set unlinked i j (record (node_at unlinked i) { removed = true }) no_node
        (rw length-unlinked inside)

  removed-unlinked : (j : ℕ) → (node_at unlinked j).removed ≡ (node_at g.nodes j).removed
  removed-unlinked j = ground (arith, removed-kept i cleared counted_out j, node_at-cleared j)

  bare-unlinked : (j : ℕ) → (node_at g.nodes j).edges ≡ [] → (node_at unlinked j).edges ≡ []
  bare-unlinked j e = bare-kept i cleared counted_out j (ground (arith, node_at-cleared j))

  bare_self : (node_at unlinked i).edges ≡ []
  bare_self = bare-kept i cleared counted_out i (ground (arith, node_at-cleared i))

  cleared_targets : All (λ n. All (λ e. IsLive g.nodes e.to) n.edges) cleared
  cleared_targets =
      All-set _ g.nodes i (record (node_at g.nodes i) { edges = [] })
        (All-map _ _ (λ n s. s.targets) g.nodes v.sound) tt

  -- A live node other than the one removed stays live.
  IsLive-buried : (w : ℕ) → IsLive g.nodes w → w ≢ i → IsLive buried w
  IsLive-buried w live other = (
    omega (
      arith,
      live.0,
      length-unlinked,
      length-set unlinked i (record (node_at unlinked i) { removed = true }),
    ),
    ground (arith, node_at-buried w, removed-unlinked w, live.1),
  )

  unlinked_targets :
      (j : ℕ)
      → j < length unlinked
      → All (λ e. IsLive g.nodes e.to × (e.to ≢ i)) (node_at unlinked j).edges
  unlinked_targets j h =
      All-get_or _ unlinked j no_node
        (targets-kept i (IsLive g.nodes) cleared counted_out cleared_targets) h

  IsSound-unlinked : (j : ℕ) → j < length unlinked → IsSound buried (node_at unlinked j)
  IsSound-unlinked j h = record {
    targets =
        All-map _ _ (λ e t. IsLive-buried e.to t.0 t.1) (node_at unlinked j).edges
          (unlinked_targets j h);
    buried = λ gone.
        let old : IsSound g.nodes (node_at g.nodes j) =
          All-get_or _ g.nodes j no_node v.sound (omega (arith, length-unlinked)) in
        bare-unlinked j (old.buried (sym (removed-unlinked j) ∙ gone));
  }

  IsSound-buried : All (IsSound buried) buried
  IsSound-buried =
      All-set _ unlinked i (record (node_at unlinked i) { removed = true })
        (All-intro _ unlinked no_node IsSound-unlinked)
        (record { targets = rw bare_self tt; buried = λ _. bare_self })

  total-buried : total buried ≡ total unlinked
  total-buried = omega (
    arith,
    total-set unlinked i (record (node_at unlinked i) { removed = true })
        (rw length-unlinked inside),
  )

  length-buried : length buried ≡ length unlinked
  length-buried = length-set unlinked i (record (node_at unlinked i) { removed = true })

  pub entomb_node-IsValid : IsValid (entomb_node g i)
  unfolding entomb_node invalidate_precompute
  entomb_node-IsValid = record {
    sound = IsSound-buried;
    counted = omega (
      arith,
      v.counted,
      total-buried,
      drop_all_to-count i cleared counted_out,
      drop_all_to-lt i cleared counted_out (omega arith),
      total-set g.nodes i (record (node_at g.nodes i) { edges = [] }) inside,
    );
    scratch_ok = IsScratch-more _ _ _ (omega (arith, length-buried, length-unlinked)) v.scratch_ok;
    cache_size = omega arith;
    fresh = tt;
  }

  edges-buried : (j : ℕ) → (node_at buried j).edges ≡ (node_at unlinked j).edges
  edges-buried j = ground (arith, node_at-buried j)

  -- In a well-formed graph, for a node `i` in range, the state change of graphRemoveNode leaves
  -- it as a removed slot without edges, takes every edge to it out of every node, and leaves the
  -- number of slots and the removal flags of the others.
  pub entomb_node-Buries : Buries i g.nodes (entomb_node g i).nodes
  unfolding entomb_node invalidate_precompute
  entomb_node-Buries = record {
    size = omega (arith, length-unlinked, length-buried);
    gone = ground (arith, node_at-buried i);
    bare = edges-buried i ∙ bare_self;
    unreachable = λ j h. rw (edges-buried j) (
        All-map _ _ (λ e t. t.1) (node_at unlinked j).edges
          (unlinked_targets j (omega (arith, length-buried))));
    others = λ j other. ground (arith, node_at-buried j, removed-unlinked j);
  }

module _ {F : Type 0} ⦃fl : FloatOps F⦄ where
  pub id-entomb_node : (g : AStarGraph F) (i : ℕ) → (entomb_node g i).id ≡ g.id
  unfolding entomb_node invalidate_precompute
  id-entomb_node g i = refl
