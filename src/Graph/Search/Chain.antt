-- ===== src/Graph/Search/Chain.antt =====
-- What holds between any two steps of gsc_graph_find_path: the parents of the nodes that were seen lead back to the
-- start along edges that the search may follow.
use zk_libcod.Prelude.{
  ℕ, zero, suc, ◌+◌, ◌<◌, ◌≤◌, ◌≡◌, ◌⊎◌, inl, inr, sym, subst, true, false, List, [], ◌∷◌, arith,
  length, get_or, set, Mem, ◌==◌, if◌then◌else◌, get_or_past, Bool-cases, leb,
}
use zk_libcod.Float.{FloatOps}
use zk_libcod.Heap.{GraphHeapEntry}
use zk_libcod.Graph.{AStarGraph, GraphEdge, GraphScratch, node_at, skips}
use zk_libcod.Graph.Precompute.Ways.{Link}
use zk_libcod.Graph.Search.{Query, Progress}
use zk_libcod.Graph.Scratch.{is_seen, is_closed, parent_at}
use zk_libcod.Graph.Scratch.Begin.{IsSized}

-- How many slots hold the number.
pub count_of : ℕ → List ℕ → ℕ
count_of id [] = 0
count_of id (x ∷ xs) = (if x == id then 1 else 0) + count_of id xs

pub count_of-le : (id : ℕ) (xs : List ℕ) → count_of id xs ≤ length xs
unfolding count_of
count_of-le id [] = omega arith
count_of-le id (x ∷ xs) = ground (arith, count_of-le id xs)

pub count_of-set :
    (id : ℕ) (xs : List ℕ) (v : ℕ)
    → v < length xs
    → (get_or xs v 0 == id) ≡ false
    → count_of id (set xs v id) ≡ suc (count_of id xs)
unfolding count_of
count_of-set id [] v h other = elim h [ ]
count_of-set id (x ∷ xs) zero h other = ground arith
count_of-set id (x ∷ xs) (suc v) h other = omega (arith, count_of-set id xs v (omega arith) other)

pub count_of_pos : (id v : ℕ) (xs : List ℕ) → 0 < id → get_or xs v 0 ≡ id → 0 < count_of id xs
unfolding count_of
count_of_pos id v [] h e = absurd (omega arith)
count_of_pos id zero (x ∷ xs) h e = ground arith
count_of_pos id (suc v) (x ∷ xs) h e = omega (arith, count_of_pos id v xs h e)

module _ {F : Type 0} ⦃fl : FloatOps F⦄ (graph : AStarGraph F) (q : Query F)
    (marks : GraphScratch F) where
  -- An edge that the search may follow: it is there, its type and that of its target are not skipped, and the target is
  -- not one of the nodes that were marked before the search.
  pub record Allowed (u v : ℕ) : Type 0 where
    pub edge : GraphEdge F
    pub link : Link graph q.skip_edges u edge
    pub leads : edge.to ≡ v
    pub open_way : skips q.skip_nodes (node_at graph.nodes v).type ≡ false
    pub unmarked : is_closed marks v ≡ false

  -- From a closed node back to the start, over closed nodes, in `k` steps.
  pub data Chain (s : GraphScratch F) : ℕ → ℕ → Type 0 where
    begun : Chain s q.start 0
    onward :
        {v k : ℕ}
        → is_closed s v ≡ true
        → Allowed (parent_at s v) v
        → Chain s (parent_at s v) k
        → Chain s v (suc k)

  -- How a node that was seen was come by.
  abbrev pub Came : GraphScratch F → ℕ → Type 0
  Came s v =
      (v ≡ q.start)
      ⊎ (is_closed s (parent_at s v) ≡ true)
        × (is_seen s (parent_at s v) ≡ true)
        × Allowed (parent_at s v) v

  pub record Inv (p : Progress F) : Type 0 where
    pub sized : IsSized (length graph.nodes) p.scratch
    pub waiting : (e : GraphHeapEntry F) → Mem e p.scratch.heap → is_seen p.scratch e.node ≡ true
    pub best_seen : is_seen p.scratch p.best_node ≡ true
    pub came : (v : ℕ) → is_seen p.scratch v ≡ true → Came p.scratch v
    pub chains :
        (v : ℕ)
        → is_closed p.scratch v ≡ true
        → is_seen p.scratch v ≡ true
        → (k : ℕ) × (k < count_of p.scratch.search_id p.scratch.closed_stamp) × Chain p.scratch v k
    pub marked : (v : ℕ) → is_closed marks v ≡ true → is_closed p.scratch v ≡ true

  -- A chain stays one where nodes are closed and closed nodes keep their parents.
  pub Chain-mono :
      (s t : GraphScratch F)
      → ((v : ℕ) → is_closed s v ≡ true → is_closed t v ≡ true)
      → ((v : ℕ) → is_closed s v ≡ true → parent_at t v ≡ parent_at s v)
      → (v k : ℕ) → Chain s v k
      → Chain t v k
  Chain-mono s t closed same v k begun = begun
  Chain-mono s t closed same v k (onward {v = w} {k = j} c step rest) =
      let further = Chain-mono s t closed same (parent_at s w) j rest in
      let back = sym (same w c) in
      onward (closed w c) (subst (λ u. Allowed u w) back step)
        (subst (λ u. Chain t u j) back further)

module _ {F : Type 0} where
  pub seen_inside :
      (n : ℕ) (s : GraphScratch F) → IsSized n s → (v : ℕ) → is_seen s v ≡ true → v < n
  seen_inside n s k v h = elim (Bool-cases (leb (length s.stamp) v)) [
    | inl past ↦ absurd (ground (arith, get_or_past s.stamp v 0 (ground arith), k.id_pos))
    | inr inside ↦ ground (arith, k.stamp_size)
  ]
