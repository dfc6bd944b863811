-- ===== src/Graph/File/Loops.antt =====
-- The loops of gsc_graph_load of code/gsc_graph.cpp over what those of gsc_graph_save write.
use mathlib.Core.List.{append_assoc, append-nil}
use zk_libcod.Prelude.{
  ℕ, zero, suc, ◌+◌, ◌*◌, ◌%◌, ◌<◌, ◌≡◌, refl, sym, ap, subst, ◌∙◌, Bool, false, ◌||◌, List, [],
  ◌∷◌, ◌++◌, map, arith, length, get_or, set, drop, leb, length-append, All, All-map,
}
use zk_libcod.Float.{FloatOps}
use zk_libcod.Graph.{AStarGraph, GraphNode, GraphEdge, u32, node_at, no_node}
use zk_libcod.Graph.Reply.{go_on, ◌>>=◌, ◌>>◌, return_if}
use zk_libcod.Graph.Wellformed.{IsLive, total}
use zk_libcod.Graph.File.{
  FloatBits, number, node_bytes, edge_bytes, all_node_bytes, all_edge_bytes, edges_from, read_nodes,
  read_edge, read_edges, store_edge, fresh_graph,
}
use zk_libcod.Graph.File.Bytes.{
  IsInt, BitsLaws, bare, read_node-node_bytes, drop-node_bytes, from-edge_bytes,
  read_edge-edge_bytes, drop-edge_bytes,
}

drop-nil {ℓ} : {A : Type ℓ} (n : ℕ) → drop {A = A} n [] ≡ []
drop-nil zero = refl
drop-nil (suc n) = refl

pub drop-drop {ℓ} : {A : Type ℓ} (a b : ℕ) (xs : List A) → drop (a + b) xs ≡ drop b (drop a xs)
drop-drop zero b xs = let none_more : 0 + b ≡ b = omega arith in ap (λ m. drop m xs) none_more
drop-drop (suc a) b [] =
    let one_more : suc a + b ≡ suc (a + b) = omega arith in
    ap (λ m. drop m []) one_more ∙ sym (drop-nil b)
drop-drop (suc a) b (x ∷ xs) =
    let one_more : suc a + b ≡ suc (a + b) = omega arith in
    ap (λ m. drop m (x ∷ xs)) one_more ∙ drop-drop a b xs

middle_get {ℓ} :
    {A : Type ℓ} (pre : List A) (a : A) (post : List A) (d : A)
    → get_or (pre ++ a ∷ post) (length pre) d ≡ a
middle_get [] a post d = refl
middle_get (x ∷ pre) a post d = middle_get pre a post d

middle_set {ℓ} :
    {A : Type ℓ} (pre : List A) (a b : A) (post : List A)
    → set (pre ++ a ∷ post) (length pre) b ≡ pre ++ b ∷ post
middle_set [] a b post = refl
middle_set (x ∷ pre) a b post = ap (λ xs. x ∷ xs) (middle_set pre a b post)

module _ {F : Type 0} ⦃fl : FloatOps F⦄ (fb : FloatBits F) (laws : BitsLaws fb) where
  pub read_nodes-all_node_bytes :
      (ns : List (GraphNode F)) (after : List ℕ)
      → All (λ n. IsInt n.type) ns
      → read_nodes fb (length ns) (all_node_bytes fb ns after) ≡ map (bare fb laws) ns
  unfolding read_nodes all_node_bytes
  read_nodes-all_node_bytes [] after h = refl
  read_nodes-all_node_bytes (n ∷ ns) after (h, hs) =
      rw
        (
          read_node-node_bytes fb laws n (all_node_bytes fb ns after) h,
          drop-node_bytes fb laws n (all_node_bytes fb ns after),
          read_nodes-all_node_bytes ns after hs,
        )
        refl

  pub drop-all_node_bytes :
      (ns : List (GraphNode F)) (after : List ℕ)
      → drop (length ns * 20) (all_node_bytes fb ns after) ≡ after
  unfolding all_node_bytes
  drop-all_node_bytes [] after = refl
  drop-all_node_bytes (n ∷ ns) after =
      let size : suc (length ns) * 20 ≡ 20 + length ns * 20 = omega arith in
      let all = node_bytes fb n (all_node_bytes fb ns after) in
      ap (λ m. drop m all) size
      ∙ drop-drop 20 (length ns * 20) all
      ∙ ap (drop (length ns * 20)) (drop-node_bytes fb laws n (all_node_bytes fb ns after))
      ∙ drop-all_node_bytes ns after

  -- One edge that passes the tests.
  read_edges_step :
      (size k : ℕ) (p p' : List ℕ) (g : AStarGraph F) (u : ℕ) (e : GraphEdge F)
      → number 4 p ≡ u
      → read_edge fb p ≡ e
      → drop 16 p ≡ p'
      → u < size
      → e.to < size
      → (node_at g.nodes u).removed ≡ false
      → (node_at g.nodes e.to).removed ≡ false
      → read_edges fb size (suc k) p g ≡ read_edges fb size k p' (store_edge fb g u e)
  unfolding read_edges ◌>>◌ ◌>>=◌ return_if
  read_edges_step size k p p' g u e from edge next hu hv live there =
      let to : (read_edge fb p).to ≡ e.to = ap (λ (x : GraphEdge F). x.to) edge in
      let inside : (leb size u || leb size (read_edge fb p).to) ≡ false = rw to (ground arith) in
      let alive : ((node_at g.nodes u).removed || (node_at g.nodes (read_edge fb p).to).removed)
          ≡ false =
        rw to (ground arith) in
      rw (from, inside, alive, edge, next) refl

  -- Other edges at one node leave the same nodes alive.
  IsLive-middle :
      (pre : List (GraphNode F)) (n : GraphNode F) (es es' : List (GraphEdge F))
      (post : List (GraphNode F)) (v : ℕ)
      → IsLive (pre ++ record n { edges = es } ∷ post) v
      → IsLive (pre ++ record n { edges = es' } ∷ post) v
  IsLive-middle [] n es es' post zero live = live
  IsLive-middle [] n es es' post (suc v) live = live
  IsLive-middle (m ∷ pre) n es es' post zero live = (omega arith, live.1)
  IsLive-middle (m ∷ pre) n es es' post (suc v) live =
      let (inside, there) = IsLive-middle pre n es es' post v (omega (arith, live.0), live.1) in
      (omega (arith, inside), there)

  module _ (id : ℕ) (persist : Bool) (size : ℕ) (small : size < u32) where
    -- The graph during the loop.
    abbrev pub loading : List (GraphNode F) → ℕ → AStarGraph F
    loading nodes count = record (fresh_graph fb id persist nodes) { edge_count = count }

    -- What an edge of a node of the saved graph is like.
    abbrev pub Saved : List (GraphNode F) → Bool → GraphEdge F → Type 0
    Saved nodes removed e = IsLive nodes e.to × IsInt e.type × (removed ≡ false)

    store_edge-loading :
        (pre : List (GraphNode F)) (n : GraphNode F) (post : List (GraphNode F))
        (done : List (GraphEdge F)) (e : GraphEdge F) (count : ℕ)
        → suc count < u32
        → store_edge fb (loading (pre ++ record n { edges = done } ∷ post) count) (length pre) e
          ≡ loading (pre ++ record n { edges = done ++ e ∷ [] } ∷ post) (suc count)
    unfolding store_edge
    store_edge-loading pre n post done e count room =
        let m : GraphNode F = record n { edges = done } in
        let nodes = pre ++ m ∷ post in
        let grown : GraphNode F → GraphNode F = λ x. record x { edges = x.edges ++ e ∷ [] } in
        let stored : set nodes (length pre) (grown (node_at nodes (length pre)))
            ≡ pre ++ grown m ∷ post =
          ap (λ x. set nodes (length pre) (grown x)) (middle_get pre m post no_node)
          ∙ middle_set pre m (grown m) post in
        let counted : (count + 1) % u32 ≡ suc count = omega arith in
        λ i. loading (stored i) (counted i)

    read_edges-all_edge_bytes :
        (pre : List (GraphNode F)) (n : GraphNode F) (post : List (GraphNode F))
        (done es : List (GraphEdge F)) (k count : ℕ) (after : List ℕ)
        → length (pre ++ record n { edges = done } ∷ post) ≡ size
        → count + length es < u32
        → All (Saved (pre ++ record n { edges = done } ∷ post) n.removed) es
        → read_edges fb size
            (length es + k)
            (all_edge_bytes fb (length pre) es after)
            (loading (pre ++ record n { edges = done } ∷ post) count)
          ≡ read_edges fb size k after
              (loading (pre ++ record n { edges = done ++ es } ∷ post) (count + length es))
    unfolding all_edge_bytes store_edge
    read_edges-all_edge_bytes pre n post done [] k count after whole room saved =
        let same : 0 + k ≡ k = omega arith in
        let total : count + 0 ≡ count = omega arith in rw (same, total, append-nil done) refl
    read_edges-all_edge_bytes pre n post done (e ∷ es) k count after whole room
          ((live, typed, kept), saved) =
        let nodes = pre ++ record n { edges = done } ∷ post in
        let u = length pre in
        let rest = all_edge_bytes fb u es after in
        let m : GraphNode F = record n { edges = done } in
        let here : node_at nodes u ≡ m = middle_get pre m post no_node in
        let inside : u < size = omega (arith, whole, length-append pre (m ∷ post)) in
        let there : e.to < size = omega (arith, whole, live.0) in
        let more : suc (length es) + k ≡ suc (length es + k) = omega arith in
        let step =
          read_edges_step size (length es + k) (edge_bytes fb u e rest) rest (loading nodes count) u
            e (from-edge_bytes fb laws u e rest (omega arith))
            (read_edge-edge_bytes fb laws u e rest (omega arith) typed)
            (drop-edge_bytes fb laws u e rest) inside there
            (ap (λ (x : GraphNode F). x.removed) here ∙ kept) live.1 in
        let next = store_edge-loading pre n post done e count (omega arith) in
        let wider : length (pre ++ record n { edges = done ++ e ∷ [] } ∷ post) ≡ size = omega (
          arith,
          whole,
          length-append pre (m ∷ post),
          length-append pre (record n { edges = done ++ e ∷ [] } ∷ post),
        ) in
        let again =
          read_edges-all_edge_bytes pre n post (done ++ e ∷ []) es k (suc count) after wider
            (omega arith)
            (All-map _ _
              (λ e' h. (IsLive-middle pre n done (done ++ e ∷ []) post e'.to h.0, h.1, h.2)) es
              saved) in
        let joined : (done ++ e ∷ []) ++ es ≡ done ++ e ∷ es = append_assoc done (e ∷ []) es in
        let summed : suc count + length es ≡ count + suc (length es) = omega arith in
        ap (λ j. read_edges fb size j (edge_bytes fb u e rest) (loading nodes count)) more
        ∙ step
        ∙ ap (read_edges fb size (length es + k) rest) next
        ∙ again
        ∙ (λ i.
            read_edges fb size k after
              (loading (pre ++ record n { edges = joined i } ∷ post) (summed i)))

    pub read_edges-edges_from :
        (whole pre ns : List (GraphNode F)) (count : ℕ)
        → length (pre ++ map (bare fb laws) ns) ≡ size
        → count + total ns < u32
        → ((v : ℕ) → IsLive whole v → IsLive (pre ++ map (bare fb laws) ns) v)
        → All (λ n. All (Saved whole n.removed) n.edges) ns
        → read_edges fb size
            (total ns)
            (edges_from fb (length pre) ns)
            (loading (pre ++ map (bare fb laws) ns) count)
          ≡ go_on (loading (pre ++ ns) (count + total ns))
    unfolding edges_from read_edges total
    read_edges-edges_from whole pre [] count sized room live saved =
        let same : count ≡ count + 0 = omega arith in ap (λ c. go_on (loading (pre ++ []) c)) same
    read_edges-edges_from whole pre (n ∷ ns) count sized room live (here, saved) =
        let bares = map (bare fb laws) ns in
        let first =
          read_edges-all_edge_bytes pre n bares [] n.edges (total ns) count
            (edges_from fb (suc (length pre)) ns) sized (omega arith)
            (All-map _ _ (λ e h. (live e.to h.0, h.1, h.2)) n.edges here) in
        let moved : (xs : List (GraphNode F)) → (pre ++ n ∷ []) ++ xs ≡ pre ++ n ∷ xs =
          λ xs. append_assoc pre (n ∷ []) xs in
        let more : length (pre ++ n ∷ []) ≡ suc (length pre) =
          omega (arith, length-append pre (n ∷ [])) in
        let again =
          read_edges-edges_from whole (pre ++ n ∷ []) ns (count + length n.edges)
            (omega (
              arith,
              ap length (moved bares),
              length-append pre (n ∷ bares),
              length-append pre (bare fb laws n ∷ bares),
              sized,
            ))
            (omega arith)
            (λ v h.
              subst (λ xs. IsLive xs v) (sym (moved bares))
                (IsLive-middle pre n [] n.edges bares v (live v h)))
            saved in
        let summed : count + length n.edges + total ns ≡ count + (length n.edges + total ns) =
          omega arith in
        first
        ∙ (λ i.
            read_edges fb size (total ns) (edges_from fb (sym more i) ns)
              (loading (sym (moved bares) i) (count + length n.edges)))
        ∙ again
        ∙ (λ i. go_on (loading (moved ns i) (summed i)))
