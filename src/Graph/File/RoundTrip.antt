-- ===== src/Graph/File/RoundTrip.antt =====
-- What gsc_graph_save of code/gsc_graph.cpp writes, gsc_graph_load reads back.
use zk_libcod.Prelude.{
  ℕ, ◌+◌, ◌-◌, ◌*◌, ◌/◌, ◌^◌, ◌<◌, ◌≤◌, ◌≡◌, refl, sym, ap, subst, ◌∙◌, Bool, true, false, List, [],
  ◌∷◌, ◌++◌, map, arith, length, take, drop, ltb, ◌==◌, length-map, get_or-map, All, Bool-cases,
  inl, inr,
}
use zk_libcod.Prelude.Int.{pos, leb_ℤ}
use zk_libcod.Float.{FloatOps}
use zk_libcod.Script.{push_int}
use zk_libcod.Graph.{Graphs, AStarGraph, GraphNode, GraphEdge, Dvars, to_unsigned, no_node}
use zk_libcod.Graph.Reply.{answer, go_on, ◌>>=◌, ◌>>◌, return_if}
use zk_libcod.Graph.Wellformed.{IsLive, IsSound, IsValid, total}
use zk_libcod.Graph.Registry.{lowest_free_id}
use zk_libcod.Graph.File.{
  FloatBits, number, bytes_of, edges_from, body_bytes, header_bytes, file_bytes, file_size,
  graph_crc32, is_magic, read_nodes, read_edges, fresh_graph, load_buffer,
}
use zk_libcod.Graph.File.Loops.{
  read_nodes-all_node_bytes, drop-all_node_bytes, read_edges-edges_from,
}
use zk_libcod.Graph.File.Bytes.{IsInt, BitsLaws, bare, number-bytes_of, graph_crc32-bound}

module _ {F : Type 0} ⦃fl : FloatOps F⦄ (fb : FloatBits F) (laws : BitsLaws fb) where
  -- A buffer that passes every test.
  load_buffer_lem :
      (dvars : Dvars F) (gs : Graphs F) (persist : Bool) (buffer p : List ℕ) (n e crc : ℕ)
      (graph : AStarGraph F)
      → is_magic buffer ≡ true
      → number 2 (drop 4 buffer) ≡ 1
      → number 4 (drop 8 buffer) ≡ n
      → number 4 (drop 12 buffer) ≡ e
      → number 4 (drop 16 buffer) ≡ crc
      → drop 20 buffer ≡ p
      → n ≤ to_unsigned dvars.max_nodes
      → graph_crc32 (take (20 + n * 20 + e * 16 - 20) p) ≡ crc
      → leb_ℤ dvars.max_graphs (pos (length gs)) ≡ false
      → read_edges fb n e
          (drop (n * 20) p)
          (fresh_graph fb (lowest_free_id gs) persist (read_nodes fb n p))
        ≡ go_on graph
      → load_buffer fb dvars gs persist (20 + n * 20 + e * 16) buffer
        ≡ go_on (gs ++ graph ∷ [], answer (push_int (pos (lowest_free_id gs))))
  unfolding load_buffer ◌>>◌ ◌>>=◌ return_if
  load_buffer_lem dvars gs persist buffer p n e crc graph starts version nodes edges sum rest cap
        same limit done =
      let known : (number 2 (drop 4 buffer) == 1) ≡ true = ground arith in
      let allowed : ltb (to_unsigned dvars.max_nodes) n ≡ false = ground arith in
      let claim : ltb ((20 + n * 20 + e * 16 - 20) / 16) e ≡ false = ground arith in
      let size : (20 + n * 20 + e * 16 == 20 + n * 20 + e * 16) ≡ true = ground arith in
      let intact : (graph_crc32 (take (20 + n * 20 + e * 16 - 20) p) == crc) ≡ true =
        ground arith in
      rw (starts, known, nodes, edges, sum, rest, allowed, claim, size, intact, limit, done) refl

  -- A graph whose types are of type `int`, and whose file is of a size that is an `int`.
  pub record IsSavable (graph : AStarGraph F) : Type 0 where
    pub node_types : All (λ n. IsInt n.type) graph.nodes
    pub edge_types : All (λ n. All (λ e. IsInt e.type) n.edges) graph.nodes
    pub size : 20 + length graph.nodes * 20 + total graph.nodes * 16 < 2 ^ 31

  -- The graph with other fields than those that are saved.
  abbrev pub reloaded : ℕ → Bool → AStarGraph F → AStarGraph F
  reloaded id persist graph = record (fresh_graph fb id persist graph.nodes) {
    edge_count = graph.edge_count;
  }

  edges_saved :
      (whole : List (GraphNode F)) (n : GraphNode F)
      → IsSound whole n
      → All (λ e. IsInt e.type) n.edges
      → All (λ e. IsLive whole e.to × IsInt e.type × (n.removed ≡ false)) n.edges
  edges_saved whole n sound typed = elim (Bool-cases n.removed) [
    | inl gone ↦
        subst (All (λ e. IsLive whole e.to × IsInt e.type × (n.removed ≡ false)))
          (sym (sound.buried gone)) tt
    | inr kept ↦ saved n.edges sound.targets typed kept
  ]
    where
      saved :
          (es : List (GraphEdge F))
          → All (λ e. IsLive whole e.to) es
          → All (λ e. IsInt e.type) es
          → n.removed ≡ false
          → All (λ e. IsLive whole e.to × IsInt e.type × (n.removed ≡ false)) es
      saved [] ls ts kept = tt
      saved (e ∷ es) (l, ls) (t, ts) kept = ((l, t, kept), saved es ls ts kept)

  all_edges_saved :
      (whole ns : List (GraphNode F))
      → All (IsSound whole) ns
      → All (λ n. All (λ e. IsInt e.type) n.edges) ns
      → All (λ n. All (λ e. IsLive whole e.to × IsInt e.type × (n.removed ≡ false)) n.edges) ns
  all_edges_saved whole [] ss ts = tt
  all_edges_saved whole (n ∷ ns) (s, ss) (t, ts) =
      (edges_saved whole n s t, all_edges_saved whole ns ss ts)

  IsLive-bare : (ns : List (GraphNode F)) (v : ℕ) → IsLive ns v → IsLive (map (bare fb laws) ns) v
  IsLive-bare ns v live = (
    omega (arith, length-map ns (bare fb laws), live.0),
    ap (λ (x : GraphNode F). x.removed) (get_or-map (bare fb laws) ns v no_node no_node live.0)
        ∙ live.1,
  )

  module _ (dvars : Dvars F) (gs : Graphs F) (persist : Bool) (graph : AStarGraph F)
      (valid : IsValid graph) (savable : IsSavable graph) where
    abbrev node_count : ℕ
    node_count = length graph.nodes

    counted : graph.edge_count ≡ total graph.nodes
    counted = omega (arith, valid.counted, savable.size)

    sized : file_size node_count graph.edge_count ≡ 20 + node_count * 20 + graph.edge_count * 16
    sized = omega (arith, counted, savable.size)

    body_read :
        read_edges fb node_count graph.edge_count (drop (node_count * 20) (body_bytes fb graph)) (
          fresh_graph fb
            (lowest_free_id gs)
            persist
            (read_nodes fb node_count (body_bytes fb graph)))
        ≡ go_on (reloaded (lowest_free_id gs) persist graph)
    unfolding body_bytes
    body_read =
        let edges = edges_from fb 0 graph.nodes in
        let back : 0 + total graph.nodes ≡ graph.edge_count = omega (arith, counted) in
        let nodes_back = read_nodes-all_node_bytes fb laws graph.nodes edges savable.node_types in
        let skipped = drop-all_node_bytes fb laws graph.nodes edges in
        let edges_back =
          read_edges-edges_from fb laws (lowest_free_id gs) persist node_count
            (omega (arith, savable.size)) graph.nodes [] graph.nodes 0
            (length-map graph.nodes (bare fb laws)) (omega (arith, savable.size))
            (IsLive-bare graph.nodes)
            (all_edges_saved graph.nodes graph.nodes valid.sound savable.edge_types) in
        (λ i.
          read_edges fb node_count (counted i) (skipped i)
            (fresh_graph fb (lowest_free_id gs) persist (nodes_back i)))
        ∙ edges_back
        ∙ (λ i. go_on (record (fresh_graph fb (lowest_free_id gs) persist graph.nodes) {
          edge_count = back i;
        }))

    -- What gsc_graph_save writes of a well-formed graph, gsc_graph_load reads back: where the types are of type `int`
    -- and the file's size is one too, and the limits on nodes and on graphs leave room, the load adds a graph with the
    -- same nodes, edges in the same order, and edge counter, under the lowest free id, and answers with that id.
    pub load_buffer-file_bytes :
        node_count ≤ to_unsigned dvars.max_nodes
        → leb_ℤ dvars.max_graphs (pos (length gs)) ≡ false
        → load_buffer fb dvars gs persist
            (file_size node_count graph.edge_count)
            (file_bytes fb graph)
          ≡ go_on (
            gs ++ reloaded (lowest_free_id gs) persist graph ∷ [],
            answer (push_int (pos (lowest_free_id gs))),
          )
    unfolding file_bytes header_bytes bytes_of number
    load_buffer-file_bytes cap limit =
        let buffer = file_bytes fb graph in
        let body = body_bytes fb graph in
        let crc = graph_crc32 (take (file_size node_count graph.edge_count - 20) body) in
        ap (λ size. load_buffer fb dvars gs persist size buffer) sized
        ∙ load_buffer_lem dvars gs persist buffer body node_count graph.edge_count crc
            (reloaded (lowest_free_id gs) persist graph) refl refl
            (number-bytes_of 4 node_count (drop 12 buffer) (omega (arith, savable.size)))
            (number-bytes_of 4 graph.edge_count (drop 16 buffer)
              (omega (arith, counted, savable.size)))
            (number-bytes_of 4 crc body
              (graph_crc32-bound (take (file_size node_count graph.edge_count - 20) body)))
            refl cap (ap (λ size. graph_crc32 (take (size - 20) body)) (sym sized)) limit body_read
