-- ===== src/Graph/File/Buffer.antt =====
-- What gsc_graph_load of code/gsc_graph.cpp makes of the bytes of any file, right or wrong, once they are in its
-- buffer.
use zk_libcod.Prelude.{
  ℕ, ◌+◌, ◌-◌, ◌*◌, ◌/◌, ◌%◌, ◌≤◌, ◌<◌, ◌≡◌, ◌≢◌, ap, ◌∙◌, Bool, true, false, not, ltb, ◌==◌, List,
  [], ◌∷◌, ◌++◌, arith, length, drop, take,
}
use zk_libcod.Prelude.Int.{pos, leb_ℤ}
use zk_libcod.Float.{FloatOps}
use zk_libcod.Script.{push_undefined, push_int}
use zk_libcod.Graph.{Graphs, AStarGraph, GraphNode, Dvars, u32, to_unsigned, node_at}
use zk_libcod.Graph.Reply.{
  Reply, answer, refuse, graph_limit, bad_magic, bad_version, node_cap, edge_claim, size_mismatch,
  bad_checksum,
}
use zk_libcod.Graph.Registry.{lowest_free_id}
use zk_libcod.Graph.File.{
  FloatBits, is_magic, number, graph_crc32, read_node, read_nodes, read_edges, fresh_graph,
  load_buffer,
}
use zk_libcod.Graph.File.Contents.{
  EndsIn, guard_ends, bind_ends, Fits, edges_of, HasUnfit, Stores, length-read_nodes,
  node_at-read_nodes, read_edges_ends,
}

-- What the tests say.
if_not : (b : Bool) → not b ≡ true → b ≡ false
if_not b e = ground arith

unless_not : (b : Bool) → not b ≡ false → b ≡ true
unless_not b e = ground arith

differs : (a b : ℕ) → not (a == b) ≡ true → a ≢ b
differs a b e same = ground arith

agrees : (a b : ℕ) → not (a == b) ≡ false → a ≡ b
agrees a b e = ground arith

below : (a b : ℕ) → ltb a b ≡ true → a < b
below a b e = ground arith

at_most : (a b : ℕ) → ltb a b ≡ false → b ≤ a
at_most a b e = ground arith

-- The parts of a file: its counts, the bytes of its nodes, and those of its edges.
abbrev pub node_count : List ℕ → ℕ
node_count buffer = number 4 (drop 8 buffer)

abbrev pub edge_count : List ℕ → ℕ
edge_count buffer = number 4 (drop 12 buffer)

abbrev pub node_part : List ℕ → List ℕ
node_part buffer = drop 20 buffer

abbrev pub edge_part : List ℕ → List ℕ
edge_part buffer = drop (node_count buffer * 20) (node_part buffer)

module _ {F : Type 0} (fb : FloatBits F) where
  -- The node `u` of the file, which has no edges yet.
  abbrev pub stored_node : List ℕ → ℕ → GraphNode F
  stored_node buffer u = read_node fb (drop (u * 20) (node_part buffer))

  abbrev pub is_stored_removed : List ℕ → ℕ → Bool
  is_stored_removed buffer u = (stored_node buffer u).removed

module _ {F : Type 0} ⦃fl : FloatOps F⦄ (fb : FloatBits F) (dvars : Dvars F) (gs : Graphs F)
    (size : ℕ) (buffer : List ℕ) where
  -- A file of the format, that is whole and within the limits.
  pub record Passes : Type 0 where
    pub magic_there : is_magic buffer ≡ true
    pub version_one : number 2 (drop 4 buffer) ≡ 1
    pub nodes_allowed : node_count buffer ≤ to_unsigned dvars.max_nodes
    pub exact : size ≡ 20 + node_count buffer * 20 + edge_count buffer * 16
    pub checked : graph_crc32 (take (size - 20) (node_part buffer)) ≡ number 4 (drop 16 buffer)
    pub room : leb_ℤ dvars.max_graphs (pos (length gs)) ≡ false
    pub fits :
        (j : ℕ)
        → j < edge_count buffer
        → Fits (node_count buffer) (is_stored_removed fb buffer) (drop (j * 16) (edge_part buffer))

  -- A graph that is what the file says: its nodes, and for each the edges that start there, in the order of the file.
  pub record Holds (persist : Bool) (graph : AStarGraph F) : Type 0 where
    pub id : graph.id ≡ lowest_free_id gs
    pub flag : graph.persist ≡ persist
    pub no_trees : graph.precomputes ≡ []
    pub counted : graph.edge_count ≡ edge_count buffer % u32
    pub sized : length graph.nodes ≡ node_count buffer
    pub nodes :
        (u : ℕ)
        → u < node_count buffer
        → node_at graph.nodes u ≡ record (stored_node fb buffer u) {
          edges = edges_of fb u (edge_count buffer) (edge_part buffer);
        }

  -- Why a file is refused.
  pub data Faulty : Reply F → Type 0 where
    no_magic : is_magic buffer ≡ false → Faulty (refuse bad_magic push_undefined)
    other_version : number 2 (drop 4 buffer) ≢ 1 → Faulty (refuse bad_version push_undefined)
    many_nodes :
        to_unsigned dvars.max_nodes < node_count buffer → Faulty (refuse node_cap push_undefined)
    many_edges : (size - 20) / 16 < edge_count buffer → Faulty (refuse edge_claim push_undefined)
    other_size :
        size ≢ 20 + node_count buffer * 20 + edge_count buffer * 16
        → Faulty (refuse size_mismatch push_undefined)
    other_checksum :
        graph_crc32 (take (size - 20) (node_part buffer)) ≢ number 4 (drop 16 buffer)
        → Faulty (refuse bad_checksum push_undefined)
    no_room :
        leb_ℤ dvars.max_graphs (pos (length gs)) ≡ true → Faulty (refuse graph_limit push_undefined)
    bad_edge :
        (r : Reply F)
        → HasUnfit fb
            (node_count buffer)
            (is_stored_removed fb buffer)
            (edge_count buffer)
            (edge_part buffer)
            r
        → Faulty r

  -- The graph is added at the end.
  pub data Loads (persist : Bool) : Graphs F × Reply F → Type 0 where
    loads :
        (graph : AStarGraph F)
        → Passes
        → Holds persist graph
        → Loads persist (gs ++ graph ∷ [], answer (push_int (pos (lowest_free_id gs))))

module _ {F : Type 0} ⦃fl : FloatOps F⦄ (fb : FloatBits F) (dvars : Dvars F) (gs : Graphs F)
    (size : ℕ) (buffer : List ℕ) (persist : Bool) where
  abbrev before_edges : AStarGraph F
  before_edges =
      fresh_graph fb (lowest_free_id gs) persist
        (read_nodes fb (node_count buffer) (node_part buffer))

  Stores-Holds :
      (after : AStarGraph F)
      → Stores fb
          (node_count buffer)
          (is_stored_removed fb buffer)
          (edge_count buffer)
          (edge_part buffer)
          before_edges
          after
      → Holds fb dvars gs size buffer persist after
  unfolding read_node
  Stores-Holds after s = record {
    id = ap (λ (g : AStarGraph F). g.id) s.untouched;
    flag = ap (λ (g : AStarGraph F). g.persist) s.untouched;
    no_trees = ap (λ (g : AStarGraph F). g.precomputes) s.untouched;
    counted = omega (arith, s.counted);
    sized = s.sized;
    nodes = λ u inside.
        s.nodes u inside
        ∙ ap
            (λ (m : GraphNode F). record m {
              edges = m.edges ++ edges_of fb u (edge_count buffer) (edge_part buffer);
            })
            (node_at-read_nodes fb (node_count buffer) (node_part buffer) u inside);
  }

  edges_end :
      EndsIn
        (Stores fb
          (node_count buffer)
          (is_stored_removed fb buffer)
          (edge_count buffer)
          (edge_part buffer)
          before_edges)
        (HasUnfit fb
          (node_count buffer)
          (is_stored_removed fb buffer)
          (edge_count buffer)
          (edge_part buffer))
        (read_edges fb (node_count buffer) (edge_count buffer) (edge_part buffer) before_edges)
  edges_end =
      read_edges_ends fb (node_count buffer) (is_stored_removed fb buffer) (edge_count buffer)
        (edge_part buffer) before_edges
        (length-read_nodes fb (node_count buffer) (node_part buffer)) (omega arith)
        (λ u h.
          ap (λ (m : GraphNode F). m.removed)
            (node_at-read_nodes fb (node_count buffer) (node_part buffer) u h))

  pub load_buffer_ends :
      EndsIn
        (Loads fb dvars gs size buffer persist)
        (Faulty fb dvars gs size buffer)
        (load_buffer fb dvars gs persist size buffer)
  unfolding load_buffer
  load_buffer_ends =
      guard_ends _ _ _ _ _ (λ e. no_magic (if_not _ e))
        λ magic_there.
          guard_ends _ _ _ _ _ (λ e. other_version (differs _ _ e))
            λ version_one.
              guard_ends _ _ _ _ _ (λ e. many_nodes (below _ _ e))
                λ nodes_allowed.
                  guard_ends _ _ _ _ _ (λ e. many_edges (below _ _ e))
                    λ edges_allowed.
                      guard_ends _ _ _ _ _ (λ e. other_size (differs _ _ e))
                        λ exact.
                          guard_ends _ _ _ _ _ (λ e. other_checksum (differs _ _ e))
                            λ checked.
                              guard_ends _ _ _ _ _ (λ e. no_room e)
                                λ room.
                                  bind_ends _ _ _ _ _ _ edges_end
                                    (λ graph s.
                                      loads graph
                                        (record {
                                          magic_there = unless_not _ magic_there;
                                          version_one = agrees _ _ version_one;
                                          nodes_allowed = at_most _ _ nodes_allowed;
                                          exact = agrees _ _ exact;
                                          checked = agrees _ _ checked;
                                          room = room;
                                          fits = s.fits;
                                        })
                                        (Stores-Holds graph s))
                                    bad_edge
