-- ===== src/Graph/File.antt =====
-- graphCrc32, gsc_graph_save and gsc_graph_load of code/gsc_graph.cpp: the G2G1 file of a graph. The calls of the engine
-- on files, malloc and the bits of a float are parameters. Memory is a list of bytes, the low byte of a number first,
-- and the pointer `p` is what is left of the list.
pub mod Bytes
pub mod Keeps
pub mod Loops
pub mod RoundTrip
pub mod Contents
pub mod Buffer
pub mod Outcome
pub mod Stored
use Prim.Native.String.{String, len}
use zk_libcod.Prelude.{
  ℕ, zero, suc, ◌+◌, ◌-◌, ◌*◌, ◌/◌, ◌%◌, Bool, true, false, not, ◌||◌, List, [], ◌∷◌, ◌++◌, Option,
  none, some, ltb, leb, ◌==◌, if◌then◌else◌, length, take, drop, get_or, set, bit_and, bit_xor,
}
use zk_libcod.Prelude.Int.{ℤ, pos, pos_part, leb_ℤ, ltb_ℤ, eqb_ℤ, signed32}
use zk_libcod.Float.{FloatOps}
use zk_libcod.Script.{
  Value, int_param, string_param, stack_get_params, optional_int, push_undefined, push_bool,
  push_int,
}
use zk_libcod.Graph.{
  Graphs, AStarGraph, GraphNode, GraphEdge, Dvars, u32, to_unsigned, node_at, graph_by_id, no_graph,
  no_stats, no_scratch,
}
use zk_libcod.Graph.Registry.{lowest_free_id}
use zk_libcod.Graph.Reply.{
  Reply, Body, answer, refuse, go_on, return, ◌>>=◌, ◌>>◌, or_return, return_if, settle,
  bad_parameters, bad_type, no_such_graph, graph_limit, path_too_long, out_of_memory, cannot_open,
  too_small, short_read, bad_magic, bad_version, node_cap, edge_claim, size_mismatch, bad_checksum,
  edge_out_of_range, edge_at_removed,
}

-- A `float` as its 32 bits, which is how memcpy takes it.
pub record FloatBits (F : Type 0) : Type 0 where
  pub bits : F → ℕ
  pub of_bits : ℕ → F

-- FS_FOpenFileWrite, FS_Write, FS_FOpenFileByMode for reading, FS_Read and FS_FCloseFile on a state of their own.
pub record FileSystem (S : Type 0) : Type 0 where
  pub open_write : String → S → ℕ × S
  pub write : List ℕ → ℕ → S → ℤ × S
  pub open_read : String → S → ℤ × ℕ × S
  pub read : ℕ → ℕ → S → List ℕ × ℤ × S
  pub close : ℕ → S → S

-- GRAPH_MAX_PATH
abbrev pub graph_max_path : ℕ
graph_max_path = 64

-- The number in the first bytes at a pointer.
pub number : ℕ → List ℕ → ℕ
number zero p = 0
number (suc k) [] = 0
number (suc k) (b ∷ p) = b % 256 + 256 * number k p

pub bytes_of : ℕ → ℕ → List ℕ
bytes_of zero n = []
bytes_of (suc k) n = n % 256 ∷ bytes_of k (n / 256)

-- The inner loop of graphCrc32.
pub crc_bits : ℕ → ℕ → ℕ
crc_bits zero crc = crc
crc_bits (suc k) crc =
    crc_bits k (bit_xor (crc / 2) (bit_and 3988292384 ((u32 - bit_and crc 1) % u32)))

pub crc_bytes : List ℕ → ℕ → ℕ
unfolding crc_bits
crc_bytes [] crc = crc
crc_bytes (b ∷ bs) crc = crc_bytes bs (crc_bits 8 (bit_xor crc b))

-- `~crc` on 32 bits.
pub graph_crc32 : List ℕ → ℕ
unfolding crc_bytes
graph_crc32 bytes = u32 - 1 - crc_bytes bytes (u32 - 1)

-- "G2G1"
abbrev pub magic : List ℕ
magic = 71 ∷ 50 ∷ 71 ∷ 49 ∷ []

-- `memcmp(p, "G2G1", 4) == 0`
abbrev pub is_magic : List ℕ → Bool
is_magic p = number 4 p == number 4 magic

-- The size that gsc_graph_save works out, in a `size_t` of 32 bits.
abbrev pub file_size : ℕ → ℕ → ℕ
file_size node_count edge_count = (20 + node_count * 20 + edge_count * 16) % u32

module _ {F : Type 0} (fb : FloatBits F) where
  open fb use {bits, of_bits}

  pub node_bytes : GraphNode F → List ℕ → List ℕ
  unfolding bytes_of
  node_bytes n after =
      bytes_of 4 (bits n.origin.x)
      ++ bytes_of 4 (bits n.origin.y)
      ++ bytes_of 4 (bits n.origin.z)
      ++ bytes_of 4 (to_unsigned n.type)
      ++ bytes_of 4 (if n.removed then 1 else 0)
      ++ after

  pub edge_bytes : ℕ → GraphEdge F → List ℕ → List ℕ
  unfolding bytes_of
  edge_bytes from e after =
      bytes_of 4 from
      ++ bytes_of 4 e.to
      ++ bytes_of 4 (to_unsigned e.type)
      ++ bytes_of 4 (bits e.cost)
      ++ after

  -- The loops of gsc_graph_save, with what is written after them.
  pub all_node_bytes : List (GraphNode F) → List ℕ → List ℕ
  unfolding node_bytes
  all_node_bytes [] after = after
  all_node_bytes (n ∷ ns) after = node_bytes n (all_node_bytes ns after)

  pub all_edge_bytes : ℕ → List (GraphEdge F) → List ℕ → List ℕ
  unfolding edge_bytes
  all_edge_bytes from [] after = after
  all_edge_bytes from (e ∷ es) after = edge_bytes from e (all_edge_bytes from es after)

  pub edges_from : ℕ → List (GraphNode F) → List ℕ
  unfolding all_edge_bytes
  edges_from i [] = []
  edges_from i (n ∷ ns) = all_edge_bytes i n.edges (edges_from (suc i) ns)

  -- The bytes after the header.
  pub body_bytes : AStarGraph F → List ℕ
  unfolding all_node_bytes edges_from
  body_bytes graph = all_node_bytes graph.nodes (edges_from 0 graph.nodes)

  pub header_bytes : ℕ → ℕ → ℕ → List ℕ → List ℕ
  unfolding bytes_of
  header_bytes node_count edge_count crc after =
      magic
      ++ bytes_of 2 1
      ++ bytes_of 2 0
      ++ bytes_of 4 node_count
      ++ bytes_of 4 edge_count
      ++ bytes_of 4 crc
      ++ after

  -- The buffer that is written.
  pub file_bytes : AStarGraph F → List ℕ
  unfolding body_bytes header_bytes graph_crc32
  file_bytes graph =
      let size = file_size (length graph.nodes) graph.edge_count in
      let body = body_bytes graph in
      header_bytes (length graph.nodes) graph.edge_count (graph_crc32 (take (size - 20) body)) body

  pub read_node : List ℕ → GraphNode F
  unfolding number
  read_node p = record {
    origin = record {
      x = of_bits (number 4 p);
      y = of_bits (number 4 (drop 4 p));
      z = of_bits (number 4 (drop 8 p));
    };
    type = signed32 (number 4 (drop 12 p));
    removed = not (number 4 (drop 16 p) == 0);
    edges = [];
  }

  pub read_nodes : ℕ → List ℕ → List (GraphNode F)
  unfolding read_node
  read_nodes zero p = []
  read_nodes (suc k) p = read_node p ∷ read_nodes k (drop 20 p)

  pub read_edge : List ℕ → GraphEdge F
  unfolding number
  read_edge p = record {
    to = number 4 (drop 4 p);
    type = signed32 (number 4 (drop 8 p));
    cost = of_bits (number 4 (drop 12 p));
  }

module _ {F : Type 0} ⦃fl : FloatOps F⦄ (fb : FloatBits F) where
  -- `graph.nodes[from].edges.push_back(edge); graph.edgeCount++`
  pub store_edge : AStarGraph F → ℕ → GraphEdge F → AStarGraph F
  store_edge graph from edge =
      let n = node_at graph.nodes from in
      record graph {
        nodes = set graph.nodes from (record n { edges = n.edges ++ edge ∷ [] });
        edge_count = (graph.edge_count + 1) % u32;
      }

  -- The loop over the edges of the file.
  pub read_edges : ℕ → ℕ → List ℕ → AStarGraph F → Body F (AStarGraph F)
  unfolding number read_edge store_edge
  read_edges node_count zero p graph = go_on graph
  read_edges node_count (suc k) p graph = do
    let from = number 4 p
    let edge = read_edge fb p
    return_if (leb node_count from || leb node_count edge.to)
        (refuse edge_out_of_range push_undefined)
    return_if ((node_at graph.nodes from).removed || (node_at graph.nodes edge.to).removed)
        (refuse edge_at_removed push_undefined)
    read_edges node_count k (drop 16 p) (store_edge graph from edge)

  -- The graph before its edges are read.
  abbrev pub fresh_graph : ℕ → Bool → List (GraphNode F) → AStarGraph F
  fresh_graph id persist nodes = record {
    id = id;
    persist = persist;
    edge_count = 0;
    nodes = nodes;
    stats = no_stats;
    scratch = no_scratch;
    precomputes = [];
  }

  -- What gsc_graph_load does once the file is in the buffer, `size` bytes of it.
  pub load_buffer : Dvars F → Graphs F → Bool → ℕ → List ℕ → Body F (Graphs F × Reply F)
  unfolding graph_crc32 read_nodes read_edges
  load_buffer dvars gs persist size buffer = do
    return_if (not (is_magic buffer)) (refuse bad_magic push_undefined)
    let version = number 2 (drop 4 buffer)
    let node_count = number 4 (drop 8 buffer)
    let edge_count = number 4 (drop 12 buffer)
    let file_crc = number 4 (drop 16 buffer)
    let p = drop 20 buffer
    return_if (not (version == 1)) (refuse bad_version push_undefined)
    return_if (ltb (to_unsigned dvars.max_nodes) node_count) (refuse node_cap push_undefined)
    return_if (ltb ((size - 20) / 16) edge_count) (refuse edge_claim push_undefined)
    return_if (not (size == 20 + node_count * 20 + edge_count * 16))
        (refuse size_mismatch push_undefined)
    return_if (not (graph_crc32 (take (size - 20) p) == file_crc))
        (refuse bad_checksum push_undefined)
    return_if (leb_ℤ dvars.max_graphs (pos (length gs))) (refuse graph_limit push_undefined)
    let id = lowest_free_id gs
    graph ←
        read_edges node_count edge_count (drop (node_count * 20) p)
          (fresh_graph id persist (read_nodes fb node_count p))
    go_on (gs ++ graph ∷ [], answer (push_int (pos id)))

  module _ {S : Type 0} (fs : FileSystem S) (alloc : ℕ → Bool) where
    open fs use {open_write, write, open_read, read, close}

    -- The write of the file, once the arguments are known to be right.
    pub save_file : String → AStarGraph F → S → S × Reply F
    unfolding file_bytes
    save_file path graph s =
        let size = file_size (length graph.nodes) graph.edge_count in
        let (f, s1) = open_write path s in
        let (written, s2) = write (take size (file_bytes fb graph)) f s1 in
        if not (alloc size)
        then (s, refuse out_of_memory (push_bool false))
        else (if f == 0
            then (s1, refuse cannot_open (push_bool false))
            else (close f s2, answer (push_bool (eqb_ℤ written (signed32 size)))))

    pub save_arguments : Graphs F → List (Value F) → Body F (String × AStarGraph F)
    save_arguments gs args = do
      p ←
          or_return (stack_get_params (int_param ∷ string_param ∷ []) args)
            (refuse bad_parameters (push_bool false))
      return_if (leb graph_max_path (len p.1.0)) (refuse path_too_long (push_bool false))
      g ← or_return (graph_by_id gs p.0) (refuse no_such_graph (push_bool false))
      go_on (p.1.0, get_or gs g no_graph)

    -- The graphs are only read.
    pub save_from : S → Body F (String × AStarGraph F) → S × Reply F
    unfolding save_file
    save_from s (return r) = (s, r)
    save_from s (go_on (path, graph)) = save_file path graph s

    pub gsc_graph_save : Graphs F → List (Value F) → S → S × Reply F
    unfolding save_arguments save_from
    gsc_graph_save gs args s = save_from s (save_arguments gs args)

    pub load_arguments : List (Value F) → Body F (String × Bool)
    load_arguments args = do
      p ←
          or_return (stack_get_params (string_param ∷ []) args)
            (refuse bad_parameters push_undefined)
      persist ← or_return (optional_int args 1 (pos 0)) (refuse bad_type push_undefined)
      return_if (leb graph_max_path (len p.0)) (refuse path_too_long push_undefined)
      go_on (p.0, not (eqb_ℤ persist (pos 0)))

    -- The read of the file into the buffer. A file that is missing or empty is no error.
    pub load_file : String → S → S × Body F (ℕ × List ℕ)
    load_file path s =
        let (size, f, s1) = open_read path s in
        let (buffer, bytes_read, s2) = read (pos_part size) f s1 in
        if leb_ℤ size (pos 0)
        then (if f == 0 then s1 else close f s1, return (answer push_undefined))
        else (if ltb_ℤ size (pos 20)
            then (close f s1, return (refuse too_small push_undefined))
            else (if not (alloc (pos_part size))
                then (close f s1, return (refuse out_of_memory push_undefined))
                else (
                  close f s2,
                  if eqb_ℤ bytes_read size
                      then go_on (pos_part size, buffer)
                      else return (refuse short_read push_undefined),
                )))

    -- What follows the arguments, if they are right.
    pub load_from : Dvars F → Graphs F → S → Body F (String × Bool) → S × (Graphs F × Reply F)
    unfolding load_file load_buffer
    load_from dvars gs s (return r) = (s, (gs, r))
    load_from dvars gs s (go_on (path, persist)) =
        let (after, loaded) = load_file path s in
        (after, settle gs (loaded >>= λ got. load_buffer dvars gs persist got.0 got.1))

    pub gsc_graph_load : Dvars F → Graphs F → List (Value F) → S → S × (Graphs F × Reply F)
    unfolding load_arguments load_from
    gsc_graph_load dvars gs args s = load_from dvars gs s (load_arguments args)
