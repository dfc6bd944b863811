-- ===== src/Graph/File/Stored.antt =====
-- gsc_graph_load after gsc_graph_save of code/gsc_graph.cpp, over a file system that stores what is written to it.
use Prim.Native.String.{String, len}
use zk_libcod.Prelude.{
  ℕ, suc, ◌+◌, ◌*◌, ◌^◌, ◌<◌, ◌≤◌, ◌≡◌, refl, sym, ap, subst, ◌∙◌, Bool, true, false, List, [], ◌∷◌,
  ◌++◌, some, arith, length, get_or, take, leb, ◌==◌,
}
use zk_libcod.Prelude.Int.{ℤ, pos, leb_ℤ, ltb_ℤ, eqb_ℤ_refl, signed32}
use zk_libcod.Float.{FloatOps}
use zk_libcod.Script.{
  integer, string, push_bool, push_int, stack_get_params, stack_get_params_from,
  stack_get_param_int, stack_get_param_string, optional_int,
}
use zk_libcod.Graph.{
  Graphs, AStarGraph, GraphNode, GraphEdge, Dvars, to_unsigned, graph_by_id, no_graph,
}
use zk_libcod.Graph.Reply.{answer, go_on, ◌>>=◌, ◌>>◌, or_return, return_if, settle}
use zk_libcod.Graph.Wellformed.{IsValid, total}
use zk_libcod.Graph.Registry.{lowest_free_id}
use zk_libcod.Graph.File.{
  FloatBits, FileSystem, bytes_of, node_bytes, edge_bytes, all_node_bytes, all_edge_bytes,
  edges_from, body_bytes, header_bytes, file_bytes, file_size, graph_max_path, save_file,
  save_arguments, save_from, gsc_graph_save, load_arguments, load_file, load_from, gsc_graph_load,
}
use zk_libcod.Graph.File.Bytes.{BitsLaws}
use zk_libcod.Graph.File.RoundTrip.{IsSavable, reloaded, load_buffer-file_bytes}

module _ {F : Type 0} (fb : FloatBits F) where
  length-all_node_bytes :
      (ns : List (GraphNode F)) (after : List ℕ)
      → length (all_node_bytes fb ns after) ≡ length ns * 20 + length after
  unfolding all_node_bytes node_bytes bytes_of
  length-all_node_bytes [] after = omega arith
  length-all_node_bytes (n ∷ ns) after = omega (arith, length-all_node_bytes ns after)

  length-all_edge_bytes :
      (i : ℕ) (es : List (GraphEdge F)) (after : List ℕ)
      → length (all_edge_bytes fb i es after) ≡ length es * 16 + length after
  unfolding all_edge_bytes edge_bytes bytes_of
  length-all_edge_bytes i [] after = omega arith
  length-all_edge_bytes i (e ∷ es) after = omega (arith, length-all_edge_bytes i es after)

take_all {ℓ} : {A : Type ℓ} (xs : List A) → take (length xs) xs ≡ xs
take_all [] = refl
take_all (x ∷ xs) = ap (λ ys. x ∷ ys) (take_all xs)

module _ {F : Type 0} ⦃fl : FloatOps F⦄ (fb : FloatBits F) (laws : BitsLaws fb) where
  length-edges_from :
      (i : ℕ) (ns : List (GraphNode F)) → length (edges_from fb i ns) ≡ total ns * 16
  unfolding edges_from total
  length-edges_from i [] = refl
  length-edges_from i (n ∷ ns) = omega (
    arith,
    length-all_edge_bytes fb i n.edges (edges_from fb (suc i) ns),
    length-edges_from (suc i) ns,
  )

  module _ (graph : AStarGraph F) (valid : IsValid graph) (savable : IsSavable fb laws graph) where
    abbrev size : ℕ
    size = file_size (length graph.nodes) graph.edge_count

    abbrev bytes : List ℕ
    bytes = file_bytes fb graph

    length-file_bytes : length bytes ≡ size
    unfolding file_bytes header_bytes body_bytes bytes_of
    length-file_bytes = omega (
      arith,
      length-all_node_bytes fb graph.nodes (edges_from fb 0 graph.nodes),
      length-edges_from 0 graph.nodes,
      valid.counted,
      savable.size,
    )

    small : size < 2 ^ 31
    small = omega (arith, valid.counted, savable.size)

    large : 20 ≤ size
    large = omega (arith, valid.counted, savable.size)

    module _ {S : Type 0} (fs : FileSystem S) (path : String) (s : S) where
      abbrev handle : ℕ
      handle = (fs.open_write path s).0

      abbrev saved : S
      saved = fs.close handle (fs.write bytes handle (fs.open_write path s).1).1

      -- The file opens, takes all bytes, and gives them back.
      pub record Stores : Type 0 where
        pub opens : (handle == 0) ≡ false
        pub takes : (fs.write bytes handle (fs.open_write path s).1).0 ≡ pos (length bytes)
        pub found : (fs.open_read path saved).0 ≡ pos (length bytes)
        pub gives :
            (fs.read (length bytes) (fs.open_read path saved).1 (fs.open_read path saved).2).0
            ≡ bytes
        pub all_given :
            (fs.read (length bytes) (fs.open_read path saved).1 (fs.open_read path saved).2).1
            ≡ pos (length bytes)

      module _ (alloc : ℕ → Bool) (room : alloc size ≡ true) (stores : Stores) where
        whole : take size bytes ≡ bytes
        whole = ap (λ n. take n bytes) (sym length-file_bytes) ∙ take_all bytes

        save_file-Stores : save_file fb fs alloc path graph s ≡ (saved, answer (push_bool true))
        unfolding save_file
        save_file-Stores =
            let fits : signed32 size ≡ pos size = ground (arith, small) in
            let all : (fs.write bytes handle (fs.open_write path s).1).0 ≡ pos size =
              stores.takes ∙ ap pos length-file_bytes in
            rw (room, stores.opens, whole, all, fits, eqb_ℤ_refl (pos size)) refl

        load_file-Stores : (load_file fb fs alloc path saved).1 ≡ go_on (size, bytes)
        unfolding load_file
        load_file-Stores =
            let found : (fs.open_read path saved).0 ≡ pos size =
              stores.found ∙ ap pos length-file_bytes in
            let gives =
              subst
                (λ n. (fs.read n (fs.open_read path saved).1 (fs.open_read path saved).2).0 ≡ bytes)
                length-file_bytes stores.gives in
            let given =
              subst
                (λ n. (fs.read n (fs.open_read path saved).1 (fs.open_read path saved).2).1 ≡ pos n)
                length-file_bytes stores.all_given in
            let there : leb_ℤ (pos size) (pos 0) ≡ false = ground (arith, large) in
            let enough : ltb_ℤ (pos size) (pos 20) ≡ false = ground (arith, large) in
            rw (found, there, enough, room, gives, given, eqb_ℤ_refl (pos size)) refl

  module _ {S : Type 0} (fs : FileSystem S) (alloc : ℕ → Bool) (path : String)
      (short : leb graph_max_path (len path) ≡ false) where
    save_arguments_lem :
        (gs : Graphs F) (id : ℤ) (g : ℕ)
        → graph_by_id gs id ≡ some g
        → save_arguments fb fs alloc gs (integer id ∷ string path ∷ [])
          ≡ go_on (path, get_or gs g no_graph)
    unfolding save_arguments ◌>>=◌ ◌>>◌ or_return return_if stack_get_params stack_get_params_from
        stack_get_param_int stack_get_param_string
    save_arguments_lem gs id g found = rw (short, found) refl

    load_arguments_lem : load_arguments fb fs alloc (string path ∷ []) ≡ go_on (path, false)
    unfolding load_arguments ◌>>=◌ ◌>>◌ or_return return_if stack_get_params stack_get_params_from
        stack_get_param_string optional_int
    load_arguments_lem = rw short refl

    -- A script that saves a well-formed graph to a path that is short enough, and then loads that path, gets true and
    -- the lowest free id, and has the graph twice: the new one has the same nodes and edges. The conditions are that the
    -- types are of type `int` and so is the size of the file, that there is memory for it, that the files of the engine
    -- give back what was written, and that the limits on nodes and on graphs leave room.
    pub gsc_graph_load-gsc_graph_save :
        (dvars : Dvars F) (gs : Graphs F) (id : ℤ) (g : ℕ) (s : S)
        → graph_by_id gs id ≡ some g
        → (valid : IsValid (get_or gs g no_graph))
        → (savable : IsSavable fb laws (get_or gs g no_graph))
        → alloc (size (get_or gs g no_graph) valid savable) ≡ true
        → Stores (get_or gs g no_graph) valid savable fs path s
        → length (get_or gs g no_graph).nodes ≤ to_unsigned dvars.max_nodes
        → leb_ℤ dvars.max_graphs (pos (length gs)) ≡ false
        → let (after, reply) = gsc_graph_save fb fs alloc gs (integer id ∷ string path ∷ []) s in
          (reply ≡ answer (push_bool true))
          × ((gsc_graph_load fb fs alloc dvars gs (string path ∷ []) after).1 ≡ (
            gs ++ reloaded fb laws (lowest_free_id gs) false (get_or gs g no_graph) ∷ [],
            answer (push_int (pos (lowest_free_id gs))),
          ))
    unfolding gsc_graph_save save_from gsc_graph_load load_from settle ◌>>=◌
    gsc_graph_load-gsc_graph_save dvars gs id g s found valid savable room stores cap limit =
        let graph = get_or gs g no_graph in
        let written = save_file-Stores graph valid savable fs path s alloc room stores in
        let read = load_file-Stores graph valid savable fs path s alloc room stores in
        let loaded = load_buffer-file_bytes fb laws dvars gs false graph valid savable cap limit in
        rw (save_arguments_lem gs id g found, load_arguments_lem, written, read, loaded)
          (refl, refl)
