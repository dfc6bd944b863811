-- ===== src/Graph/File/Outcome.antt =====
-- gsc_graph_load of code/gsc_graph.cpp as a whole, for any parameters and any file.
use Prim.Native.String.{String, len}
use zk_libcod.Prelude.{
  ℕ, ◌≡◌, ◌<◌, ◌≤◌, refl, Bool, true, false, not, Bool-cases, inl, inr, arith, none, some, List, [],
  ◌∷◌, ◌++◌,
}
use zk_libcod.Prelude.Int.{ℤ, pos, negsuc, pos_part, leb_ℤ, ltb_ℤ, eqb_ℤ, eqb_ℤ→eq}
use zk_libcod.Float.{FloatOps}
use zk_libcod.Script.{Value, string_param, stack_get_params, optional_int, push_undefined, push_int}
use zk_libcod.Graph.{Graphs, AStarGraph, Dvars}
use zk_libcod.Graph.Reply.{
  Reply, Body, answer, refuse, go_on, return, settle, bad_parameters, bad_type, path_too_long,
  too_small, out_of_memory, short_read,
}
use zk_libcod.Graph.Registry.{lowest_free_id}
use zk_libcod.Graph.File.{
  FloatBits, FileSystem, graph_max_path, load_buffer, load_file, load_arguments, load_from,
  gsc_graph_load,
}
use zk_libcod.Graph.File.Contents.{EndsIn, EndsIn-map, guard_ends, bind_ends, or_return_ends}
use zk_libcod.Graph.File.Buffer.{Passes, Holds, Faulty, Loads, loads, load_buffer_ends}

module _ {F : Type 0} ⦃fl : FloatOps F⦄ (args : List (Value F)) where
  -- The path and the flag to persist that the parameters give.
  pub data Asks : String × Bool → Type 0 where
    asks :
        (path : String × Unit {0}) (flag : ℤ)
        → stack_get_params (string_param ∷ []) args ≡ some path
        → optional_int args 1 (pos 0) ≡ some flag
        → len path.0 < graph_max_path
        → Asks (path.0, not (eqb_ℤ flag (pos 0)))

  -- Why parameters are refused.
  pub data BadCall : Reply F → Type 0 where
    no_path :
        stack_get_params (string_param ∷ []) args ≡ none
        → BadCall (refuse bad_parameters push_undefined)
    no_flag : optional_int args 1 (pos 0) ≡ none → BadCall (refuse bad_type push_undefined)
    long_path :
        (path : String × Unit {0})
        → stack_get_params (string_param ∷ []) args ≡ some path
        → graph_max_path ≤ len path.0
        → BadCall (refuse path_too_long push_undefined)

module _ {S : Type 0} (fs : FileSystem S) (alloc : ℕ → Bool) (path : String) (s : S) where
  -- What opening the file says of its size.
  abbrev pub said_size : ℤ
  said_size = (fs.open_read path s).0

  -- The read of as many bytes as that.
  abbrev pub read_back : List ℕ × ℤ × S
  read_back = fs.read (pos_part said_size) (fs.open_read path s).1 (fs.open_read path s).2

  -- The whole file is in the buffer.
  pub record Reads (got : ℕ × List ℕ) : Type 0 where
    pub size : said_size ≡ pos got.0
    pub large : 20 ≤ got.0
    pub memory : alloc got.0 ≡ true
    pub bytes : got.1 ≡ read_back.0
    pub whole : read_back.1 ≡ said_size

  -- Why it is not. A file that is missing or empty is no error.
  pub data Unread {F : Type 0} : Reply F → Type 0 where
    missing : leb_ℤ said_size (pos 0) ≡ true → Unread (answer push_undefined)
    small :
        leb_ℤ said_size (pos 0) ≡ false
        → ltb_ℤ said_size (pos 20) ≡ true
        → Unread (refuse too_small push_undefined)
    no_memory :
        ltb_ℤ said_size (pos 20) ≡ false
        → alloc (pos_part said_size) ≡ false
        → Unread (refuse out_of_memory push_undefined)
    short :
        ltb_ℤ said_size (pos 20) ≡ false
        → eqb_ℤ read_back.1 said_size ≡ false
        → Unread (refuse short_read push_undefined)

module _ {F : Type 0} ⦃fl : FloatOps F⦄ (fb : FloatBits F) {S : Type 0} (fs : FileSystem S)
    (alloc : ℕ → Bool) where
  -- What a load comes to: a graph more, or the graphs as they were and the reason.
  pub data IsLoad (dvars : Dvars F) (gs : Graphs F) (args : List (Value F)) (s : S)
      : Graphs F × Reply F → Type 0 where
    loaded :
        (path : String) (persist : Bool) (size : ℕ) (buffer : List ℕ) (graph : AStarGraph F)
        → Asks args (path, persist)
        → Reads fs alloc path s (size, buffer)
        → Passes fb dvars gs size buffer
        → Holds fb dvars gs size buffer persist graph
        → IsLoad dvars gs args s (gs ++ graph ∷ [], answer (push_int (pos (lowest_free_id gs))))
    bad_call : (r : Reply F) → BadCall args r → IsLoad dvars gs args s (gs, r)
    unread :
        (path : String) (persist : Bool) (r : Reply F)
        → Asks args (path, persist)
        → Unread fs alloc path s r
        → IsLoad dvars gs args s (gs, r)
    faulty :
        (path : String) (persist : Bool) (size : ℕ) (buffer : List ℕ) (r : Reply F)
        → Asks args (path, persist)
        → Reads fs alloc path s (size, buffer)
        → Faulty fb dvars gs size buffer r
        → IsLoad dvars gs args s (gs, r)

  large_size : (n : ℤ) → ltb_ℤ n (pos 20) ≡ false → (n ≡ pos (pos_part n)) × (20 ≤ pos_part n)
  large_size (pos n) e = (refl, ground arith)
  large_size (negsuc n) e = absurd (ground arith)

  load_file_ends :
      (path : String) (s : S)
      → EndsIn (Reads fs alloc path s) (Unread fs alloc path s) (load_file fb fs alloc path s).1
  unfolding load_file
  load_file_ends path s =
      let size = said_size fs alloc path s in
      elim (Bool-cases (leb_ℤ size (pos 0))) [
        | inl empty ↦ rw empty (missing empty)
        | inr there ↦ elim (Bool-cases (ltb_ℤ size (pos 20))) [
          | inl tiny ↦ rw (there, tiny) (small there tiny)
          | inr large ↦ elim (Bool-cases (alloc (pos_part size))) [
            | inr full ↦ rw (there, large, full) (no_memory large full)
            | inl room ↦ elim (Bool-cases (eqb_ℤ (read_back fs alloc path s).1 size)) [
              | inl whole ↦
                  rw (there, large, room, whole)
                    (record {
                      size = (large_size size large).0;
                      large = (large_size size large).1;
                      memory = room;
                      bytes = refl;
                      whole = eqb_ℤ→eq _ _ whole;
                    })
              | inr cut ↦ rw (there, large, room, cut) (short large cut)
            ]
          ]
        ]
      ]

  load_arguments_ends :
      (args : List (Value F)) → EndsIn (Asks args) (BadCall args) (load_arguments fb fs alloc args)
  unfolding load_arguments
  load_arguments_ends args = or_return_ends _ _ _ _ _ no_path λ path given.
      or_return_ends _ _ _ _ _ no_flag λ flag read.
        guard_ends _ _ _ _ _ (λ e. long_path path given (ground arith))
          (λ e. asks path flag given read (ground arith))

  module _ (dvars : Dvars F) (gs : Graphs F) (args : List (Value F)) (s : S) where
    settle-IsLoad :
        (m : Body F (Graphs F × Reply F))
        → EndsIn (IsLoad dvars gs args s) (λ r. IsLoad dvars gs args s (gs, r)) m
        → IsLoad dvars gs args s (settle gs m)
    unfolding settle
    settle-IsLoad (go_on done) h = h
    settle-IsLoad (return r) h = h

    Loads-IsLoad :
        (path : String) (persist : Bool) (size : ℕ) (buffer : List ℕ)
        → Asks args (path, persist)
        → Reads fs alloc path s (size, buffer)
        → (done : Graphs F × Reply F) → Loads fb dvars gs size buffer persist done
        → IsLoad dvars gs args s done
    Loads-IsLoad path persist size buffer asked got done (loads graph passes holds) =
        loaded path persist size buffer graph asked got passes holds

    load_from-IsLoad :
        (m : Body F (String × Bool))
        → EndsIn (Asks args) (BadCall args) m
        → IsLoad dvars gs args s (load_from fb fs alloc dvars gs s m).1
    unfolding load_from
    load_from-IsLoad (return r) bad = bad_call r bad
    load_from-IsLoad (go_on (path, persist)) asked = settle-IsLoad _ (
        bind_ends _ _ _ _ _ _ (load_file_ends path s)
          (λ got read.
            EndsIn-map _ _ (Faulty fb dvars gs got.0 got.1) (λ r. IsLoad dvars gs args s (gs, r))
              (load_buffer fb dvars gs persist got.0 got.1)
              (Loads-IsLoad path persist got.0 got.1 asked read)
              (λ r bad. faulty path persist got.0 got.1 r asked read bad)
              (load_buffer_ends fb dvars gs got.0 got.1 persist))
          (λ r bad. unread path persist r asked bad))

    -- Whatever the parameters are and whatever the engine hands over as the file, gsc_graph_load does one of four
    -- things. It adds one graph at the end and answers with its id, the lowest that is free: then the parameters give
    -- a path and a flag to persist, the file was read whole into the buffer, it has the magic, the version, the size
    -- that its counts give, the checksum that it stores, no more nodes than the server allows and no record of an edge
    -- with an end that is out of range or removed, the limit of graphs is not reached, and the graph is what the file
    -- holds, node for node, each with exactly the edges of the records that start there, in their order. Or it leaves
    -- the graphs exactly as they were: the parameters are refused; or the file could not be read, which is answered
    -- with undefined and no error where its size is not above zero, and with the error where it is under 20 bytes,
    -- memory is short, or the read is short; or the file is refused, with the error of a test of the format, of a limit
    -- or of an edge that it fails.
    pub gsc_graph_load-IsLoad :
        IsLoad dvars gs args s (gsc_graph_load fb fs alloc dvars gs args s).1
    unfolding gsc_graph_load
    gsc_graph_load-IsLoad = load_from-IsLoad _ (load_arguments_ends args)
