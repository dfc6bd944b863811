-- ===== src/Graph/File/Keeps.antt =====
-- gsc_graph_load of code/gsc_graph.cpp builds a well-formed graph or none, whatever the bytes of the file are.
use Prim.Native.String.{String}
use zk_libcod.Prelude.{
  ℕ, zero, suc, ◌≡◌, refl, ◌∙◌, Bool, true, false, List, [], ◌∷◌, ◌++◌, arith, length, drop,
  length-set, length-append, All, All-append, All-get_or,
}
use zk_libcod.Float.{FloatOps}
use zk_libcod.Script.{Value}
use zk_libcod.Graph.{Graphs, AStarGraph, GraphNode, GraphEdge, Dvars, node_at}
use zk_libcod.Graph.Reply.{
  Reply, Body, go_on, return, ◌>>=◌, ◌>>◌, return_if, Keeps, ends, returns, after_return_if,
  settle-Keeps,
}
use zk_libcod.Graph.Wellformed.{
  IsLive, IsSound, IsValid, set-IsSound, total, total-set, no_scratch-IsScratch,
}
use zk_libcod.Graph.World.{IsWorld}
use zk_libcod.Graph.Registry.{lowest_free_id}
use zk_libcod.Graph.Registry.Ids.{HasDistinctIds-append, lowest_free_id_lem}
use zk_libcod.Graph.Lookup.{graph_by_id-none}
use zk_libcod.Graph.File.{
  FloatBits, FileSystem, number, read_node, read_nodes, read_edge, read_edges, store_edge,
  fresh_graph, load_buffer, load_from, gsc_graph_load,
}

module _ {F : Type 0} ⦃fl : FloatOps F⦄ (fb : FloatBits F) where
  -- Nodes without edges.
  read_nodes-IsSound :
      (k : ℕ) (p : List ℕ) (nodes : List (GraphNode F))
      → All (IsSound nodes) (read_nodes fb k p) × (total (read_nodes fb k p) ≡ 0)
  unfolding read_nodes read_node total
  read_nodes-IsSound zero p nodes = (tt, refl)
  read_nodes-IsSound (suc k) p nodes =
      let (sound, none_there) = read_nodes-IsSound k (drop 20 p) nodes in
      ((record { targets = tt; buried = λ h. refl }, sound), omega (arith, none_there))

  fresh_graph-IsValid :
      (id : ℕ) (persist : Bool) (k : ℕ) (p : List ℕ)
      → IsValid (fresh_graph fb id persist (read_nodes fb k p))
  fresh_graph-IsValid id persist k p =
      let nodes = read_nodes fb k p in
      record {
        sound = (read_nodes-IsSound k p nodes).0;
        counted = rw (read_nodes-IsSound k p nodes).1 refl;
        scratch_ok = no_scratch-IsScratch (length nodes);
        cache_size = omega arith;
        fresh = tt;
      }

  -- What the loop over the edges keeps.
  record Loaded (id size : ℕ) (graph : AStarGraph F) : Type 0 where
    valid : IsValid graph
    same_id : graph.id ≡ id
    same_size : length graph.nodes ≡ size
    cold : graph.precomputes ≡ []

  length-read_nodes : (k : ℕ) (p : List ℕ) → length (read_nodes fb k p) ≡ k
  unfolding read_nodes
  length-read_nodes zero p = refl
  length-read_nodes (suc k) p = omega (arith, length-read_nodes k (drop 20 p))

  store_edge-IsValid :
      (g : AStarGraph F) (u : ℕ) (e : GraphEdge F)
      → IsValid g
      → g.precomputes ≡ []
      → IsLive g.nodes u
      → IsLive g.nodes e.to
      → IsValid (store_edge fb g u e)
  unfolding store_edge
  store_edge-IsValid g u e v cold live there =
      let old = node_at g.nodes u in
      let n : GraphNode F = record old { edges = old.edges ++ e ∷ [] } in
      let targets =
        All-append _ old.edges (e ∷ []) (All-get_or _ g.nodes u _ v.sound live.0).targets
          (there, tt) in
      record {
        sound =
            set-IsSound g.nodes u n live.0 refl (record { targets = targets; buried = λ h. cc })
              v.sound;
        counted =
            omega
              (arith, v.counted, total-set g.nodes u n live.0, length-append old.edges (e ∷ []));
        scratch_ok = rw length-set v.scratch_ok;
        cache_size = rw cold (omega arith);
        fresh = rw cold tt;
      }

  stored :
      (id size : ℕ) (g : AStarGraph F) (u : ℕ) (e : GraphEdge F)
      → Loaded id size g
      → IsLive g.nodes u
      → IsLive g.nodes e.to
      → Loaded id size (store_edge fb g u e)
  unfolding store_edge
  stored id size g u e l live there = record {
    valid = store_edge-IsValid g u e l.valid l.cold live there;
    same_id = l.same_id;
    same_size = length-set g.nodes u _ ∙ l.same_size;
    cold = l.cold;
  }

  -- What a body that comes to its end has built.
  Builds : (AStarGraph F → Type 0) → Body F (AStarGraph F) → Type 0
  Builds P (go_on g) = P g
  Builds P (return r) = Unit {0}

  after_guard :
      (P : AStarGraph F → Type 0) (b : Bool) (r : Reply F) (m : Body F (AStarGraph F))
      → (b ≡ false → Builds P m)
      → Builds P (return_if b r >> m)
  unfolding ◌>>◌ ◌>>=◌ return_if Builds
  after_guard P true r m k = tt
  after_guard P false r m k = k refl

  read_edges-Loaded :
      (id size k : ℕ) (p : List ℕ) (g : AStarGraph F)
      → Loaded id size g
      → Builds (Loaded id size) (read_edges fb size k p g)
  unfolding read_edges Builds
  read_edges-Loaded id size zero p g l = l
  read_edges-Loaded id size (suc k) p g l = after_guard _ _ _ _ λ inside.
      after_guard _ _ _ _ λ alive.
        let u = number 4 p in
        let e = read_edge fb p in
        let live : IsLive g.nodes u = (ground (arith, l.same_size), ground arith) in
        let there : IsLive g.nodes e.to = (ground (arith, l.same_size), ground arith) in
        read_edges-Loaded id size k (drop 16 p) (store_edge fb g u e)
          (stored id size g u e l live there)

  -- The graph that was built, after a guard of the loop and in what follows it.
  after_build :
      (P : Graphs F → Type 0) (Q : AStarGraph F → Type 0) (m : Body F (AStarGraph F))
      (f : AStarGraph F → Body F (Graphs F × Reply F))
      → Builds Q m
      → ((g : AStarGraph F) → Q g → Keeps P (f g))
      → Keeps P (m >>= f)
  unfolding Builds ◌>>=◌
  after_build P Q (go_on g) f b k = k g b
  after_build P Q (return r) f b k = returns r

  module _ (gs : Graphs F) (world : IsWorld gs) (dvars : Dvars F) where
    load_buffer-Keeps :
        (persist : Bool) (size : ℕ) (buffer : List ℕ)
        → Keeps IsWorld (load_buffer fb dvars gs persist size buffer)
    unfolding load_buffer
    load_buffer-Keeps persist size buffer = after_return_if IsWorld _ _ _ λ _.
        after_return_if IsWorld _ _ _ λ _. after_return_if IsWorld _ _ _ λ _.
          after_return_if IsWorld _ _ _ λ _. after_return_if IsWorld _ _ _ λ _.
            after_return_if IsWorld _ _ _ λ _. after_return_if IsWorld _ _ _ λ _.
              let id = lowest_free_id gs in
              let node_count = number 4 (drop 8 buffer) in
              let p = drop 20 buffer in
              after_build IsWorld (Loaded id node_count) _ _
                (read_edges-Loaded id node_count _ _ _ (record {
                  valid = fresh_graph-IsValid id persist node_count p;
                  same_id = refl;
                  same_size = length-read_nodes node_count p;
                  cold = refl;
                }))
                λ g l. ends _ _ (record {
                  valid = All-append _ gs _ world.valid (l.valid, tt);
                  distinct =
                      HasDistinctIds-append gs g world.distinct
                        (rw l.same_id (graph_by_id-none gs _ (lowest_free_id_lem gs).0));
                })

  after_load :
      {A : Type 0} (P : Graphs F → Type 0) (m : Body F A) (f : A → Body F (Graphs F × Reply F))
      → ((a : A) → Keeps P (f a))
      → Keeps P (m >>= f)
  unfolding ◌>>=◌
  after_load P (go_on a) f k = k a
  after_load P (return r) f k = returns r

  module _ {S : Type 0} (fs : FileSystem S) (alloc : ℕ → Bool) where
    load_from-IsWorld :
        (gs : Graphs F) (dvars : Dvars F) (s : S) (m : Body F (String × Bool))
        → IsWorld gs
        → IsWorld (load_from fb fs alloc dvars gs s m).1.0
    unfolding load_from
    load_from-IsWorld gs dvars s (return r) world = world
    load_from-IsWorld gs dvars s (go_on (path, persist)) world =
        settle-Keeps IsWorld gs _ world
          (after_load IsWorld _ _ λ got. load_buffer-Keeps gs world dvars persist got.0 got.1)

    -- Whatever the engine hands over as the contents of the file, and whatever the parameters are, gsc_graph_load
    -- leaves the graphs as they were or adds one that is well formed, with an id of its own.
    pub load-IsWorld :
        (gs : Graphs F) (dvars : Dvars F) (args : List (Value F)) (s : S)
        → IsWorld gs
        → IsWorld (gsc_graph_load fb fs alloc dvars gs args s).1.0
    unfolding gsc_graph_load
    load-IsWorld gs dvars args s world = load_from-IsWorld gs dvars s _ world
