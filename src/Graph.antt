-- ===== src/Graph.antt =====
-- The waypoint graphs of code/gsc_graph.cpp: the structs, the static vector of graphs, and the
-- helpers that look into them. All state is the value `Graphs`, which a function of the script
-- interface takes and returns. An `unsigned int` counter wraps at 2 ^ 32.
pub mod Reply
pub mod Wellformed
pub mod Lookup
pub mod Shape
pub mod Edges
pub mod Nodes
pub mod Registry
pub mod World
pub mod Precompute
pub mod Session
pub mod Reach
pub mod Closest
pub mod Scratch
pub mod Search
pub mod FindPath
pub mod File
pub mod Listing
use zk_libcod.Prelude.{
  ℕ, suc, ◌-◌, ◌^◌, Bool, false, ◌&&◌, List, [], ◌∷◌, Option, none, some, ltb, ◌==◌, if◌then◌else◌,
  length, get_or,
}
use zk_libcod.Prelude.Int.{ℤ, pos, negsuc, eqb_ℤ, shares_bit}
use zk_libcod.Float.{FloatOps}
use zk_libcod.Heap.{GraphHeapEntry}
use zk_libcod.Script.{Vec3}

pub record GraphEdge (F : Type 0) : Type 0 where
  pub to : ℕ
  pub type : ℤ
  pub cost : F

pub record GraphNode (F : Type 0) : Type 0 where
  pub origin : Vec3 F
  pub type : ℤ
  pub removed : Bool
  pub edges : List (GraphEdge F)

pub record GraphStats : Type 0 where
  pub searches : ℕ
  pub partials : ℕ
  pub expansions_total : ℕ
  pub expansions_max : ℕ
  pub us_min : ℕ
  pub us_max : ℕ
  pub us_total : ℕ

-- `none` is the source's -1.
pub record GraphPrecompute (F : Type 0) : Type 0 where
  pub goal : ℤ
  pub skip_node_types : ℤ
  pub skip_edge_types : ℤ
  pub cost_to_goal : List F
  pub next_hop : List (Option ℕ)

-- The scratch of gsc_graph_find_path. A slot belongs to the current search where its stamp is `search_id`.
pub record GraphScratch (F : Type 0) : Type 0 where
  pub g_score : List F
  pub f_score : List F
  pub parent : List ℕ
  pub stamp : List ℕ
  pub closed_stamp : List ℕ
  pub heap : List (GraphHeapEntry F)
  pub search_id : ℕ

pub record AStarGraph (F : Type 0) : Type 0 where
  pub id : ℕ
  pub persist : Bool
  pub edge_count : ℕ
  pub nodes : List (GraphNode F)
  pub stats : GraphStats
  pub scratch : GraphScratch F
  pub precomputes : List (GraphPrecompute F)

abbrev pub Graphs : Type 0 → Type 0
Graphs F = List (AStarGraph F)

-- The server variables that the functions read.
pub record Dvars (F : Type 0) : Type 0 where
  pub max_nodes : ℤ
  pub max_graphs : ℤ
  pub max_iterations : ℤ
  pub weight : F

-- GRAPH_MAX_SCRIPT_VALUES
abbrev pub max_script_values : ℕ
max_script_values = 32768

abbrev pub u32 : ℕ
u32 = 2 ^ 32

abbrev pub no_stats : GraphStats
no_stats = record {
  searches = 0;
  partials = 0;
  expansions_total = 0;
  expansions_max = 0;
  us_min = 0;
  us_max = 0;
  us_total = 0;
}

abbrev pub no_scratch : {F : Type 0} → GraphScratch F
no_scratch = record {
  g_score = [];
  f_score = [];
  parent = [];
  stamp = [];
  closed_stamp = [];
  heap = [];
  search_id = 0;
}

-- `(unsigned int)to`
abbrev pub to_unsigned : ℤ → ℕ
to_unsigned (pos n) = n
to_unsigned (negsuc n) = u32 - 1 - n

module _ {F : Type 0} where
  -- graphById: the index of the graph in the vector, for the source's pointer.
  unfoldable pub graph_by_id : Graphs F → ℤ → Option ℕ
  graph_by_id [] id = none
  graph_by_id (g ∷ gs) id =
      if eqb_ℤ (pos g.id) id
      then some 0
      else elim (graph_by_id gs id) [ none ↦ none | some i ↦ some (suc i) ]

  -- graphInvalidatePrecompute
  pub invalidate_precompute : AStarGraph F → AStarGraph F
  invalidate_precompute graph = record graph { precomputes = [] }

  -- The test of findPrecompute.
  pub answers : GraphPrecompute F → ℤ → ℤ → ℤ → Bool
  answers pc goal skip_node_types skip_edge_types =
      eqb_ℤ pc.goal goal
      && eqb_ℤ pc.skip_node_types skip_node_types
      && eqb_ℤ pc.skip_edge_types skip_edge_types

  pub find_precompute_in : List (GraphPrecompute F) → ℤ → ℤ → ℤ → Option ℕ
  unfolding answers
  find_precompute_in [] goal skip_nodes skip_edges = none
  find_precompute_in (pc ∷ pcs) goal skip_nodes skip_edges =
      if answers pc goal skip_nodes skip_edges
      then some 0
      else elim (find_precompute_in pcs goal skip_nodes skip_edges) [
        | none ↦ none
        | some i ↦ some (suc i)
      ]

  -- findPrecompute: the index of the cached tree.
  pub find_precompute : AStarGraph F → ℤ → ℤ → ℤ → Option ℕ
  unfolding find_precompute_in
  find_precompute graph = find_precompute_in graph.precomputes

  -- The loop of graphFindEdgeIndex.
  unfoldable pub edge_index : List (GraphEdge F) → ℕ → Option ℕ
  edge_index [] to = none
  edge_index (e ∷ es) to =
      if e.to == to then some 0 else elim (edge_index es to) [ none ↦ none | some i ↦ some (suc i) ]

  -- `0 <= id < nodes.size()`: a script's node id as an index.
  unfoldable pub node_index : AStarGraph F → ℤ → Option ℕ
  node_index graph (pos n) = if ltb n (length graph.nodes) then some n else none
  node_index graph (negsuc n) = none

module _ {F : Type 0} ⦃fl : FloatOps F⦄ where
  open fl use {fzero, fadd, fsub, fmul, fsqrt}

  abbrev pub origin_zero : Vec3 F
  origin_zero = record { x = fzero; y = fzero; z = fzero }

  -- What a read past the end would give; the indices that the functions use are in range.
  abbrev pub no_node : GraphNode F
  no_node = record { origin = origin_zero; type = pos 0; removed = false; edges = [] }

  abbrev pub no_edge : GraphEdge F
  no_edge = record { to = 0; type = pos 0; cost = fzero }

  abbrev pub node_at : List (GraphNode F) → ℕ → GraphNode F
  node_at nodes i = get_or nodes i no_node

  abbrev pub no_graph : AStarGraph F
  no_graph = record {
    id = 0;
    persist = false;
    edge_count = 0;
    nodes = [];
    stats = no_stats;
    scratch = no_scratch;
    precomputes = [];
  }

  -- graphFindEdgeIndex. The source compares with `(unsigned int)to`, so a negative `to` is looked for
  -- as a number above every node id.
  unfoldable pub find_edge_index : AStarGraph F → ℤ → ℤ → Option ℕ
  unfolding edge_index node_index
  find_edge_index graph from to = elim (node_index graph from) [
    | none ↦ none
    | some i ↦ edge_index (node_at graph.nodes i).edges (to_unsigned to)
  ]

  pub edge_distance : Vec3 F → Vec3 F → F
  edge_distance a b =
      let dx = fsub b.x a.x in
      let dy = fsub b.y a.y in
      let dz = fsub b.z a.z in fsqrt (fadd (fadd (fmul dx dx) (fmul dy dy)) (fmul dz dz))

-- `mask && (type & mask)`
pub skips : ℤ → ℤ → Bool
unfolding shares_bit
skips mask type = if eqb_ℤ mask (pos 0) then false else shares_bit type mask
