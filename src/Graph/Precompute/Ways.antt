-- ===== src/Graph/Precompute/Ways.antt =====
-- The ways through a graph that its cached trees are about, and what graphPrecomputePathsToNode
-- promises of them.
use mathlib.Core.List.{Memᴰ}
use zk_libcod.Prelude.{
  ℕ, ◌<◌, ◌≡◌, ◌⊎◌, inl, inr, Bool, true, false, List, Option, none, some, length, get_or, ap, All,
  All-map, subst, sym,
}
use zk_libcod.Prelude.Int.{ℤ, pos}
use zk_libcod.Float.{FloatOps, FloatLaws, IsNonneg}
use zk_libcod.Heap.{GraphHeapEntry}
use zk_libcod.Graph.{AStarGraph, GraphEdge, GraphPrecompute, node_at, skips}
use zk_libcod.Graph.Wellformed.{IsValid, IsLive}
use zk_libcod.Graph.Precompute.{
  is_blocked, incoming_arcs, shortest_path_tree, reverse_dijkstra, arcs_into,
}
use zk_libcod.Graph.Precompute.Arcs.{Edge, arc_of}
use zk_libcod.Graph.Precompute.Network.{incoming_arcs_complete, incoming_arcs_sound}
use zk_libcod.Graph.Precompute.Route.{Route, here, step, GoodArcs}
use zk_libcod.Graph.Precompute.Shortest.{ended, reverse_dijkstra-IsShortest}

module _ {F : Type 0} ⦃fl : FloatOps F⦄ where
  open fl use {fzero, fadd, flt_max, fle}

  -- Node `u` is there and has the edge `e`, which the mask does not exclude.
  pub record Link (graph : AStarGraph F) (skip_edges : ℤ) (u : ℕ) (e : GraphEdge F) : Type 0 where
    pub live : IsLive graph.nodes u
    pub stored : Memᴰ e (node_at graph.nodes u).edges
    pub usable : skips skip_edges e.type ≡ false

  -- A way from a node to the goal, with its cost. Nodes with an excluded type are not passed through, a way
  -- may start at one.
  pub data Way (graph : AStarGraph F) (goal : ℕ) (skip_nodes skip_edges : ℤ) : ℕ → F → Type 0 where
    arrived : Way graph goal skip_nodes skip_edges goal fzero
    along :
        {c : F} (u : ℕ) (e : GraphEdge F)
        → Link graph skip_edges u e
        → is_blocked graph skip_nodes e.to ≡ false
        → Way graph goal skip_nodes skip_edges e.to c
        → Way graph goal skip_nodes skip_edges u (fadd c e.cost)

  -- No edge has a negative cost or a NaN.
  abbrev pub HasNonnegCosts : AStarGraph F → Type 0
  HasNonnegCosts graph =
      (u : ℕ) (e : GraphEdge F)
      → IsLive graph.nodes u
      → Memᴰ e (node_at graph.nodes u).edges
      → IsNonneg fl e.cost

  module _ (graph : AStarGraph F) (v : IsValid graph) (goal : ℕ) (skip_nodes skip_edges : ℤ) where
    abbrev inc : List (List (GraphHeapEntry F))
    inc = incoming_arcs skip_edges graph.nodes

    abbrev blocked : ℕ → Bool
    blocked = is_blocked graph skip_nodes

    inside : All (λ n. All (λ e. e.to < length graph.nodes) n.edges) graph.nodes
    inside =
        All-map _ _ (λ n s. All-map _ _ (λ e live. live.0) n.edges s.targets) graph.nodes v.sound

    arc_edge :
        (w : ℕ) (a : GraphHeapEntry F)
        → Memᴰ a (arcs_into inc w)
        → IsLive graph.nodes a.node × Edge skip_edges a.node w (node_at graph.nodes a.node).edges a
    arc_edge w a m =
        let (lt, live, edge) = incoming_arcs_sound skip_edges graph.nodes inside w a m in
        ((lt, live), edge)

    Way-of_Route :
        (u : ℕ) (c : F) → Route inc blocked goal u c → Way graph goal skip_nodes skip_edges u c
    Way-of_Route u c here = arrived
    Way-of_Route u c (step {v = w} {c = c'} a way open_way m) =
        let (live, x) = arc_edge w a m in
        let cost : a.f ≡ x.edge.cost = ap (λ (b : GraphHeapEntry F). b.f) x.gives in
        let rest : Way graph goal skip_nodes skip_edges x.edge.to c' =
          rw x.leads (Way-of_Route w c' way) in
        rw cost (
          along a.node x.edge (record { live = live; stored = x.stored; usable = x.usable })
            (rw x.leads open_way) rest)

    Route-of_Way :
        (u : ℕ) (c : F) → Way graph goal skip_nodes skip_edges u c → Route inc blocked goal u c
    Route-of_Way u c arrived = here
    Route-of_Way u c (along {c = c'} u' e link open_way rest) =
        step (arc_of u e) (Route-of_Way e.to c' rest) open_way (
          incoming_arcs_complete skip_edges graph.nodes inside u link.live.0 link.live.1 e
            link.stored link.usable)

    good_arcs : HasNonnegCosts graph → GoodArcs inc blocked goal (length graph.nodes)
    good_arcs nonneg w a m =
        let (live, x) = arc_edge w a m in
        let cost : a.f ≡ x.edge.cost = ap (λ (b : GraphHeapEntry F). b.f) x.gives in
        (rw cost (nonneg a.node x.edge live x.stored), live.0)

  abbrev pub cost_at : GraphPrecompute F → ℕ → F
  cost_at pc u = get_or pc.cost_to_goal u flt_max

  abbrev pub next_at : GraphPrecompute F → ℕ → Option ℕ
  next_at pc u = get_or pc.next_hop u none

  -- The next hop of a node is the end of one of its edges, may be passed through, and is on a way of the cost that is
  -- recorded.
  pub record Onward (graph : AStarGraph F) (skip_nodes skip_edges : ℤ) (pc : GraphPrecompute F)
      (u : ℕ) : Type 0 where
    pub edge : GraphEdge F
    pub link : Link graph skip_edges u edge
    pub passable : is_blocked graph skip_nodes edge.to ≡ false
    pub stored : next_at pc u ≡ some edge.to
    pub cost : cost_at pc u ≡ fadd (cost_at pc edge.to) edge.cost

  -- A right tree: it has an entry for each node, the recorded cost of a node is that of a way unless it is FLT_MAX, no
  -- way costs less, and next hops lead on along a way of the recorded cost.
  pub record IsBestTree (graph : AStarGraph F) (goal : ℕ) (skip_nodes skip_edges : ℤ)
      (pc : GraphPrecompute F) : Type 0 where
    pub cost_size : length pc.cost_to_goal ≡ length graph.nodes
    pub hop_size : length pc.next_hop ≡ length graph.nodes
    pub at_goal : cost_at pc goal ≡ fzero
    pub attained :
        (u : ℕ) → (cost_at pc u ≡ flt_max) ⊎ Way graph goal skip_nodes skip_edges u (cost_at pc u)
    pub least :
        (u : ℕ) (c : F) → Way graph goal skip_nodes skip_edges u c → fle (cost_at pc u) c ≡ true
    pub onward :
        (u : ℕ)
        → u < length graph.nodes
        → ((next_at pc u ≡ none) × ((u ≡ goal) ⊎ (cost_at pc u ≡ flt_max)))
          ⊎ Onward graph skip_nodes skip_edges pc u

  -- Every tree in the cache is right for the goal that it names, which is a node that is there, and for the types that
  -- it names as skipped.
  abbrev pub IsCacheRight : AStarGraph F → Type 0
  IsCacheRight graph =
      All
        (λ (pc : GraphPrecompute F).
          (goal : ℕ) × IsLive graph.nodes goal
          × (pc.goal ≡ pos goal)
          × IsBestTree graph goal pc.skip_node_types pc.skip_edge_types pc)
        graph.precomputes

  module _ (laws : FloatLaws fl) (graph : AStarGraph F) (v : IsValid graph)
      (nonneg : HasNonnegCosts graph) where
    -- Under the laws of floats, in a well-formed graph whose edge costs are numbers that are not
    -- negative, the tree that is computed for a goal in range is right: it has an entry for each
    -- node, a recorded cost other than FLT_MAX is that of a way to the goal that respects the
    -- masks, no such way costs less than what is recorded, and next hops lead on along edges
    -- whose costs add up.
    pub shortest_path_tree-IsBestTree :
        (goal : ℕ) (skip_nodes skip_edges : ℤ)
        → goal < length graph.nodes
        → IsBestTree graph goal skip_nodes skip_edges
            (shortest_path_tree graph goal skip_nodes skip_edges)
    unfolding shortest_path_tree
    shortest_path_tree-IsBestTree goal skip_nodes skip_edges goal_in =
        let net = incoming_arcs skip_edges graph.nodes in
        let shut = is_blocked graph skip_nodes in
        let found = reverse_dijkstra net shut (length graph.nodes) goal in
        let good = good_arcs graph v goal skip_nodes skip_edges nonneg in
        let best =
          reverse_dijkstra-IsShortest laws net shut goal (length graph.nodes) goal_in good in
        record {
          cost_size = best.size;
          hop_size = best.hop_size;
          at_goal = best.at_goal;
          attained = λ u. elim (best.attained u) [
            | inl far ↦ inl far
            | inr way ↦ inr (Way-of_Route graph v goal skip_nodes skip_edges u _ way)
          ];
          least =
              λ u c way. best.least u c (Route-of_Way graph v goal skip_nodes skip_edges u c way);
          onward = λ u lt. elim (best.hops u lt) [
            | inl stop ↦ inl stop
            | inr hop ↦
                let (live, x) =
                  arc_edge graph v goal skip_nodes skip_edges hop.next hop.arc hop.edge in
                let cost : hop.arc.f ≡ x.edge.cost = ap (λ (b : GraphHeapEntry F). b.f) x.gives in
                let link : Link graph skip_edges hop.arc.node x.edge = record {
                  live = live;
                  stored = x.stored;
                  usable = x.usable;
                } in
                inr (record {
                  edge = x.edge;
                  link = subst (λ j. Link graph skip_edges j x.edge) hop.source link;
                  passable = rw x.leads hop.open_way;
                  stored = rw x.leads hop.stored;
                  cost = rw (x.leads, ← cost) hop.cost;
                })
          ];
        }

    -- Under the laws of floats, in a well-formed graph whose edge costs are numbers that are not
    -- negative, the rounds that the model allows the search for a goal in range are enough: it
    -- ends with nothing left in the heap.
    pub reverse_dijkstra-ends :
        (goal : ℕ) (skip_nodes skip_edges : ℤ)
        → goal < length graph.nodes
        → length
            (reverse_dijkstra
              (incoming_arcs skip_edges graph.nodes)
              (is_blocked graph skip_nodes)
              (length graph.nodes)
              goal).heap
          ≡ 0
    reverse_dijkstra-ends goal skip_nodes skip_edges goal_in =
        (ended laws (incoming_arcs skip_edges graph.nodes) (is_blocked graph skip_nodes) goal
          (length graph.nodes) goal_in (good_arcs graph v goal skip_nodes skip_edges nonneg)).1

    pub IsValid-IsCacheRight : IsCacheRight graph
    unfolding shortest_path_tree
    IsValid-IsCacheRight =
        All-map _ _
          (λ pc fresh.
            let (goal, live, same) = fresh in
            (
              goal,
              live,
              ap (λ (t : GraphPrecompute F). t.goal) same,
              subst (IsBestTree graph goal pc.skip_node_types pc.skip_edge_types) (sym same)
                  (shortest_path_tree-IsBestTree goal pc.skip_node_types pc.skip_edge_types live.0),
            ))
          graph.precomputes v.fresh
