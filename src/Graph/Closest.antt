-- ===== src/Graph/Closest.antt =====
-- graphFindClosestNode of code/gsc_graph.cpp. The engine's trace between two points is a parameter.
pub mod Nearest
use zk_libcod.Prelude.{
  ℕ, suc, Bool, true, false, not, ◌&&◌, List, [], ◌∷◌, Option, none, some, if◌then◌else◌, get_or,
}
use zk_libcod.Prelude.Int.{ℤ, pos, eqb_ℤ}
use zk_libcod.Float.{FloatOps}
use zk_libcod.Script.{
  Vec3, Value, int_param, vector_param, stack_get_params, optional_int, push_undefined, push_int,
}
use zk_libcod.Graph.{Graphs, GraphNode, graph_by_id, no_graph}
use zk_libcod.Graph.Reply.{
  Reply, answer, refuse, go_on, ◌>>=◌, or_return, settle, bad_parameters, bad_type, no_such_graph,
}

-- `best` and `bestD`; no index stands for -1.
abbrev pub Best : Type 0 → Type 0
Best F = Option (ℕ × F)

module _ {F : Type 0} ⦃fl : FloatOps F⦄ where
  open fl use {fadd, fsub, fmul, fle}

  pub distance_squared : Vec3 F → Vec3 F → F
  distance_squared a b =
      let dx = fsub a.x b.x in
      let dy = fsub a.y b.y in
      let dz = fsub a.z b.z in fadd (fadd (fmul dx dx) (fmul dy dy)) (fmul dz dz)

  -- `best >= 0 && d >= bestD`
  abbrev pub is_no_closer : F → Best F → Bool
  is_no_closer d none = false
  is_no_closer d (some b) = fle b.1 d

  -- The body of the loop, for node `i`; `passes` is the test of the content mask.
  pub consider : (Vec3 F → Bool) → Vec3 F → ℕ → GraphNode F → Best F → Best F
  unfolding distance_squared
  consider passes origin i n best =
      let d = distance_squared n.origin origin in
      if n.removed
      then best
      else (if is_no_closer d best then best else (if passes n.origin then some (i, d) else best))

  pub consider_all : (Vec3 F → Bool) → Vec3 F → ℕ → List (GraphNode F) → Best F → Best F
  unfolding consider
  consider_all passes origin i [] best = best
  consider_all passes origin i (n ∷ ns) best =
      consider_all passes origin (suc i) ns (consider passes origin i n best)

  abbrev pub closest_node : (Vec3 F → Bool) → Vec3 F → List (GraphNode F) → Best F
  closest_node passes origin nodes = consider_all passes origin 0 nodes none

  abbrev fail : Reply F
  fail = refuse bad_parameters push_undefined

  -- `trace` is G_LocationalTracePassed without an entity to ignore.
  pub gsc_graph_find_closest_node :
      (Vec3 F → Vec3 F → ℤ → Bool) → Graphs F → List (Value F) → Graphs F × Reply F
  gsc_graph_find_closest_node trace gs args = settle gs do
    p ← or_return (stack_get_params (int_param ∷ vector_param ∷ []) args) fail
    content_mask ← or_return (optional_int args 2 (pos 0)) (refuse bad_type push_undefined)
    g ← or_return (graph_by_id gs p.0) (refuse no_such_graph push_undefined)
    let origin = p.1.0
    let passes = λ (there : Vec3 F).
        if eqb_ℤ content_mask (pos 0) then true else trace origin there content_mask
    best ←
        or_return (closest_node passes origin (get_or gs g no_graph).nodes) (answer push_undefined)
    go_on (gs, answer (push_int (pos best.0)))
