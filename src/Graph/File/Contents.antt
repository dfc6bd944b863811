-- ===== src/Graph/File/Contents.antt =====
-- The loops of gsc_graph_load of code/gsc_graph.cpp over the records of any file, right or wrong.
use mathlib.Core.List.{append_assoc, append-nil}
use zk_libcod.Prelude.{
  ℕ, zero, suc, ◌+◌, ◌*◌, ◌%◌, ◌≤◌, ◌<◌, ◌≡◌, ◌⊎◌, inl, inr, refl, sym, ap, subst, ◌∙◌, Bool, true,
  false, Option, none, some, Bool-cases, ◌||◌, List, [], ◌∷◌, ◌++◌, arith, length, length-set,
  get_or-set, drop, leb, ◌==◌, ==_iff, if◌then◌else◌,
}
use zk_libcod.Float.{FloatOps}
use zk_libcod.Script.{push_undefined}
use zk_libcod.Graph.{AStarGraph, GraphNode, GraphEdge, u32, node_at, no_node}
use zk_libcod.Graph.Reply.{
  Reply, Body, GraphError, refuse, go_on, return, ◌>>=◌, ◌>>◌, return_if, or_return,
  edge_out_of_range, edge_at_removed,
}
use zk_libcod.Graph.File.{
  FloatBits, number, read_node, read_nodes, read_edge, read_edges, store_edge,
}
use zk_libcod.Graph.File.Loops.{drop-drop}

module _ {F : Type 0} where
  -- A body that comes to its end does so with a value that satisfies `P`, and one that returns, with a reply that
  -- satisfies `R`.
  abbrev pub EndsIn : {A : Type 0} → (A → Type 0) → (Reply F → Type 0) → Body F A → Type 0
  EndsIn P R (go_on a) = P a
  EndsIn P R (return r) = R r

  pub EndsIn-map :
      {A : Type 0} (P Q : A → Type 0) (R S : Reply F → Type 0) (m : Body F A)
      → ((a : A) → P a → Q a)
      → ((r : Reply F) → R r → S r)
      → EndsIn P R m
      → EndsIn Q S m
  EndsIn-map P Q R S (go_on a) f k h = f a h
  EndsIn-map P Q R S (return r) f k h = k r h

  pub bind_ends :
      {A B : Type 0} (P : A → Type 0) (Q : B → Type 0) (R S : Reply F → Type 0) (m : Body F A)
      (f : A → Body F B)
      → EndsIn P R m
      → ((a : A) → P a → EndsIn Q S (f a))
      → ((r : Reply F) → R r → S r)
      → EndsIn Q S (m >>= f)
  unfolding ◌>>=◌
  bind_ends P Q R S (go_on a) f h k l = k a h
  bind_ends P Q R S (return r) f h k l = l r h

  pub or_return_ends :
      {A B : Type 0} (Q : B → Type 0) (R : Reply F → Type 0) (o : Option A) (r : Reply F)
      (f : A → Body F B)
      → (o ≡ none → R r)
      → ((a : A) → o ≡ some a → EndsIn Q R (f a))
      → EndsIn Q R (or_return o r >>= f)
  unfolding ◌>>=◌ or_return
  or_return_ends Q R none r f bad good = bad refl
  or_return_ends Q R (some a) r f bad good = good a refl

  pub guard_ends :
      {B : Type 0} (Q : B → Type 0) (R : Reply F → Type 0) (b : Bool) (r : Reply F) (m : Body F B)
      → (b ≡ true → R r)
      → (b ≡ false → EndsIn Q R m)
      → EndsIn Q R (return_if b r >> m)
  unfolding ◌>>◌ ◌>>=◌ return_if
  guard_ends Q R true r m bad good = bad refl
  guard_ends Q R false r m bad good = good refl

-- The record of an edge, in a file of `n` nodes: both ends are in range, and neither is flagged as removed.
pub record Fits (n : ℕ) (flag : ℕ → Bool) (q : List ℕ) : Type 0 where
  pub from_in : number 4 q < n
  pub to_in : number 4 (drop 4 q) < n
  pub from_there : flag (number 4 q) ≡ false
  pub to_there : flag (number 4 (drop 4 q)) ≡ false

-- Why a record is refused.
pub data Unfit (n : ℕ) (flag : ℕ → Bool) (q : List ℕ) : GraphError → Type 0 where
  outside : (n ≤ number 4 q) ⊎ (n ≤ number 4 (drop 4 q)) → Unfit n flag q edge_out_of_range
  at_removed :
      (flag (number 4 q) ≡ true) ⊎ (flag (number 4 (drop 4 q)) ≡ true)
      → Unfit n flag q edge_at_removed

module _ {F : Type 0} (fb : FloatBits F) where
  -- The edges of the `k` records at `q` that start at `u`, in the order of the file.
  pub edges_of : ℕ → ℕ → List ℕ → List (GraphEdge F)
  edges_of u zero q = []
  edges_of u (suc k) q =
      let rest = edges_of u k (drop 16 q) in if number 4 q == u then read_edge fb q ∷ rest else rest

  pub length-read_nodes : (n : ℕ) (p : List ℕ) → length (read_nodes fb n p) ≡ n
  unfolding read_nodes
  length-read_nodes zero p = refl
  length-read_nodes (suc n) p = ap suc (length-read_nodes n (drop 20 p))

  -- One of the records is refused.
  pub data HasUnfit (n : ℕ) (flag : ℕ → Bool) (k : ℕ) (q : List ℕ) : Reply F → Type 0 where
    unfit :
        (j : ℕ) (e : GraphError)
        → j < k
        → Unfit n flag (drop (j * 16) q) e
        → HasUnfit n flag k q (refuse e push_undefined)

  module _ (n : ℕ) (flag : ℕ → Bool) where
    HasUnfit-later :
        (k : ℕ) (q : List ℕ) (r : Reply F)
        → HasUnfit n flag k (drop 16 q) r
        → HasUnfit n flag (suc k) q r
    HasUnfit-later k q r (unfit j e h bad) =
        let place : suc j * 16 ≡ 16 + j * 16 = omega arith in
        unfit (suc j) e (omega arith) (rw (place, drop-drop 16 (j * 16) q) bad)

    first_and_later :
        (k : ℕ) (q : List ℕ)
        → Fits n flag q
        → ((j : ℕ) → j < k → Fits n flag (drop (j * 16) (drop 16 q)))
        → (j : ℕ) → j < suc k
        → Fits n flag (drop (j * 16) q)
    first_and_later k q first rest zero h = first
    first_and_later k q first rest (suc j) h =
        let place : suc j * 16 ≡ 16 + j * 16 = omega arith in
        rw (place, drop-drop 16 (j * 16) q) (rest j (omega arith))

module _ {F : Type 0} ⦃fl : FloatOps F⦄ (fb : FloatBits F) where
  pub node_at-read_nodes :
      (n : ℕ) (p : List ℕ) (u : ℕ)
      → u < n
      → node_at (read_nodes fb n p) u ≡ read_node fb (drop (u * 20) p)
  unfolding read_nodes
  node_at-read_nodes zero p u h = absurd (omega arith)
  node_at-read_nodes (suc n) p zero h = refl
  node_at-read_nodes (suc n) p (suc u) h =
      let place : suc u * 20 ≡ 20 + u * 20 = omega arith in
      rw (place, drop-drop 20 (u * 20) p) (node_at-read_nodes n (drop 20 p) u (omega arith))

  -- What the loop over the edges does to a graph when it comes to its end.
  pub record Stores (n : ℕ) (flag : ℕ → Bool) (k : ℕ) (q : List ℕ) (before after : AStarGraph F)
      : Type 0 where
    pub fits : (j : ℕ) → j < k → Fits n flag (drop (j * 16) q)
    pub counted : after.edge_count ≡ (before.edge_count + k) % u32
    pub sized : length after.nodes ≡ n
    pub nodes :
        (u : ℕ)
        → u < n
        → node_at after.nodes u ≡ record (node_at before.nodes u) {
          edges = (node_at before.nodes u).edges ++ edges_of fb u k q;
        }
    pub untouched : after ≡ record before { nodes = after.nodes; edge_count = after.edge_count }

module _ {F : Type 0} ⦃fl : FloatOps F⦄ (fb : FloatBits F) (n : ℕ) (flag : ℕ → Bool) where
  -- What one edge more does to each node.
  node_at-store_edge :
      (g : AStarGraph F) (from u : ℕ) (e : GraphEdge F)
      → from < length g.nodes
      → node_at (store_edge fb g from e).nodes u ≡ (
          if from == u
          then record (node_at g.nodes from) { edges = (node_at g.nodes from).edges ++ e ∷ [] }
          else node_at g.nodes u)
  unfolding store_edge
  node_at-store_edge g from u e h = get_or-set g.nodes from u _ no_node h

  edges_of_hit :
      (u k : ℕ) (q : List ℕ)
      → (number 4 q == u) ≡ true
      → edges_of fb u (suc k) q ≡ read_edge fb q ∷ edges_of fb u k (drop 16 q)
  unfolding edges_of
  edges_of_hit u k q hit = rw hit refl

  edges_of_miss :
      (u k : ℕ) (q : List ℕ)
      → (number 4 q == u) ≡ false
      → edges_of fb u (suc k) q ≡ edges_of fb u k (drop 16 q)
  unfolding edges_of
  edges_of_miss u k q miss = rw miss refl

  -- The edges of a node, once an edge has been put at their end.
  more_edges : GraphNode F → List (GraphEdge F) → GraphNode F
  more_edges m es = record m { edges = m.edges ++ es }

  store_edge-more :
      (k : ℕ) (q : List ℕ) (g : AStarGraph F) (u : ℕ)
      → number 4 q < length g.nodes
      → more_edges
          (node_at (store_edge fb g (number 4 q) (read_edge fb q)).nodes u)
          (edges_of fb u k (drop 16 q))
        ≡ more_edges (node_at g.nodes u) (edges_of fb u (suc k) q)
  unfolding more_edges
  store_edge-more k q g u h =
      let step = node_at-store_edge g (number 4 q) u (read_edge fb q) h in
      let later = edges_of fb u k (drop 16 q) in
      elim (Bool-cases (number 4 q == u)) [
        | inl hit ↦
            let same = (==_iff (number 4 q) u).0 hit in
            let here : node_at (store_edge fb g (number 4 q) (read_edge fb q)).nodes u
                ≡ more_edges (node_at g.nodes (number 4 q)) (read_edge fb q ∷ []) =
              rw hit at step in
            let at_u =
              subst
                (λ v.
                  node_at (store_edge fb g (number 4 q) (read_edge fb q)).nodes u
                  ≡ more_edges (node_at g.nodes v) (read_edge fb q ∷ []))
                same here in
            ap (λ (m : GraphNode F). more_edges m later) at_u
            ∙ (ap (λ es. record (node_at g.nodes u) { edges = es })
                  (append_assoc (node_at g.nodes u).edges (read_edge fb q ∷ []) later)
                ∙ ap (more_edges (node_at g.nodes u)) (sym (edges_of_hit u k q hit)))
        | inr miss ↦
            let here : node_at (store_edge fb g (number 4 q) (read_edge fb q)).nodes u
                ≡ node_at g.nodes u =
              rw miss at step in
            ap (λ (m : GraphNode F). more_edges m later) here
            ∙ ap (more_edges (node_at g.nodes u)) (sym (edges_of_miss u k q miss))
      ]

  store_edge-Stores :
      (k : ℕ) (q : List ℕ) (g after : AStarGraph F)
      → length g.nodes ≡ n
      → Fits n flag q
      → Stores fb n flag k (drop 16 q) (store_edge fb g (number 4 q) (read_edge fb q)) after
      → Stores fb n flag (suc k) q g after
  unfolding store_edge more_edges
  store_edge-Stores k q g after size fit s = record {
    fits = first_and_later fb n flag k q fit s.fits;
    counted = omega (arith, s.counted);
    sized = s.sized;
    nodes = λ u inside. s.nodes u inside ∙ store_edge-more k q g u (rw size fit.from_in);
    untouched = s.untouched;
  }

  -- The flags of the nodes stay.
  store_edge_removed :
      (g : AStarGraph F) (from u : ℕ) (e : GraphEdge F)
      → from < length g.nodes
      → (node_at (store_edge fb g from e).nodes u).removed ≡ (node_at g.nodes u).removed
  store_edge_removed g from u e h = elim (Bool-cases (from == u)) [
    | inl hit ↦
        let same = (==_iff from u).0 hit in
        rw (node_at-store_edge g from u e h, hit) (ap (λ v. (node_at g.nodes v).removed) same)
    | inr miss ↦ rw (node_at-store_edge g from u e h, miss) refl
  ]

  in_range : (a b : ℕ) → (leb n a || leb n b) ≡ false → (a < n) × (b < n)
  in_range a b e = (ground arith, ground arith)

  one_removed : (a b c d : Bool) → a ≡ c → b ≡ d → (a || b) ≡ true → (c ≡ true) ⊎ (d ≡ true)
  one_removed true b c d p p' e = inl (sym p)
  one_removed false b c d p p' e = inr (sym p' ∙ e)

  none_removed : (a b c d : Bool) → a ≡ c → b ≡ d → (a || b) ≡ false → (c ≡ false) × (d ≡ false)
  none_removed true b c d p p' e = absurd (cc)
  none_removed false b c d p p' e = (sym p, sym p' ∙ e)

  -- The loop over the edges of any file comes to its end, with every record stored, or returns because of one of them.
  pub read_edges_ends :
      (k : ℕ) (q : List ℕ) (g : AStarGraph F)
      → length g.nodes ≡ n
      → g.edge_count < u32
      → ((u : ℕ) → u < n → (node_at g.nodes u).removed ≡ flag u)
      → EndsIn (Stores fb n flag k q g) (HasUnfit fb n flag k q) (read_edges fb n k q g)
  unfolding read_edges edges_of read_edge
  read_edges_ends zero q g size count flags = record {
    fits = λ j h. absurd (omega arith);
    counted = omega (arith, count);
    sized = size;
    nodes = λ u inside.
        ap (λ es. record (node_at g.nodes u) { edges = es })
          (sym (append-nil (node_at g.nodes u).edges));
    untouched = refl;
  }
  read_edges_ends (suc k) q g size count flags =
      let from = number 4 q in
      let to = number 4 (drop 4 q) in
      guard_ends _ _ _ _ _ (λ bad. unfit 0 _ (omega arith) (outside (ground arith)))
        λ inside.
          let (from_in, to_in) = in_range from to inside in
          let from_flag = flags from from_in in
          let to_flag = flags to to_in in
          guard_ends _ _ _ _ _
            (λ bad.
              unfit 0 _ (omega arith) (at_removed (one_removed _ _ _ _ from_flag to_flag bad)))
            λ there.
              let (from_there, to_there) = none_removed _ _ _ _ from_flag to_flag there in
              let fit : Fits n flag q = record {
                from_in = from_in;
                to_in = to_in;
                from_there = from_there;
                to_there = to_there;
              } in
              EndsIn-map _ _ _ _ _ (λ after s. store_edge-Stores k q g after size fit s)
                (HasUnfit-later fb n flag k q)
                (read_edges_ends k (drop 16 q) _ (length-set g.nodes from _ ∙ size) (omega arith)
                  (λ u h.
                    store_edge_removed g from u (read_edge fb q) (rw size from_in) ∙ flags u h))
