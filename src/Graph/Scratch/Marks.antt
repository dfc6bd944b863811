-- ===== src/Graph/Scratch/Marks.antt =====
-- graphMarkSkippedNodes of code/gsc_graph.cpp closes the nodes whose ids the array holds, and no others.
use mathlib.Core.List.{Memᴰ}
use mathlib.Core.List.Memᴰ
use zk_libcod.Prelude.{
  if◌then◌else◌, true, length-set, ℕ, ◌<◌, ◌≡◌, ◌↔◌, ◌⊎◌, inl, inr, refl, sym, ap, subst, ◌∙◌, true,
  false, none, some, List, [], ◌∷◌, arith, length, ◌==◌, get_or-set, Bool-cases, Option-cases,
  length-set, ==_iff,
}
use zk_libcod.Prelude.Int.{pos}
use zk_libcod.Float.{FloatOps}
use zk_libcod.Script.{Value, int_of}
use zk_libcod.Graph.{AStarGraph, GraphScratch, node_index}
use zk_libcod.Graph.Lookup.{node_index-some, node_index-inside}
use zk_libcod.Graph.Scratch.{is_seen, is_closed, close, mark_skipped}
use zk_libcod.Graph.Scratch.Begin.{IsSized, IsBlank}

module _ {F : Type 0} where
  pub closed-close :
      (n : ℕ) (s : GraphScratch F)
      → IsSized n s
      → (cur : ℕ) → cur < n
      → (v : ℕ) → is_closed (close s cur) v ≡ (if cur == v then true else is_closed s v)
  closed-close n s k cur inside v =
      ground (arith, get_or-set s.closed_stamp cur v s.search_id 0 (rw k.closed_size inside))

  pub close-IsSized :
      (n : ℕ) (s : GraphScratch F) → IsSized n s → (cur : ℕ) → cur < n → IsSized n (close s cur)
  close-IsSized n s k cur inside = record {
    g_size = k.g_size;
    f_size = k.f_size;
    parent_size = k.parent_size;
    stamp_size = k.stamp_size;
    closed_size = length-set s.closed_stamp cur s.search_id ∙ k.closed_size;
    stamps = k.stamps;
    closed_stamps = λ v. ground (
      arith,
      get_or-set s.closed_stamp cur v s.search_id 0 (rw k.closed_size inside),
      k.closed_stamps v,
    );
    id_pos = k.id_pos;
    id_bound = k.id_bound;
  }

module _ {F : Type 0} where
  -- No node has been seen, and some may have been marked.
  pub record IsReady (n : ℕ) (s : GraphScratch F) : Type 0 where
    pub sized : IsSized n s
    pub unseen : (v : ℕ) → is_seen s v ≡ false
    pub empty : s.heap ≡ []

  pub IsBlank-IsReady : (n : ℕ) (s : GraphScratch F) → IsBlank n s → IsReady n s
  IsBlank-IsReady n s k = record { sized = k.sized; unseen = k.unseen; empty = k.empty }

module _ {F : Type 0} ⦃fl : FloatOps F⦄ where
  -- Whether a value of the array is the id of the node.
  abbrev pub Lists : List (Value F) → ℕ → Type 0
  Lists values v = (x : Value F) × Memᴰ x values × (int_of x ≡ some (pos v))

  module _ (graph : AStarGraph F) where
    close-IsReady :
        (s : GraphScratch F)
        → IsReady (length graph.nodes) s
        → (v : ℕ) → v < length graph.nodes
        → IsReady (length graph.nodes) (close s v)
    close-IsReady s k v inside = record {
      sized = close-IsSized (length graph.nodes) s k.sized v inside;
      unseen = k.unseen;
      empty = k.empty;
    }

    -- What one value of the array does.
    abbrev mark_one : Value F → GraphScratch F → GraphScratch F
    mark_one x s = elim (int_of x) [
      | none ↦ s
      | some id ↦ elim (node_index graph id) [ none ↦ s | some v ↦ close s v ]
    ]

    mark_one-cases :
        (x : Value F) (s : GraphScratch F)
        → (mark_one x s ≡ s)
          ⊎ ((v : ℕ) × (v < length graph.nodes)
              × (int_of x ≡ some (pos v))
              × (mark_one x s ≡ close s v))
    mark_one-cases x s = elim (Option-cases (int_of x)) [
      | inl nothing ↦ inl (rw (mark_one, nothing) refl)
      | inr (id, names) ↦ elim (Option-cases (node_index graph id)) [
        | inl nowhere ↦ inl (rw (mark_one, names, nowhere) refl)
        | inr (v, found) ↦
            let (inside, same) = node_index-some graph id v found in
            inr (v, inside, names ∙ ap some same, rw (mark_one, names, found) refl)
      ]
    ]

    pub mark_skipped-IsReady :
        (values : List (Value F)) (s : GraphScratch F)
        → IsReady (length graph.nodes) s
        → IsReady (length graph.nodes) (mark_skipped graph values s)
    unfolding mark_skipped
    mark_skipped-IsReady [] s k = k
    mark_skipped-IsReady (x ∷ xs) s k = elim (mark_one-cases x s) [
      | inl same ↦ rw same (mark_skipped-IsReady xs s k)
      | inr (v, inside, names, marks) ↦
          rw marks (mark_skipped-IsReady xs (close s v) (close-IsReady s k v inside))
    ]

    -- The lookup that a listed id meets.
    mark_one_listed :
        (x : Value F) (s : GraphScratch F) (v : ℕ)
        → v < length graph.nodes
        → int_of x ≡ some (pos v)
        → mark_one x s ≡ close s v
    mark_one_listed x s v inside names =
        let found : node_index graph (pos v) ≡ some v = node_index-inside graph v inside in
        rw (mark_one, names, found) refl

    marked_on :
        (x : Value F) (xs : List (Value F)) (s s' : GraphScratch F)
        → mark_one x s ≡ s'
        → mark_skipped graph (x ∷ xs) s ≡ mark_skipped graph xs s'
    unfolding mark_skipped
    marked_on x xs s s' e = ap (mark_skipped graph xs) e

    mark_skipped_closed :
        (values : List (Value F)) (s : GraphScratch F)
        → IsSized (length graph.nodes) s
        → (v : ℕ) → is_closed s v ≡ true
        → is_closed (mark_skipped graph values s) v ≡ true
    unfolding mark_skipped
    mark_skipped_closed [] s k v h = h
    mark_skipped_closed (x ∷ xs) s k v h = elim (mark_one-cases x s) [
      | inl same ↦ rw (marked_on x xs s s same) (mark_skipped_closed xs s k v h)
      | inr (u, inside, names, marks) ↦ rw (marked_on x xs s (close s u) marks) (
          mark_skipped_closed xs (close s u) (close-IsSized _ s k u inside) v
            (ground (arith, closed-close _ s k u inside v)))
    ]

    mark_skipped_listed :
        (values : List (Value F)) (s : GraphScratch F)
        → IsSized (length graph.nodes) s
        → (v : ℕ) → v < length graph.nodes
        → Lists values v
        → is_closed (mark_skipped graph values s) v ≡ true
    unfolding mark_skipped
    mark_skipped_listed [] s k v inside (x, m, names) = absurd (Memᴰ.not-nil m)
    mark_skipped_listed (y ∷ ys) s k v inside (x, m, names) = elim (Memᴰ.cases_cons m) [
      | inl here ↦
          rw
            (marked_on y ys s (close s v)
              (mark_one_listed y s v inside (ap int_of (sym here) ∙ names)))
            (mark_skipped_closed ys (close s v) (close-IsSized _ s k v inside) v
              (ground (arith, closed-close _ s k v inside v)))
      | inr later ↦ elim (mark_one-cases y s) [
        | inl same ↦
            rw (marked_on y ys s s same) (mark_skipped_listed ys s k v inside (x, later, names))
        | inr (u, inside_u, _, marks) ↦ rw (marked_on y ys s (close s u) marks) (
            mark_skipped_listed ys (close s u) (close-IsSized _ s k u inside_u) v inside
              (x, later, names))
      ]
    ]

    mark_skipped_only :
        (values : List (Value F)) (s : GraphScratch F)
        → IsSized (length graph.nodes) s
        → (v : ℕ) → is_closed (mark_skipped graph values s) v ≡ true
        → (is_closed s v ≡ true) ⊎ ((v < length graph.nodes) × Lists values v)
    unfolding mark_skipped
    mark_skipped_only [] s k v h = inl h
    mark_skipped_only (x ∷ xs) s k v h = elim (mark_one-cases x s) [
      | inl same ↦ elim (mark_skipped_only xs s k v (rw (marked_on x xs s s same) at h)) [
        | inl old ↦ inl old
        | inr (inside, listed) ↦ inr (inside, (listed.0, Memᴰ.tail listed.1, listed.2))
      ]
      | inr (u, inside_u, named, marks) ↦
          elim (mark_skipped_only xs (close s u) (close-IsSized _ s k u inside_u) v
            (rw (marked_on x xs s (close s u) marks) at h)) [
              | inr (inside, listed) ↦ inr (inside, (listed.0, Memᴰ.tail listed.1, listed.2))
              | inl old ↦ elim (Bool-cases (u == v)) [
                | inl here ↦
                    let same = (==_iff u v).0 here in
                    inr (
                      subst (λ w. w < length graph.nodes) same inside_u,
                      (x, Memᴰ.head refl, subst (λ w. int_of x ≡ some (pos w)) same named),
                    )
                | inr away ↦ inl (ground (arith, closed-close _ s k u inside_u v))
              ]
            ]
    ]

    -- On a scratch that a search has begun, graphMarkSkippedNodes marks a node as closed just if the node is in range
    -- and its id is among the values of the array, where a float counts as the integer that it is truncated to. Values
    -- that are neither integers nor floats, and ids that no node has, do nothing.
    pub mark_skipped_iff :
        (values : List (Value F)) (s : GraphScratch F)
        → IsBlank (length graph.nodes) s
        → (v : ℕ)
        → (is_closed (mark_skipped graph values s) v ≡ true)
          ↔ (v < length graph.nodes) × Lists values v
    mark_skipped_iff values s k v = (
      λ h. elim (mark_skipped_only values s k.sized v h) [
        | inl old ↦ absurd (cc (old, k.unclosed v))
        | inr listed ↦ listed
      ],
      λ h. mark_skipped_listed values s k.sized v h.0 h.1,
    )
