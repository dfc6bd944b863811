-- ===== src/Graph/Scratch/Begin.antt =====
-- scratchBegin: the vectors are as long as that of the nodes, and nothing that an earlier search has left is taken for
-- the work of the new one, also where the counter of searches wraps.
use zk_libcod.Prelude.{
  ℕ, zero, suc, ◌+◌, ◌-◌, ◌%◌, ◌<◌, ◌≤◌, ◌≡◌, refl, ◌∙◌, false, List, [], ◌∷◌, ◌++◌, arith, length,
  get_or, replicate, length-append, length-replicate, get_or-replicate, ltb, ◌==◌, Bool-cases, inl,
  inr,
}
use zk_libcod.Float.{FloatOps}
use zk_libcod.Graph.{AStarGraph, GraphScratch, u32}
use zk_libcod.Graph.Wellformed.{IsScratch}
use zk_libcod.Graph.Scratch.{grow, size_scratch, next_search, scratch_begin, is_seen, is_closed}

length-grow {ℓ} :
    {A : Type ℓ} (xs : List A) (n : ℕ) (a : A) → length xs ≤ n → length (grow xs n a) ≡ n
length-grow xs n a h =
    omega
      (arith, length-append xs (replicate (n - length xs) a), length-replicate (n - length xs) a)

get_or-grow : (xs : List ℕ) (k v : ℕ) → get_or (xs ++ replicate k 0) v 0 ≡ get_or xs v 0
get_or-grow [] k v = get_or-replicate k v 0
get_or-grow (x ∷ xs) k zero = refl
get_or-grow (x ∷ xs) k (suc v) = get_or-grow xs k v

module _ {F : Type 0} where
  -- What a search starts from, and goes on to keep, over `n` nodes.
  pub record IsSized (n : ℕ) (s : GraphScratch F) : Type 0 where
    pub g_size : length s.g_score ≡ n
    pub f_size : length s.f_score ≡ n
    pub parent_size : length s.parent ≡ n
    pub stamp_size : length s.stamp ≡ n
    pub closed_size : length s.closed_stamp ≡ n
    pub stamps : (v : ℕ) → get_or s.stamp v 0 ≤ s.search_id
    pub closed_stamps : (v : ℕ) → get_or s.closed_stamp v 0 ≤ s.search_id
    pub id_pos : 0 < s.search_id
    pub id_bound : s.search_id < u32

  -- No node has been seen or closed.
  pub record IsBlank (n : ℕ) (s : GraphScratch F) : Type 0 where
    pub sized : IsSized n s
    pub unseen : (v : ℕ) → is_seen s v ≡ false
    pub unclosed : (v : ℕ) → is_closed s v ≡ false
    pub empty : s.heap ≡ []

module _ {F : Type 0} ⦃fl : FloatOps F⦄ where
  pub IsScratch-IsSized : (n : ℕ) (s : GraphScratch F) → IsSized n s → IsScratch n s
  IsScratch-IsSized n s k = record {
    f_size = omega (arith, k.f_size, k.g_size);
    parent_size = omega (arith, k.parent_size, k.g_size);
    stamp_size = omega (arith, k.stamp_size, k.g_size);
    closed_size = omega (arith, k.closed_size, k.g_size);
    fits = omega (arith, k.g_size);
    stamps = k.stamps;
    closed_stamps = k.closed_stamps;
    id_bound = k.id_bound;
  }

  -- All vectors have one length.
  record IsEven (n : ℕ) (s : GraphScratch F) : Type 0 where
    g_size : length s.g_score ≡ n
    f_size : length s.f_score ≡ n
    parent_size : length s.parent ≡ n
    stamp_size : length s.stamp ≡ n
    closed_size : length s.closed_stamp ≡ n
    stamps : (v : ℕ) → get_or s.stamp v 0 ≤ s.search_id
    closed_stamps : (v : ℕ) → get_or s.closed_stamp v 0 ≤ s.search_id
    id_bound : s.search_id < u32

  size_scratch-IsEven : (n : ℕ) (s : GraphScratch F) → IsScratch n s → IsEven n (size_scratch n s)
  unfolding size_scratch
  size_scratch-IsEven n s k = elim (Bool-cases (ltb (length s.g_score) n)) [
    | inl small ↦ rw small (record {
      g_size = length-grow s.g_score n fl.fzero k.fits;
      f_size = length-grow s.f_score n fl.fzero (omega (arith, k.f_size, k.fits));
      parent_size = length-grow s.parent n 0 (omega (arith, k.parent_size, k.fits));
      stamp_size = length-grow s.stamp n 0 (omega (arith, k.stamp_size, k.fits));
      closed_size = length-grow s.closed_stamp n 0 (omega (arith, k.closed_size, k.fits));
      stamps = λ v. rw (get_or-grow s.stamp (n - length s.stamp) v) (k.stamps v);
      closed_stamps =
          λ v. rw (get_or-grow s.closed_stamp (n - length s.closed_stamp) v) (k.closed_stamps v);
      id_bound = k.id_bound;
    })
    | inr large ↦
        let size : length s.g_score ≡ n = ground (arith, k.fits) in
        rw large (record {
          g_size = size;
          f_size = k.f_size ∙ size;
          parent_size = k.parent_size ∙ size;
          stamp_size = k.stamp_size ∙ size;
          closed_size = k.closed_size ∙ size;
          stamps = k.stamps;
          closed_stamps = k.closed_stamps;
          id_bound = k.id_bound;
        })
  ]

  next_search-IsBlank : (n : ℕ) (s : GraphScratch F) → IsEven n s → IsBlank n (next_search s)
  unfolding next_search
  next_search-IsBlank n s k = elim (Bool-cases ((s.search_id + 1) % u32 == 0)) [
    | inl wraps ↦ rw wraps (record {
      sized = record {
        g_size = k.g_size;
        f_size = k.f_size;
        parent_size = k.parent_size;
        stamp_size = length-replicate (length s.stamp) 0 ∙ k.stamp_size;
        closed_size = length-replicate (length s.closed_stamp) 0 ∙ k.closed_size;
        stamps = λ v. omega (arith, get_or-replicate {A = ℕ} (length s.stamp) v 0);
        closed_stamps = λ v. omega (arith, get_or-replicate {A = ℕ} (length s.closed_stamp) v 0);
        id_pos = omega arith;
        id_bound = omega arith;
      };
      unseen = λ v. ground (arith, get_or-replicate {A = ℕ} (length s.stamp) v 0);
      unclosed = λ v. ground (arith, get_or-replicate {A = ℕ} (length s.closed_stamp) v 0);
      empty = refl;
    })
    | inr fits ↦
        let id : (s.search_id + 1) % u32 ≡ s.search_id + 1 = ground (arith, k.id_bound) in
        rw fits (record {
          sized = record {
            g_size = k.g_size;
            f_size = k.f_size;
            parent_size = k.parent_size;
            stamp_size = k.stamp_size;
            closed_size = k.closed_size;
            stamps = λ v. omega (arith, id, k.stamps v);
            closed_stamps = λ v. omega (arith, id, k.closed_stamps v);
            id_pos = omega (arith, id);
            id_bound = omega arith;
          };
          unseen = λ v. ground (arith, id, k.stamps v);
          unclosed = λ v. ground (arith, id, k.closed_stamps v);
          empty = refl;
        })
  ]

  -- After scratchBegin on a scratch that any sequence of searches may have left, every vector has one slot for each
  -- node, no slot counts as seen or closed, and the heap is empty.
  pub scratch_begin-IsBlank :
      (graph : AStarGraph F)
      → IsScratch (length graph.nodes) graph.scratch
      → IsBlank (length graph.nodes) (scratch_begin graph)
  unfolding scratch_begin
  scratch_begin-IsBlank graph k =
      next_search-IsBlank _ _ (size_scratch-IsEven (length graph.nodes) graph.scratch k)
