-- ===== src/Heap/Queue.antt =====
-- heapPush and heapPop as a priority queue: the entries, the least of them, and the heap order.
use mathlib.Core.List.Perm
use mathlib.Core.Logic.{∥∥₁_elim}
use zk_libcod.Prelude.Members.{mem_index}
use zk_libcod.Prelude.{
  ℕ, suc, ◌-◌, ◌<◌, ◌≡◌, List, [], ◌∷◌, ◌++◌, Perm, Mem, subst, true, arith, length, length-append,
  get_or-append, get_or-append_last, if◌then◌else◌, refl, ◌==◌, ==_iff, Bool-cases, inl, inr,
}
use zk_libcod.Float.{FloatOps, FloatLaws, IsNum}
use zk_libcod.Heap.{
  GraphHeapEntry, key, parent, no_entry, heap_push, heap_pop, heap_sift_up, heap_sift_down,
}
use zk_libcod.Heap.Arrays.{snoc-perm}
use zk_libcod.Heap.Shuffle.{shorter, length-shorter, at-shorter, shorter-perm}
use zk_libcod.Heap.Order.{IsHeap, Sifted, root_least}
use zk_libcod.Heap.Up.{UpInv, heap_sift_up_restores}
use zk_libcod.Heap.Down.{DownInv, heap_sift_down_restores}

module _ {F : Type 0} ⦃fl : FloatOps F⦄ (laws : FloatLaws fl) where
  open fl use {fle}

  module _ (heap : List (GraphHeapEntry F)) (e : GraphHeapEntry F) (h : IsHeap heap)
      (num : IsNum fl e.f) where
    pushed-UpInv : UpInv (heap ++ e ∷ []) (length heap)
    pushed-UpInv =
        let size = length-append heap (e ∷ []) in
        let old = λ (i : ℕ) (p : i < length heap). get_or-append heap (e ∷ []) i no_entry p in
        let new = get_or-append_last heap e no_entry in
        record {
          inside = omega arith;
          numbers = λ i p. elim (Bool-cases (i == length heap)) [
            | inl last ↦ rw ((==_iff i _).0 last) (ground (arith, new))
            | inr other ↦ ground (arith, old i (ground arith), h.numbers i)
          ];
          edges = λ c p q r.
              ground (arith, old c (omega arith), old (parent c) (omega arith), h.ordered c);
          bridged = λ c p q r s. absurd (omega arith);
        }

    pushed_restores : Sifted (heap ++ e ∷ []) (heap_sift_up (heap ++ e ∷ []) (length heap))
    pushed_restores = heap_sift_up_restores laws (heap ++ e ∷ []) (length heap) pushed-UpInv

  -- Under the laws of floats, pushing an entry whose key is a number on a heap gives a heap with
  -- that entry and the old ones.
  pub heap_push-perm :
      (heap : List (GraphHeapEntry F)) (f : F) (node : ℕ)
      → IsHeap heap
      → IsNum fl f
      → IsHeap (heap_push heap f node)
        × Perm (heap_push heap f node) (record { f = f; node = node } ∷ heap)
  unfolding heap_push
  heap_push-perm heap f node h num =
      let e : GraphHeapEntry F = record { f = f; node = node } in
      let last : length (heap ++ e ∷ []) - 1 ≡ length heap =
        omega (arith, length-append heap (e ∷ [])) in
      rw last (
        (pushed_restores heap e h num).0,
        Perm.trans (pushed_restores heap e h num).1 (snoc-perm heap e),
      )

  module _ (heap : List (GraphHeapEntry F)) (n : ℕ) (size : length heap ≡ suc n)
      (h : IsHeap heap) where
    shorter-DownInv : 0 < n → DownInv (shorter heap n size) 0
    shorter-DownInv pos = record {
      numbers = λ i p. ground (
        arith,
        (length-shorter heap n size),
        (at-shorter heap n size) i,
        h.numbers i,
        h.numbers n,
      );
      inside = omega (arith, (length-shorter heap n size));
      edges = λ c p q r. ground (
        arith,
        (length-shorter heap n size),
        (at-shorter heap n size) c,
        (at-shorter heap n size) (parent c),
        h.ordered c,
      );
      bridged = λ c p q r s. absurd (omega arith);
    }

    popped_restores : Sifted (shorter heap n size) (
        if length (shorter heap n size) == 0
        then (shorter heap n size)
        else heap_sift_down (shorter heap n size) 0)
    popped_restores = elim (Bool-cases (length (shorter heap n size) == 0)) [
      | inl empty ↦ rw empty (
        record {
          ordered = λ c p q. absurd (ground (arith, empty));
          numbers = λ c p. absurd (ground (arith, empty));
        },
        Perm.rfl,
      )
      | inr some_left ↦ rw some_left (
          heap_sift_down_restores laws (shorter heap n size) 0
            (shorter-DownInv (ground (arith, (length-shorter heap n size)))))
    ]

  -- Under the laws of floats, heapPop on a heap that is not empty gives an entry whose key is
  -- least, and leaves a heap of the other entries.
  pub heap_pop-perm :
      (heap : List (GraphHeapEntry F))
      → IsHeap heap
      → 0 < length heap
      → IsHeap (heap_pop heap).1
        × Perm ((heap_pop heap).0 ∷ (heap_pop heap).1) heap
        × ((i : ℕ) → i < length heap → fle (heap_pop heap).0.f (key heap i) ≡ true)
  unfolding heap_pop
  heap_pop-perm [] h pos = elim pos [ ]
  heap_pop-perm (x ∷ xs) h pos =
      let heap = x ∷ xs in
      let (ordered, same) = popped_restores heap (length xs) refl h in
      let last : length heap - 1 ≡ length xs = omega arith in
      rw last (
        ordered,
        Perm.trans (Perm.cons x same) (shorter-perm heap (length xs) refl),
        λ i p. root_least laws heap i h p,
      )

  -- The key that heapPop gives is no greater than any in the heap.
  pub heap_pop-least :
      (heap : List (GraphHeapEntry F))
      → IsHeap heap
      → 0 < length heap
      → (e : GraphHeapEntry F) → Mem e heap
      → fle (heap_pop heap).0.f e.f ≡ true
  heap_pop-least heap h pos e m = ∥∥₁_elim m (hlevel) (λ d.
      let (i, inside, same) = mem_index e no_entry d in
      subst (λ x. fle (heap_pop heap).0.f x.f ≡ true) same ((heap_pop-perm heap h pos).2 i inside))
