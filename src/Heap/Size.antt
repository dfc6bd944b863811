-- ===== src/Heap/Size.antt =====
-- heapPush adds one entry and heapPop takes one off, whatever the keys are.
use zk_libcod.Prelude.{
  ℕ, zero, suc, ◌-◌, ◌<◌, ◌≡◌, refl, List, [], ◌∷◌, ◌++◌, arith, length, length-append, length-set,
  length-take, set, take,
}
use zk_libcod.Float.{FloatOps}
use zk_libcod.Heap.{
  GraphHeapEntry, at, parent, swap, smallest_of, sift_up_loop, sift_down_loop, heap_sift_up,
  heap_sift_down, heap_push, heap_pop_rest, heap_pop,
}
use zk_libcod.Heap.Arrays.{length-swap}

module _ {F : Type 0} ⦃fl : FloatOps F⦄ where
  length-sift_up_loop :
      (k : ℕ) (heap : List (GraphHeapEntry F)) (i : ℕ)
      → length (sift_up_loop k heap i) ≡ length heap
  unfolding sift_up_loop
  length-sift_up_loop zero heap i = refl
  length-sift_up_loop (suc k) heap i = ground (
    arith,
    length-sift_up_loop k (swap heap (parent i) i) (parent i),
    length-swap heap (parent i) i,
  )

  length-sift_down_loop :
      (k : ℕ) (heap : List (GraphHeapEntry F)) (i : ℕ)
      → length (sift_down_loop k heap i) ≡ length heap
  unfolding sift_down_loop
  length-sift_down_loop zero heap i = refl
  length-sift_down_loop (suc k) heap i =
      let m = smallest_of heap i in
      ground (arith, length-sift_down_loop k (swap heap m i) m, length-swap heap m i)

  pub length-heap_push :
      (heap : List (GraphHeapEntry F)) (f : F) (node : ℕ)
      → length (heap_push heap f node) ≡ suc (length heap)
  unfolding heap_push heap_sift_up
  length-heap_push heap f node =
      let pushed = heap ++ record { f = f; node = node } ∷ [] in
      omega (
        arith,
        length-sift_up_loop (length pushed - 1) pushed (length pushed - 1),
        length-append heap (record { f = f; node = node } ∷ []),
      )

  pub length-heap_pop :
      (heap : List (GraphHeapEntry F))
      → 0 < length heap
      → suc (length (heap_pop heap).1) ≡ length heap
  unfolding heap_pop heap_pop_rest heap_sift_down
  length-heap_pop heap pos =
      let moved = set heap 0 (at heap (length heap - 1)) in
      let shorter = take (length moved - 1) moved in
      let kept = length-sift_down_loop (length shorter) shorter 0 in
      let cut = length-take (length moved - 1) moved in
      let same = length-set heap 0 (at heap (length heap - 1)) in ground (arith, kept, cut, same)
