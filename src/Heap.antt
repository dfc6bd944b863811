-- ===== src/Heap.antt =====
-- The binary min-heap of code/gsc_graph.cpp: the struct GraphHeapEntry, heapSiftUp, heapSiftDown,
-- heapPush and heapPop. A function that writes to the vector returns the new one.
pub mod Arrays
pub mod Order
pub mod Up
pub mod Down
pub mod Shuffle
pub mod Queue
pub mod Size
use zk_libcod.Prelude.{
  ℕ, zero, suc, ◌+◌, ◌-◌, ◌*◌, ◌/◌, List, [], ◌∷◌, ◌++◌, ltb, ◌==◌, if◌then◌else◌, Bool, ◌&&◌,
  length, get_or, set, take,
}
use zk_libcod.Float.{FloatOps}

pub record GraphHeapEntry (F : Type 0) : Type 0 where
  pub f : F
  pub node : ℕ

-- `(i - 1) / 2`
abbrev pub parent : ℕ → ℕ
parent i = (i - 1) / 2

module _ {F : Type 0} ⦃fl : FloatOps F⦄ where
  open fl use {fzero, flt, fle}

  -- What a read past the end would give; every index below is in range.
  abbrev pub no_entry : GraphHeapEntry F
  no_entry = record { f = fzero; node = 0 }

  abbrev pub at : List (GraphHeapEntry F) → ℕ → GraphHeapEntry F
  at heap i = get_or heap i no_entry

  abbrev pub key : List (GraphHeapEntry F) → ℕ → F
  key heap i = (at heap i).f

  -- The three assignments through `tmp`.
  pub swap : List (GraphHeapEntry F) → ℕ → ℕ → List (GraphHeapEntry F)
  swap heap i j = set (set heap i (at heap j)) j (at heap i)

  -- The loop of heapSiftUp. The index falls in each round, so `i` rounds are enough.
  pub sift_up_loop : ℕ → List (GraphHeapEntry F) → ℕ → List (GraphHeapEntry F)
  unfolding swap
  sift_up_loop zero heap i = heap
  sift_up_loop (suc rounds) heap i =
      let up = parent i in
      let rest = sift_up_loop rounds (swap heap up i) up in
      if ltb 0 i then (if fle (key heap up) (key heap i) then heap else rest) else heap

  pub heap_sift_up : List (GraphHeapEntry F) → ℕ → List (GraphHeapEntry F)
  unfolding sift_up_loop
  heap_sift_up heap i = sift_up_loop i heap i

  -- The child to trade places with, or `i`: the two tests of the loop of heapSiftDown.
  pub smallest_of : List (GraphHeapEntry F) → ℕ → ℕ
  smallest_of heap i =
      let left = i * 2 + 1 in
      let right = left + 1 in
      let size = length heap in
      let smallest = if ltb left size && flt (key heap left) (key heap i) then left else i in
      if ltb right size && flt (key heap right) (key heap smallest) then right else smallest

  -- The loop of heapSiftDown. The index grows in each round, so `length heap` rounds are enough.
  pub sift_down_loop : ℕ → List (GraphHeapEntry F) → ℕ → List (GraphHeapEntry F)
  unfolding smallest_of swap
  sift_down_loop zero heap i = heap
  sift_down_loop (suc rounds) heap i =
      let smallest = smallest_of heap i in
      let rest = sift_down_loop rounds (swap heap smallest i) smallest in
      if smallest == i then heap else rest

  pub heap_sift_down : List (GraphHeapEntry F) → ℕ → List (GraphHeapEntry F)
  unfolding sift_down_loop
  heap_sift_down heap i = sift_down_loop (length heap) heap i

  pub heap_push : List (GraphHeapEntry F) → F → ℕ → List (GraphHeapEntry F)
  unfolding heap_sift_up
  heap_push heap f node =
      let pushed = heap ++ record { f = f; node = node } ∷ [] in
      heap_sift_up pushed (length pushed - 1)

  -- `heap.pop_back()`
  abbrev pub pop_back : List (GraphHeapEntry F) → List (GraphHeapEntry F)
  pop_back heap = take (length heap - 1) heap

  -- What is left by heapPop, whose result is the entry that stood first.
  pub heap_pop_rest : List (GraphHeapEntry F) → List (GraphHeapEntry F)
  unfolding heap_sift_down
  heap_pop_rest heap =
      let shorter = pop_back (set heap 0 (at heap (length heap - 1))) in
      if length shorter == 0 then shorter else heap_sift_down shorter 0

  pub heap_pop : List (GraphHeapEntry F) → GraphHeapEntry F × List (GraphHeapEntry F)
  unfolding heap_pop_rest
  heap_pop heap = (at heap 0, heap_pop_rest heap)
