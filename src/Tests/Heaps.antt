-- ===== src/Tests/Heaps.antt =====
-- The theorems on the heap, applied to one of two entries.
use zk_libcod.Prelude.{ℕ, ◌≡◌, ◌<◌, true, List, [], ◌∷◌, length, arith, refl, Perm}
use zk_libcod.Heap.{GraphHeapEntry, heap_push, heap_pop, key}
use zk_libcod.Heap.Order.{IsHeap}
use zk_libcod.Heap.Queue.{heap_push-perm, heap_pop-perm}
use zk_libcod.Heap.Size.{length-heap_push}
use zk_libcod.Tests.Numbers.{natural_floats, natural_laws}

empty-IsHeap : IsHeap {F = ℕ} []
empty-IsHeap = record { ordered = λ c p q. elim q [ ]; numbers = λ i p. elim p [ ] }

abbrev one : List (GraphHeapEntry ℕ)
one = heap_push [] 5 2

abbrev two : List (GraphHeapEntry ℕ)
two = heap_push one 3 4

one-IsHeap : IsHeap one
one-IsHeap = (heap_push-perm natural_laws [] 5 2 empty-IsHeap refl).0

heap_push-perm_example : IsHeap two × Perm two (record { f = 3; node = 4 } ∷ one)
heap_push-perm_example = heap_push-perm natural_laws one 3 4 one-IsHeap refl

heap_pop-perm_example :
    IsHeap (heap_pop two).1
    × Perm ((heap_pop two).0 ∷ (heap_pop two).1) two
    × ((i : ℕ) → i < length two → natural_floats.fle (heap_pop two).0.f (key two i) ≡ true)
heap_pop-perm_example =
    heap_pop-perm natural_laws two heap_push-perm_example.0
      (omega (arith, length-heap_push one 3 4, length-heap_push {F = ℕ} [] 5 2))
