-- ===== src/Heap/Order.antt =====
-- The order of the heap: no entry is below its parent. Keys are numbers (no NaN).
use mathlib.Core.List.Perm
use zk_libcod.Prelude.{ℕ, zero, suc, ◌<◌, ◌≡◌, List, Perm, true, arith, length}
use zk_libcod.Float.{FloatOps, FloatLaws, IsNum}
use zk_libcod.Heap.{GraphHeapEntry, key, parent, swap}
use zk_libcod.Heap.Arrays.{swap-perm}

module _ {F : Type 0} ⦃fl : FloatOps F⦄ where
  open fl use {fle}

  abbrev pub HasNumKeys : List (GraphHeapEntry F) → Type 0
  HasNumKeys heap = (i : ℕ) → i < length heap → IsNum fl (key heap i)

  abbrev pub IsOrdered : List (GraphHeapEntry F) → Type 0
  IsOrdered heap = (c : ℕ) → 0 < c → c < length heap → fle (key heap (parent c)) (key heap c) ≡ true

  pub record IsHeap (heap : List (GraphHeapEntry F)) : Type 0 where
    pub ordered : IsOrdered heap
    pub numbers : HasNumKeys heap

  -- A heap with the entries of `old`.
  abbrev pub Sifted : List (GraphHeapEntry F) → List (GraphHeapEntry F) → Type 0
  Sifted old heap = IsHeap heap × Perm heap old

  pub Sifted-swap :
      (heap t : List (GraphHeapEntry F)) (i j : ℕ)
      → i < length heap
      → j < length heap
      → Sifted (swap heap i j) t
      → Sifted heap t
  Sifted-swap heap t i j hi hj s = (s.0, Perm.trans s.1 (swap-perm heap i j hi hj))

  root_least_below :
      FloatLaws fl
      → (k : ℕ) (heap : List (GraphHeapEntry F)) (i : ℕ) → IsHeap heap
      → i < k
      → i < length heap
      → fle (key heap 0) (key heap i) ≡ true
  root_least_below laws zero heap i h f p = elim f [ ]
  root_least_below laws (suc k) heap zero h f p = h.numbers 0 p
  root_least_below laws (suc k) heap (suc i) h f p =
      laws.fle_trans _ _ _
        (root_least_below laws k heap (parent (suc i)) h (omega arith) (omega arith))
        (h.ordered (suc i) (omega arith) p)

  -- The entry at the root has the least key.
  pub root_least :
      FloatLaws fl
      → (heap : List (GraphHeapEntry F)) (i : ℕ) → IsHeap heap
      → i < length heap
      → fle (key heap 0) (key heap i) ≡ true
  root_least laws heap i h p = root_least_below laws (suc i) heap i h (omega arith) p
