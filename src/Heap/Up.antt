-- ===== src/Heap/Up.antt =====
-- heapSiftUp mends a heap whose entry at one index may be below its parent.
use mathlib.Core.Logic.{◌≢◌}
use mathlib.Core.List.Perm
use zk_libcod.Prelude.{
  ℕ, zero, suc, ◌<◌, ◌≤◌, ◌≡◌, inl, inr, List, true, false, arith, length, ltb, Bool-cases,
}
use zk_libcod.Float.{FloatOps, FloatLaws, fle_of_not_fle}
use zk_libcod.Heap.{GraphHeapEntry, key, parent, swap, sift_up_loop, heap_sift_up}
use zk_libcod.Heap.Arrays.{length-swap, at-swap}
use zk_libcod.Heap.Order.{HasNumKeys, Sifted, Sifted-swap}

module _ {F : Type 0} ⦃fl : FloatOps F⦄ where
  open fl use {fle}

  -- Only the edge above `i` may be out of order.
  pub record UpInv (heap : List (GraphHeapEntry F)) (i : ℕ) : Type 0 where
    pub inside : i < length heap
    pub numbers : HasNumKeys heap
    pub edges :
        (c : ℕ) → 0 < c → c < length heap → c ≢ i → fle (key heap (parent c)) (key heap c) ≡ true
    pub bridged :
        (c : ℕ)
        → 0 < c
        → c < length heap
        → parent c ≡ i
        → 0 < i
        → fle (key heap (parent i)) (key heap c) ≡ true

  module _ (laws : FloatLaws fl) (heap : List (GraphHeapEntry F)) (i : ℕ) (v : UpInv heap i)
      (pos : 0 < i) (below : fle (key heap (parent i)) (key heap i) ≡ false) where
    turned : fle (key heap i) (key heap (parent i)) ≡ true
    turned =
        fle_of_not_fle laws _ _ (v.numbers (parent i) (omega arith)) (v.numbers i v.inside) below

    swap-UpInv : UpInv (swap heap (parent i) i) (parent i)
    swap-UpInv =
        let size = length-swap heap (parent i) i in
        let moved = at-swap heap (parent i) i (omega arith) v.inside in
        record {
          inside = omega arith;
          numbers = λ c p. ground (arith, moved c, v.numbers c, v.numbers i, v.numbers (parent i));
          edges = λ c p q r. ground (
            arith,
            moved c,
            moved (parent c),
            v.edges c,
            v.bridged c,
            turned,
            laws.fle_trans (key heap i) (key heap (parent i)) (key heap c),
          );
          bridged = λ c p q r s. ground (
            arith,
            moved c,
            moved (parent (parent i)),
            v.edges c,
            v.edges (parent i),
            laws.fle_trans (key heap (parent (parent i))) (key heap (parent i)) (key heap c),
          );
        }

  sift_up_loop_restores :
      FloatLaws fl
      → (k : ℕ) (heap : List (GraphHeapEntry F)) (i : ℕ) → i ≤ k
      → UpInv heap i
      → Sifted heap (sift_up_loop k heap i)
  unfolding sift_up_loop
  sift_up_loop_restores laws zero heap i e v =
      (record { ordered = λ c p q. v.edges c p q (omega arith); numbers = v.numbers }, Perm.rfl)
  sift_up_loop_restores laws (suc k) heap i e v = elim (Bool-cases (ltb 0 i)) [
    | inl pos ↦ elim (Bool-cases (fle (key heap (parent i)) (key heap i))) [
      | inl settled ↦
          rw (pos, settled)
            (record { ordered = λ c p q. ground (arith, v.edges c); numbers = v.numbers }, Perm.rfl)
      | inr below ↦
          rw (pos, below)
            (Sifted-swap heap _ (parent i) i (omega arith) v.inside (
              sift_up_loop_restores laws k (swap heap (parent i) i) (parent i) (ground arith)
                (swap-UpInv laws heap i v (ground arith) below)))
    ]
    | inr root ↦
        rw root (
          record { ordered = λ c p q. v.edges c p q (ground arith); numbers = v.numbers },
          Perm.rfl,
        )
  ]

  -- heapSiftUp makes a heap of the same entries.
  pub heap_sift_up_restores :
      FloatLaws fl
      → (heap : List (GraphHeapEntry F)) (i : ℕ) → UpInv heap i
      → Sifted heap (heap_sift_up heap i)
  unfolding heap_sift_up
  heap_sift_up_restores laws heap i v = sift_up_loop_restores laws i heap i (omega arith) v
