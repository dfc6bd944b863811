-- ===== src/Heap/Down.antt =====
-- heapSiftDown mends a heap whose entry at one index may be above its children.
use mathlib.Core.Logic.{◌≢◌}
use mathlib.Core.List.Perm
use zk_libcod.Prelude.{
  ℕ, zero, suc, ◌+◌, ◌-◌, ◌*◌, ◌<◌, ◌≤◌, ◌≡◌, ◌⊎◌, inl, inr, List, true, arith, length, ◌==◌,
  Bool-cases, ==_iff, ne→==,
}
use zk_libcod.Float.{FloatOps, FloatLaws, fle_of_flt, fle_of_not_flt}
use zk_libcod.Heap.{GraphHeapEntry, key, parent, swap, smallest_of, sift_down_loop, heap_sift_down}
use zk_libcod.Heap.Arrays.{length-swap, at-swap}
use zk_libcod.Heap.Order.{HasNumKeys, Sifted, Sifted-swap}

child_of : (c i : ℕ) → 0 < c → parent c ≡ i → (c ≡ i * 2 + 1) ⊎ (c ≡ i * 2 + 1 + 1)
child_of c i p e = omega arith

module _ {F : Type 0} ⦃fl : FloatOps F⦄ where
  open fl use {fle, flt}

  -- Only the edges below `i` may be out of order.
  pub record DownInv (heap : List (GraphHeapEntry F)) (i : ℕ) : Type 0 where
    pub numbers : HasNumKeys heap
    pub inside : i < length heap
    pub edges :
        (c : ℕ)
        → 0 < c
        → c < length heap
        → parent c ≢ i
        → fle (key heap (parent c)) (key heap c) ≡ true
    pub bridged :
        (c : ℕ)
        → 0 < c
        → c < length heap
        → parent c ≡ i
        → 0 < i
        → fle (key heap (parent i)) (key heap c) ≡ true

  -- `m` has the least key among `i` and its children, and is a child unless it is `i`.
  record IsSmallest (heap : List (GraphHeapEntry F)) (i m : ℕ) : Type 0 where
    inside : m < length heap
    child : (m ≡ i) ⊎ ((0 < m) × (parent m ≡ i) × (i < m))
    least_self : fle (key heap m) (key heap i) ≡ true
    least : (c : ℕ) → 0 < c → c < length heap → parent c ≡ i → fle (key heap m) (key heap c) ≡ true

  smallest_of-IsSmallest :
      FloatLaws fl
      → (heap : List (GraphHeapEntry F)) (i : ℕ) → DownInv heap i
      → IsSmallest heap i (smallest_of heap i)
  unfolding smallest_of
  smallest_of-IsSmallest laws heap i v =
      let left = i * 2 + 1 in
      let right = left + 1 in
      let l = key heap left in
      let r = key heap right in
      let k = key heap i in
      let has_left = v.numbers left in
      let has_right = v.numbers right in
      let keep = fle_of_not_flt laws l k in
      let keep_right = fle_of_not_flt laws r k in
      let keep_left = fle_of_not_flt laws r l in
      let lower = fle_of_flt laws l k in
      let lower_right = fle_of_flt laws r k in
      let lower_left = fle_of_flt laws r l in
      let chain = laws.fle_trans r l k in
      let over = laws.fle_trans r k l in
      record {
        inside = ground (arith, v.inside);
        child = ground arith;
        least_self = ground (arith, v.numbers i, lower, lower_right, lower_left, chain);
        least = λ c p q e. elim (child_of c i p e) [
          | inl is_left ↦ rw is_left (
              ground (
                arith,
                v.numbers i,
                has_left,
                has_right,
                keep,
                lower,
                over,
                lower_left,
                lower_right,
              ))
          | inr is_right ↦
              rw is_right (ground (arith, v.numbers i, has_left, has_right, keep_right, keep_left))
        ];
      }

  module _ (laws : FloatLaws fl) (heap : List (GraphHeapEntry F)) (i m : ℕ) (v : DownInv heap i)
      (s : IsSmallest heap i m) (below : i < m) (child : parent m ≡ i) where
    swap-DownInv : DownInv (swap heap m i) m
    swap-DownInv =
        let size = length-swap heap m i in
        let moved = at-swap heap m i s.inside v.inside in
        record {
          inside = omega (arith, s.inside);
          numbers = λ c p.
              ground (arith, moved c, v.numbers c, v.numbers i, v.numbers m, v.inside, s.inside);
          edges = λ c p q r. ground (
            arith,
            moved c,
            moved (parent c),
            v.edges c,
            v.bridged c,
            v.bridged m,
            s.least c,
            s.least_self,
            s.inside,
          );
          bridged = λ c p q r t. ground (arith, moved c, moved (parent m), v.edges c, s.inside);
        }

  sift_down_loop_restores :
      FloatLaws fl
      → (k : ℕ) (heap : List (GraphHeapEntry F)) (i : ℕ) → length heap - i ≤ k
      → DownInv heap i
      → Sifted heap (sift_down_loop k heap i)
  unfolding sift_down_loop
  sift_down_loop_restores laws zero heap i f v = absurd (omega (arith, v.inside))
  sift_down_loop_restores laws (suc k) heap i f v =
      let m = smallest_of heap i in
      let s = smallest_of-IsSmallest laws heap i v in
      elim s.child [
        | inl stays ↦ rw ((==_iff m i).1 stays) (
          record {
            ordered = λ c p q. elim (Bool-cases (parent c == i)) [
              | inl e ↦ ground (arith, v.edges c, s.least c)
              | inr ne ↦ ground (arith, v.edges c, s.least c)
            ];
            numbers = v.numbers;
          },
          Perm.rfl,
        )
        | inr (pos, child, below) ↦ rw (ne→== m i (omega arith)) (
            Sifted-swap heap _ m i s.inside v.inside (
              sift_down_loop_restores laws k (swap heap m i) m
                (omega (arith, length-swap heap m i, s.inside))
                (swap-DownInv laws heap i m v s below child)))
      ]

  -- heapSiftDown makes a heap of the same entries.
  pub heap_sift_down_restores :
      FloatLaws fl
      → (heap : List (GraphHeapEntry F)) (i : ℕ) → DownInv heap i
      → Sifted heap (heap_sift_down heap i)
  unfolding heap_sift_down
  heap_sift_down_restores laws heap i v =
      sift_down_loop_restores laws (length heap) heap i (omega arith) v
