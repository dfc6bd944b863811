-- ===== src/Heap/Shuffle.antt =====
-- The heap's operations only move entries about, whatever the keys are.
use mathlib.Core.List.Perm
use zk_libcod.Prelude.{
  ℕ, zero, suc, ◌-◌, ◌<◌, ◌≡◌, refl, ◌∙◌, List, [], ◌∷◌, ◌++◌, Perm, arith, length, get_or, set,
  take, ltb, ◌==◌, if◌then◌else◌, length-append, length-set, length-take, get_or-set, Bool-cases,
  inl, inr,
}
use zk_libcod.Float.{FloatOps}
use zk_libcod.Heap.{
  GraphHeapEntry, at, no_entry, key, parent, swap, smallest_of, sift_up_loop, sift_down_loop,
  heap_sift_up, heap_sift_down, heap_push, heap_pop_rest, heap_pop,
}
use zk_libcod.Heap.Arrays.{length-swap, swap-perm, set-perm, snoc-perm, take_last, get_or-take}

module _ {F : Type 0} ⦃fl : FloatOps F⦄ where
  open fl use {fle}

  -- What is left once the last entry has taken the place of the first.
  module _ (heap : List (GraphHeapEntry F)) (n : ℕ) (size : length heap ≡ suc n) where
    abbrev pub shorter : List (GraphHeapEntry F)
    shorter = take n (set heap 0 (at heap n))

    pub length-shorter : length shorter ≡ n
    length-shorter =
        omega (arith, length-take n (set heap 0 (at heap n)), length-set heap 0 (at heap n))

    last_kept : get_or (set heap 0 (at heap n)) n no_entry ≡ at heap n
    last_kept = ground (arith, get_or-set heap 0 n (at heap n) no_entry (omega arith))

    pub at-shorter : (i : ℕ) → i < n → at shorter i ≡ (if 0 == i then at heap n else at heap i)
    at-shorter i p =
        get_or-take n (set heap 0 (at heap n)) i no_entry p
        ∙ get_or-set heap 0 i (at heap n) no_entry (omega arith)

    -- The entries other than the root.
    pub shorter-perm : Perm (at heap 0 ∷ shorter) heap
    shorter-perm =
        let whole =
          take_last n (set heap 0 (at heap n)) no_entry (rw (length-set heap 0 (at heap n)) size) in
        let traded = set-perm heap 0 (at heap n) no_entry (omega arith) in
        let split : Perm (set heap 0 (at heap n)) (at heap n ∷ shorter) =
          rw last_kept at
            (rw whole at (snoc-perm shorter (get_or (set heap 0 (at heap n)) n no_entry))) in
        Perm.cons_inv (
          Perm.trans (Perm.trans (Perm.swap _ _ _) (Perm.cons (at heap 0) (Perm.symm split)))
            traded)

  sift_up_loop-perm :
      (k : ℕ) (heap : List (GraphHeapEntry F)) (i : ℕ)
      → i < length heap
      → Perm (sift_up_loop k heap i) heap
  unfolding sift_up_loop
  sift_up_loop-perm zero heap i h = Perm.rfl
  sift_up_loop-perm (suc k) heap i h = elim (Bool-cases (ltb 0 i)) [
    | inr first ↦ rw first Perm.rfl
    | inl later ↦ elim (Bool-cases (fle (key heap (parent i)) (key heap i))) [
      | inl ordered ↦ rw (later, ordered) Perm.rfl
      | inr inverted ↦
          let up : parent i < length heap = ground arith in
          rw (later, inverted)
            (Perm.trans
              (sift_up_loop-perm k (swap heap (parent i) i) (parent i) (rw length-swap up))
              (swap-perm heap (parent i) i up h))
    ]
  ]

  smallest_of-lt :
      (heap : List (GraphHeapEntry F)) (i : ℕ) → i < length heap → smallest_of heap i < length heap
  unfolding smallest_of
  smallest_of-lt heap i h = ground arith

  sift_down_loop-perm :
      (k : ℕ) (heap : List (GraphHeapEntry F)) (i : ℕ)
      → i < length heap
      → Perm (sift_down_loop k heap i) heap
  unfolding sift_down_loop
  sift_down_loop-perm zero heap i h = Perm.rfl
  sift_down_loop-perm (suc k) heap i h =
      let m = smallest_of heap i in
      let lt = smallest_of-lt heap i h in
      elim (Bool-cases (m == i)) [
        | inl stays ↦ rw stays Perm.rfl
        | inr moves ↦ rw moves (
            Perm.trans (sift_down_loop-perm k (swap heap m i) m (rw length-swap lt))
              (swap-perm heap m i lt h))
      ]

  pub heap_push_moves :
      (heap : List (GraphHeapEntry F)) (f : F) (node : ℕ)
      → Perm (heap_push heap f node) (record { f = f; node = node } ∷ heap)
  unfolding heap_push heap_sift_up
  heap_push_moves heap f node =
      let e : GraphHeapEntry F = record { f = f; node = node } in
      let size = length-append heap (e ∷ []) in
      Perm.trans
        (sift_up_loop-perm (length (heap ++ e ∷ []) - 1) (heap ++ e ∷ [])
          (length (heap ++ e ∷ []) - 1) (omega arith))
        (snoc-perm heap e)

  pub heap_pop_moves :
      (heap : List (GraphHeapEntry F))
      → 0 < length heap
      → Perm ((heap_pop heap).0 ∷ (heap_pop heap).1) heap
  unfolding heap_pop heap_pop_rest heap_sift_down
  heap_pop_moves [] pos = elim pos [ ]
  heap_pop_moves (x ∷ xs) pos =
      let heap = x ∷ xs in
      let last : length heap - 1 ≡ length xs = omega arith in
      let cut = shorter heap (length xs) refl in
      rw last (elim (Bool-cases (length cut == 0)) [
        | inl empty ↦ rw empty (shorter-perm heap (length xs) refl)
        | inr some_left ↦ rw some_left (
            Perm.trans (Perm.cons _ (sift_down_loop-perm (length cut) cut 0 (ground arith)))
              (shorter-perm heap (length xs) refl))
      ])
