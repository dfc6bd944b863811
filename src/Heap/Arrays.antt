-- ===== src/Heap/Arrays.antt =====
-- What the heap's vector operations do to the entries and to their order.
use mathlib.Core.List.{perm_middle, append-nil}
use mathlib.Core.List.Perm
use zk_libcod.Prelude.{
  ℕ, zero, suc, ◌<◌, ◌≡◌, refl, ap, List, [], ◌∷◌, ◌++◌, Perm, arith, ◌==◌, if◌then◌else◌, length,
  get_or, set, take, length-set, get_or-set,
}
use zk_libcod.Float.{FloatOps}
use zk_libcod.Heap.{GraphHeapEntry, at, swap, no_entry}

module _ {ℓ} {A : Type ℓ} where
  -- Writing `v` over the entry at `i` trades one for the other.
  pub set-perm :
      (xs : List A) (i : ℕ) (v d : A) → i < length xs → Perm (get_or xs i d ∷ set xs i v) (v ∷ xs)
  set-perm [] i v d h = elim h [ ]
  set-perm (x ∷ xs) zero v d h = Perm.swap v x xs
  set-perm (x ∷ xs) (suc i) v d h =
      Perm.trans (Perm.swap x _ _)
        (Perm.trans (Perm.cons x (set-perm xs i v d (omega arith))) (Perm.swap v x xs))

  pub snoc-perm : (xs : List A) (v : A) → Perm (xs ++ v ∷ []) (v ∷ xs)
  snoc-perm xs v = rw (append-nil xs) at (perm_middle {a = v} xs [])

  pub take_last :
      (n : ℕ) (xs : List A) (d : A) → length xs ≡ suc n → take n xs ++ get_or xs n d ∷ [] ≡ xs
  take_last zero (x ∷ []) d h = refl
  take_last zero [] d h = absurd (omega arith)
  take_last zero (x ∷ y ∷ xs) d h = absurd (omega arith)
  take_last (suc n) [] d h = absurd (omega arith)
  take_last (suc n) (x ∷ xs) d h = ap (◌∷◌ x) (take_last n xs d (omega arith))

  pub get_or-take :
      (n : ℕ) (xs : List A) (i : ℕ) (d : A) → i < n → get_or (take n xs) i d ≡ get_or xs i d
  get_or-take zero xs i d h = elim h [ ]
  get_or-take (suc n) [] i d h = refl
  get_or-take (suc n) (x ∷ xs) zero d h = refl
  get_or-take (suc n) (x ∷ xs) (suc i) d h = get_or-take n xs i d (omega arith)

module _ {F : Type 0} ⦃fl : FloatOps F⦄ where
  pub length-swap :
      (heap : List (GraphHeapEntry F)) (i j : ℕ) → length (swap heap i j) ≡ length heap
  unfolding swap
  length-swap heap i j = simp length-set

  module _ (heap : List (GraphHeapEntry F)) (i j : ℕ) (hi : i < length heap)
      (hj : j < length heap) where
    pub at-swap :
        (c : ℕ)
        → at (swap heap i j) c
          ≡ (if j == c then at heap i else if i == c then at heap j else at heap c)
    unfolding swap
    at-swap c = rw (
      get_or-set (set heap i (at heap j)) j c (at heap i) no_entry (rw length-set hj),
      get_or-set heap i c (at heap j) no_entry hi,
    )

    pub swap-perm : Perm (swap heap i j) heap
    unfolding swap
    swap-perm =
        let once = set heap i (at heap j) in
        let kept : at once j ≡ at heap j =
          ground (arith, get_or-set heap i j (at heap j) no_entry hi) in
        let twice = rw kept at (set-perm once j (at heap i) no_entry (rw length-set hj)) in
        Perm.cons_inv (Perm.trans twice (set-perm heap i (at heap j) no_entry hi))
