-- ===== src/Prelude/Members.antt =====
-- Membership in a list that is extended at its end, and the index of a member.
use Prim.Native.Nat.{ℕ, zero, suc, ◌<◌}
use mathlib.Core.Path.{◌≡◌, refl, sym}
use mathlib.Core.Logic.{◌⊎◌, inl, inr}
use mathlib.Core.List.{List, [], ◌∷◌, ◌++◌, Memᴰ}
use mathlib.Core.List.Memᴰ
use native.Mathlib.Omega.{arith}
use zk_libcod.Prelude.Lists.{length, get_or}

pub memᴰ_snoc {ℓ} :
    {A : Type ℓ} (a b : A) (xs : List A) → Memᴰ a (xs ++ b ∷ []) → Memᴰ a xs ⊎ (a ≡ b)
memᴰ_snoc a b [] m = elim (Memᴰ.cases_cons m) [
  | inl same ↦ inr same
  | inr nowhere ↦ absurd (Memᴰ.not-nil nowhere)
]
memᴰ_snoc a b (x ∷ xs) m = elim (Memᴰ.cases_cons m) [
  | inl same ↦ inl (Memᴰ.head same)
  | inr later ↦ elim (memᴰ_snoc a b xs later) [ inl old ↦ inl (Memᴰ.tail old) | inr new ↦ inr new ]
]

pub snoc_last {ℓ} : {A : Type ℓ} (b : A) (xs : List A) → Memᴰ b (xs ++ b ∷ [])
snoc_last b [] = Memᴰ.head refl
snoc_last b (x ∷ xs) = Memᴰ.tail (snoc_last b xs)

pub snoc_old {ℓ} : {A : Type ℓ} (a b : A) {xs : List A} → Memᴰ a xs → Memᴰ a (xs ++ b ∷ [])
snoc_old a b (Memᴰ.head same) = Memᴰ.head same
snoc_old a b (Memᴰ.tail m) = Memᴰ.tail (snoc_old a b m)

pub mem_index {ℓ} :
    {A : Type ℓ} (e d : A) {xs : List A}
    → Memᴰ e xs
    → (i : ℕ) × (i < length xs) × (get_or xs i d ≡ e)
mem_index e d (Memᴰ.head same) = (0, omega arith, sym same)
mem_index e d (Memᴰ.tail m) = let (i, inside, same) = mem_index e d m in (suc i, omega arith, same)

pub member_at {ℓ} :
    {A : Type ℓ} (xs : List A) (i : ℕ) (d : A) → i < length xs → Memᴰ (get_or xs i d) xs
member_at [] i d h = elim h [ ]
member_at (x ∷ xs) zero d h = Memᴰ.head refl
member_at (x ∷ xs) (suc i) d h = Memᴰ.tail (member_at xs i d (omega arith))
