-- ===== src/Float.antt =====
-- C's `float`, which the language of this library does not have: the operations that the sources
-- apply are a parameter, and so are the facts of IEEE 754 comparison and rounding that the proofs
-- use. A NaN compares false with everything, itself included, so `a ≤ a` says that `a` is a number.
use zk_libcod.Prelude.{◌≡◌, ◌⊎◌, Bool, true, false, not, ◌&&◌, arith}
use zk_libcod.Prelude.Int.{ℤ}

pub record FloatOps (F : Type 0) : Type 0 where
  pub fzero : F
  pub fadd : F → F → F
  pub fsub : F → F → F
  pub fmul : F → F → F
  pub fdiv : F → F → F
  -- `sqrtf`
  pub fsqrt : F → F
  -- `FLT_MAX`
  pub flt_max : F
  -- The conversions from `int` and to `int`.
  pub of_int : ℤ → F
  pub to_int : F → ℤ
  -- `a < b`, `a <= b`, `a == b`
  pub flt : F → F → Bool
  pub fle : F → F → Bool
  pub feq : F → F → Bool

module _ {F : Type 0} (fl : FloatOps F) where
  open fl use {fzero, fadd, flt_max, flt, fle, feq}

  abbrev pub IsNum : F → Type 0
  IsNum a = fle a a ≡ true

  -- A number that is not negative: infinity is one, NaN is not.
  abbrev pub IsNonneg : F → Type 0
  IsNonneg a = fle fzero a ≡ true

  -- What IEEE 754 gives for all values (NaN and the infinities included, where no premise excludes
  -- them), with any rounding that is monotone.
  pub record FloatLaws : Type 0 where
    pub fle_trans : (a b c : F) → fle a b ≡ true → fle b c ≡ true → fle a c ≡ true
    pub fle_total : (a b : F) → IsNum a → IsNum b → (fle a b ≡ true) ⊎ (fle b a ≡ true)
    pub fle_num : (a b : F) → fle a b ≡ true → IsNum a × IsNum b
    pub flt_fle : (a b : F) → flt a b ≡ (fle a b && not (fle b a))
    pub feq_fle : (a b : F) → feq a b ≡ (fle a b && fle b a)
    -- Adding a number that is not negative does not lower a sum, and addition is monotone.
    pub fle-fadd : (a c : F) → IsNonneg a → IsNonneg c → fle a (fadd a c) ≡ true
    pub fadd_mono :
        (a b c : F) → IsNonneg a → IsNonneg c → fle a b ≡ true → fle (fadd a c) (fadd b c) ≡ true
    pub flt-zero-max : flt fzero flt_max ≡ true

module _ {F : Type 0} {fl : FloatOps F} (laws : FloatLaws fl) where
  open fl use {fzero, flt, fle, feq}

  pub fle_of_flt : (a b : F) → flt a b ≡ true → fle a b ≡ true
  fle_of_flt a b h = ground (arith, laws.flt_fle a b)

  -- On numbers a comparison that fails turns round.
  pub fle_of_not_flt : (a b : F) → IsNum fl a → IsNum fl b → flt a b ≡ false → fle b a ≡ true
  fle_of_not_flt a b p q h = ground (arith, laws.flt_fle a b, laws.fle_total a b p q)

  pub fle_of_not_fle : (a b : F) → IsNum fl a → IsNum fl b → fle a b ≡ false → fle b a ≡ true
  fle_of_not_fle a b p q h = ground (arith, laws.fle_total a b p q)
