-- ===== src/Tests/Numbers.antt =====
-- Floats that are natural numbers: every law that the proofs use holds of them.
use zk_libcod.Prelude.{ℕ, ◌+◌, ◌-◌, ◌*◌, ◌/◌, refl, arith, ltb, leb, ◌==◌}
use zk_libcod.Prelude.Int.{pos, pos_part}
use zk_libcod.Float.{FloatOps, FloatLaws}

instance abbrev pub natural_floats : FloatOps ℕ
natural_floats = record {
  fzero = 0;
  fadd = λ a b. a + b;
  fsub = λ a b. a - b;
  fmul = λ a b. a * b;
  fdiv = λ a b. a / b;
  fsqrt = λ a. a;
  flt_max = 1000;
  of_int = pos_part;
  to_int = pos;
  flt = ltb;
  fle = leb;
  feq = ◌==◌;
}

pub natural_laws : FloatLaws natural_floats
natural_laws = record {
  fle_trans = λ a b c p q. ground arith;
  fle_total = λ a b p q. ground arith;
  fle_num = λ a b p. ground arith;
  flt_fle = λ a b. ground arith;
  feq_fle = λ a b. ground arith;
  fle-fadd = λ a c p q. ground arith;
  fadd_mono = λ a b c p q r. ground arith;
  flt-zero-max = refl;
}
