-- ===== src/Base/Double.antt =====
-- `double`: a type with the constants, operations and comparisons that the code uses. The laws that
-- a theorem needs are hypotheses of that theorem. IEEE arithmetic is not a field: nothing is assumed
-- of rounding.
use potfit.Base.Int.{ℤ, pos, negsuc, pos_part, neg_part, ltb_ℤ, ◌+ℤ◌, ◌-ℤ◌}
use Prim.Native.Nat.{ℕ, ◌+◌, ◌*◌, ◌/◌}
use mathlib.Core.Bool.{Bool, not, ◌&&◌}

pub record Double (W : Type 0) : Type 0 where
  -- the literal `n / d`, such as `lit 1 2` for 0.5, and `(double)n` as `lit n 1`
  pub lit : ℕ → ℕ → W
  pub add : W → W → W
  pub sub : W → W → W
  pub mul : W → W → W
  pub div : W → W → W
  pub neg : W → W
  pub sqrt : W → W
  pub fabs : W → W
  pub lt : W → W → Bool
  pub le : W → W → Bool
  pub eq : W → W → Bool

infixl 65 ◌⊕◌ ◌⊖◌
infixl 70 ◌⊗◌ ◌⊘◌
abbrev pub ◌⊕◌ : {W : Type 0} ⦃d : Double W⦄ → W → W → W
◌⊕◌ ⦃d⦄ = d.add

abbrev pub ◌⊖◌ : {W : Type 0} ⦃d : Double W⦄ → W → W → W
◌⊖◌ ⦃d⦄ = d.sub

abbrev pub ◌⊗◌ : {W : Type 0} ⦃d : Double W⦄ → W → W → W
◌⊗◌ ⦃d⦄ = d.mul

abbrev pub ◌⊘◌ : {W : Type 0} ⦃d : Double W⦄ → W → W → W
◌⊘◌ ⦃d⦄ = d.div

-- `a > b` and `a >= b` are the exchanged comparisons.
abbrev pub gt : {W : Type 0} ⦃d : Double W⦄ → W → W → Bool
gt ⦃d⦄ a b = d.lt b a

abbrev pub ge : {W : Type 0} ⦃d : Double W⦄ → W → W → Bool
ge ⦃d⦄ a b = d.le b a

abbrev pub zero_double : {W : Type 0} ⦃d : Double W⦄ → W
zero_double ⦃d⦄ = d.lit 0 1

-- Doubles for tests and witnesses: whole thousandths, with products and quotients rounded towards
-- zero, a quotient by zero 0, and `sqrt` not needed.
abbrev pub Milli : Type 0
Milli = ℤ

abbrev magnitude : ℤ → ℕ
magnitude a = pos_part a + neg_part a

-- `n` with the sign of the product of `a` and `b`
abbrev signed : ℤ → ℤ → ℕ → ℤ
signed (pos a) (pos b) n = pos n
signed (negsuc a) (negsuc b) n = pos n
signed (pos a) (negsuc b) n = pos 0 -ℤ pos n
signed (negsuc a) (pos b) n = pos 0 -ℤ pos n

instance abbrev pub milli_double : Double Milli
milli_double = record {
  lit = λ n d. pos (n * 1000 / d);
  add = ◌+ℤ◌;
  sub = ◌-ℤ◌;
  mul = λ a b. signed a b (magnitude a * magnitude b / 1000);
  div = λ a b. signed a b (magnitude a * 1000 / magnitude b);
  neg = λ a. pos 0 -ℤ a;
  sqrt = λ a. a;
  fabs = λ a. pos (magnitude a);
  lt = ltb_ℤ;
  le = λ a b. not (ltb_ℤ b a);
  eq = λ a b. not (ltb_ℤ a b) && not (ltb_ℤ b a);
}
