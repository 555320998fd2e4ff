-- ===== src/Base/Order.antt =====
-- Laws of the comparisons of doubles, for the theorems that need them.
use mathlib.Core.Path.{◌≡◌}
use mathlib.Core.Logic.{◌⊎◌, inl, inr}
use mathlib.Core.Bool.{true, false}
use potfit.Base.Double.{Double}

-- These hold for all doubles, NaN included.
pub record IsTransitive {W : Type 0} (d : Double W) : Type 0 where
  pub le_trans : (a b c : W) → d.le a b ≡ true → d.le b c ≡ true → d.le a c ≡ true
  pub le_of_lt : (a b : W) → d.lt a b ≡ true → d.le a b ≡ true

-- These hold for numbers, and not for NaN.
pub record IsTotal {W : Type 0} (d : Double W) : Type 0 where
  pub le_of_not-le : (a b : W) → d.le a b ≡ false → d.le b a ≡ true
  pub le_of_not-lt : (a b : W) → d.lt a b ≡ false → d.le b a ≡ true

module _ {W : Type 0} ⦃d : Double W⦄ (o : IsTransitive d) where
  -- The same number, or at most as large.
  abbrev pub Down : W → W → Type 0
  Down a b = (a ≡ b) ⊎ (d.le a b ≡ true)

  pub Down-le : (a b c : W) → d.le a b ≡ true → Down b c → Down a c
  Down-le a b c h (inl e) = inr (rw (← e) h)
  Down-le a b c h (inr k) = inr (o.le_trans a b c h k)

  pub Down-trans : (a b c : W) → Down a b → Down b c → Down a c
  Down-trans a b c (inl e) k = rw e k
  Down-trans a b c (inr h) k = Down-le a b c h k
