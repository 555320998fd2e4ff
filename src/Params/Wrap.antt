-- ===== src/Params/Wrap.antt =====
-- The conversion of the `long` that `strtol` returns to the `int` that `get_param_int` stores.
use Prim.Native.String.{String}
use potfit.Base.{ℕ, ◌+◌, ◌*◌, ◌%◌, ◌^◌, ◌≡◌, refl, some, arith}
use potfit.Base.Int.{ℤ, pos}
use potfit.Base.Double.{Double}
use potfit.Params.Settings.{CLibrary, get_param_int, to_int}

to_int_wraps : (n k : ℕ) → to_int (pos (n + 2 ^ 32 * k)) ≡ to_int (pos n)
unfolding to_int
to_int_wraps n k = let e : (n + 2 ^ 32 * k) % 2 ^ 32 ≡ n % 2 ^ 32 = omega arith in rw e refl

module _ {W : Type 0} ⦃d : Double W⦄ (c : CLibrary W) where
  -- Two numbers that differ by a multiple of 2^32 are read alike: the bounds are tested behind the
  -- conversion, so a number far out of bounds can be accepted.
  pub get_param_int-wraps :
      (name text big : String) (line n k : ℕ) (low high : ℤ)
      → c.strtol text ≡ some (pos n)
      → c.strtol big ≡ some (pos (n + 2 ^ 32 * k))
      → get_param_int c name (some big) line low high
        ≡ get_param_int c name (some text) line low high
  unfolding get_param_int
  get_param_int-wraps name text big line n k low high small large =
      rw (small, large, to_int_wraps n k, get_param_int) refl
