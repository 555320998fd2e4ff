-- ===== src/Optimizer.antt =====
-- What the optimizers share: the table of parameters with the places of the free ones, the random
-- numbers of random.c, the functions of math.h, and the break flagfile.
use potfit.Base.{ℕ, Bool, List, get_or}
use potfit.Base.Double.{Double, zero_double}

-- `idx[n]` is the cell of the n-th free parameter, and `pmin`, `pmax` stand for
-- `pmin[idxpot[n]][idxparam[n]]` and `pmax[idxpot[n]][idxparam[n]]`.
pub record Problem (W : Type 0) : Type 0 where
  pub apot : Bool
  pub ndim : ℕ
  pub ndimtot : ℕ
  pub idx : List ℕ
  pub pmin : List W
  pub pmax : List W
  pub first : List ℕ
  pub last : List ℕ

-- The random numbers and the break flagfile of a run. `G` is what they depend on. A test of the
-- flagfile is true if the name is given and the file can be opened; the file is then removed.
pub record World (W G : Type 0) : Type 0 where
  pub eqdist : G → W × G
  pub normdist : G → W × G
  pub flagfile : G → Bool × G

-- `to_int` is the conversion of a `double` that is not negative.
pub record MathLibrary (W : Type 0) : Type 0 where
  pub exp : W → W
  pub log : W → W
  pub isnan : W → Bool
  pub isinf : W → Bool
  pub to_int : W → ℕ

module _ {W : Type 0} ⦃d : Double W⦄ where
  -- The arrays come from `Malloc`, which fills them with zeros.
  abbrev pub cell : Problem W → ℕ → ℕ
  cell p n = get_or p.idx n 0

  abbrev pub at : List W → ℕ → W
  at xs n = get_or xs n zero_double
