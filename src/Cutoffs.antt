-- ===== src/Cutoffs.antt =====
-- `calculate_cutoffs` of potential_input.c. The matrices `g_config.rmin` and `g_config.rcut` are
-- functions of row and column, whose cell is `i * n + j`; `begin` and `end` are the columns of
-- `g_pot.opt_pot`.
pub mod Bounds
mod Examples
use potfit.Base.{ℕ, zero, suc, ◌+◌, ◌*◌, ◌/◌, Bool, if◌then◌else◌}
use potfit.Base.Double.{Double, gt}
use potfit.Build.{Build, embedded}
use potfit.PairIndex.{pair_index, paircol}

module _ {W : Type 0} ⦃d : Double W⦄ where
  -- The macros MAX and MIN of potfit.h.
  abbrev pub max : W → W → W
  max a b = if gt a b then a else b

  abbrev pub min : W → W → W
  min a b = if d.lt a b then a else b

  module _ (b : Build) (n : ℕ) (begin end : ℕ → W) (dp_cut : W) where
    -- The values of an embedded-atom binary: the transfer functions stand behind the pair potentials.
    abbrev pub with_transfer : (ℕ → W) → W → ℕ → ℕ → W
    with_transfer column w i j =
        if embedded b then max (max w (column (paircol n + i))) (column (paircol n + j)) else w

    pub rmin : ℕ → ℕ → W
    unfolding pair_index paircol
    rmin i j = with_transfer begin (begin (pair_index n i j)) i j

    pub rcut : ℕ → ℕ → W
    unfolding pair_index paircol
    rcut i j =
        let transfer = with_transfer end (end (pair_index n i j)) i j in
        if b.coulomb then max transfer dp_cut else transfer

    -- The last two nested loops, which read the cell `i + n * j`.
    pub over_columns : ℕ → ℕ → (W → ℕ → ℕ → W) → W → W
    over_columns i zero step w = w
    over_columns i (suc j) step w = step (over_columns i j step w) j i

    pub over_rows : ℕ → (W → ℕ → ℕ → W) → W → W
    unfolding over_columns
    over_rows zero step w = w
    over_rows (suc i) step w = over_columns i n step (over_rows i step w)

    pub rcutmin : W → W
    unfolding over_rows rcut
    rcutmin w = over_rows n (λ m i j. min m (rcut i j)) w

    pub rcutmax : W → W
    unfolding over_rows rcut
    rcutmax w = over_rows n (λ m i j. max m (rcut i j)) w
