-- ===== src/Cutoffs/Examples.antt =====
-- The cutoffs of a binary EAM system, in thousandths.
use potfit.Base.{ℕ, zero, suc, ◌+◌, ◌*◌, ◌<◌, ◌≡◌, refl, true, arith, ◌⊎◌}
use potfit.Base.Int.{pos}
use potfit.Base.Double.{Milli, milli_double}
use potfit.Build.{Build, plain}
use potfit.Cutoffs.{rmin, rcut, rcutmin, rcutmax}
use potfit.Cutoffs.Bounds.{IsOrdered, Same, Below, cutoffs_symmetric, rcutmin-rcutmax}

milli_ordered : IsOrdered milli_double
milli_ordered = record { asymmetric = λ a b h. ground arith; weak = λ a b c h k. ground arith }

abbrev alloy : Build
alloy = record plain { pair = potfit.Base.false; eam = true }

-- Three pair functions, two transfer and two embedding functions.
abbrev starts : ℕ → Milli
starts k = pos (1000 + 100 * k)

abbrev ends : ℕ → Milli
ends k = pos (6000 + 100 * k)

mixed : rcut alloy 2 starts ends (pos 0) 0 1 ≡ pos 6400
unfolding rcut
mixed = refl

largest : rcutmax alloy 2 starts ends (pos 0) (pos 0) ≡ pos 6400
unfolding rcutmax
largest = refl

smallest : rcutmin alloy 2 starts ends (pos 0) (pos 999900) ≡ pos 6300
unfolding rcutmin
smallest = refl

cutoffs_symmetric_example :
    Same milli_ordered (rcut alloy 2 starts ends (pos 0) 0 1) (rcut alloy 2 starts ends (pos 0) 1 0)
    × Same milli_ordered
        (rmin alloy 2 starts ends (pos 0) 0 1)
        (rmin alloy 2 starts ends (pos 0) 1 0)
cutoffs_symmetric_example = cutoffs_symmetric milli_ordered alloy 2 starts ends (pos 0) 0 1

rcutmin-rcutmax_example :
    ((i j : ℕ)
      → i < 2
      → j < 2
      → Below milli_ordered
          (rcut alloy 2 starts ends (pos 0) i j)
          (rcutmax alloy 2 starts ends (pos 0) (pos 0))
        × Below milli_ordered
            (rcutmin alloy 2 starts ends (pos 0) (pos 0))
            (rcut alloy 2 starts ends (pos 0) i j))
    × ((rcutmax alloy 2 starts ends (pos 0) (pos 0) ≡ pos 0)
        ⊎ ((i : ℕ) × (j : ℕ) × (i < 2)
            × (j < 2)
            × (rcutmax alloy 2 starts ends (pos 0) (pos 0) ≡ rcut alloy 2 starts ends (pos 0) i j)))
    × ((rcutmin alloy 2 starts ends (pos 0) (pos 0) ≡ pos 0)
        ⊎ ((i : ℕ) × (j : ℕ) × (i < 2)
            × (j < 2)
            × (rcutmin alloy 2 starts ends (pos 0) (pos 0) ≡ rcut alloy 2 starts ends (pos 0) i j)))
rcutmin-rcutmax_example = rcutmin-rcutmax milli_ordered alloy 2 starts ends (pos 0) (pos 0)
