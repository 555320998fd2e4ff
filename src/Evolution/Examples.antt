-- ===== src/Evolution/Examples.antt =====
-- A run on two cells, of which the second is free, in thousandths, with numbers that stand for random
-- ones.
use potfit.Base.{ℕ, ◌+◌, ◌*◌, ◌%◌, true, false, List, [], ◌∷◌}
use potfit.Base.Int.{pos}
use potfit.Base.Double.{Milli, milli_double, ◌⊖◌, ◌⊗◌}
use potfit.Base.Milli.{milli_transitive, milli_total}
use potfit.Optimizer.{Problem, World, MathLibrary}
use potfit.Evolution.{State, Reach}
use potfit.Evolution.Runs.{IsEvolved, Reach-IsEvolved, Reach-progress}

abbrev world : World Milli ℕ
world = record {
  eqdist = λ g. (pos (g * 377 % 1000), g + 1);
  normdist = λ g. (pos (g * 377 % 1000), g + 1);
  flagfile = λ g. (false, g);
}

abbrev library : MathLibrary Milli
library = record {
  exp = λ x. pos 0;
  log = λ x. pos 1000;
  isnan = λ x. false;
  isinf = λ x. false;
  to_int = λ x. 0;
}

abbrev problem : Problem Milli
problem = record {
  apot = true;
  ndim = 1;
  ndimtot = 2;
  idx = 1 ∷ [];
  pmin = pos 0 ∷ [];
  pmax = pos 5000 ∷ [];
  first = [];
  last = [];
}

abbrev pick_next : ℕ → List ℕ → ℕ → ℕ × ℕ
pick_next n [] g = (0, g)
pick_next n (i ∷ []) g = ((i + 1) % n, g)
pick_next n (i ∷ _ ∷ _) g = ((i + 2) % n, g)

abbrev valley : List Milli → Milli
valley [] = pos 0
valley (_ ∷ []) = pos 0
valley (a ∷ b ∷ _) = (b ⊖ a) ⊗ (b ⊖ a)

milli_set : IsSet Milli
milli_set = hlevel

abbrev origin : List Milli
origin = pos 2000 ∷ pos 1000 ∷ []

abbrev begun : (s : State Milli ℕ) × Reach world pick_next library problem valley (pos 1) origin 1 s
begun =
    (Reach-progress milli_set milli_transitive milli_total world pick_next library problem valley
      (pos 1) origin 1).0

Reach-IsEvolved_example :
    IsEvolved milli_set milli_transitive milli_total world pick_next library problem valley
      (pos 1)
      origin
      1
      begun.0
Reach-IsEvolved_example =
    Reach-IsEvolved milli_set milli_transitive milli_total world pick_next library problem valley
      (pos 1) origin 1 begun.0 begun.1
