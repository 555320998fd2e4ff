-- ===== src/Anneal/Examples.antt =====
-- One parameter in a valley, in thousandths, with numbers that stand for random ones. The break
-- flagfile is there from the start, so the annealing ends behind its first twenty moves.
use potfit.Base.{ℕ, ◌+◌, ◌*◌, ◌%◌, ◌≡◌, refl, true, false, List, [], ◌∷◌, ok}
use potfit.Base.Int.{pos, ◌+ℤ◌, ◌-ℤ◌}
use potfit.Base.Double.{Milli, milli_double, ◌⊖◌, ◌⊗◌}
use potfit.Optimizer.{Problem, World, MathLibrary}
use potfit.Anneal.{atof, get_annealing_temperature, run_simulated_annealing}
use potfit.Anneal.Stops.{run_simulated_annealing_returns}

abbrev world : World Milli ℕ
world = record {
  eqdist = λ g. (pos (g * 377 % 1000), g + 1);
  normdist = λ g. (pos (g * 377 % 1000), g + 1);
  flagfile = λ g. (true, g);
}

abbrev library : MathLibrary Milli
library = record {
  exp = λ x. pos 0;
  log = λ x. pos 1000;
  isnan = λ x. false;
  isinf = λ x. false;
  to_int = λ x. 0;
}

abbrev problem : Problem Milli
problem = record {
  apot = true;
  ndim = 1;
  ndimtot = 2;
  idx = 1 ∷ [];
  pmin = pos 0 ∷ [];
  pmax = pos 5000 ∷ [];
  first = [];
  last = [];
}

abbrev valley : List Milli → Milli
valley [] = pos 0
valley (_ ∷ []) = pos 0
valley (a ∷ b ∷ _) = (b ⊖ a) ⊗ (b ⊖ a)

temperature_read :
    get_annealing_temperature world library problem valley
      (atof (pos 500))
      (pos 2000 ∷ pos 1000 ∷ [])
      (pos 1000)
      (pos 100 ∷ [])
      1
    ≡ ok (pos 500, pos 100 ∷ [], 1)
unfolding get_annealing_temperature ◌+ℤ◌ ◌-ℤ◌
temperature_read = refl

run_simulated_annealing_returns_example :
    (r : List Milli × ℕ) × (run_simulated_annealing world library problem valley
        (atof (pos 500))
        (pos 2000 ∷ pos 1000 ∷ [])
        1
      ≡ ok r)
unfolding ◌-ℤ◌
run_simulated_annealing_returns_example =
    run_simulated_annealing_returns world library problem valley (atof (pos 500))
      (pos 2000 ∷ pos 1000 ∷ []) 1 (pos 500) (pos 100 ∷ []) 1 temperature_read
