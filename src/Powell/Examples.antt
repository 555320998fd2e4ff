-- ===== src/Powell/Examples.antt =====
-- One free parameter and one deviation, x - 2, with the sum (x - 2)^2, in thousandths.
use potfit.Base.{
  ℕ, zero, suc, ◌+◌, ◌*◌, ◌/◌, ◌≡◌, ◌≢◌, refl, true, false, List, [], ◌∷◌, Outcome, ok, exit, inl,
  arith,
}
use potfit.Base.Int.{pos, negsuc, ◌+ℤ◌, ◌-ℤ◌, pos_part, neg_part}
use potfit.Base.Double.{Milli, milli_double, zero_double, ◌⊕◌, ◌⊖◌, ◌⊗◌}
use potfit.Base.Milli.{milli_transitive, milli_total}
use potfit.Bracket.{bracket}
use potfit.Brent.{brent}
use potfit.Bracket.Buffers.{write}
use potfit.Linmin
use potfit.Linmin.{linmin, along}
use potfit.Optimizer.{Problem}
use potfit.Powell.Matrix.{Matrix, put, put_both, put_entry}
use potfit.Powell.Gram.{IsSystem, lineqsys_init-IsSystem, lineqsys_update-IsSystem}
use potfit.Powell.{
  Solution, State, Round, bottom, singular, out_of_range, inaccurate, gamma_singular, lineqsys_init,
  lineqsys_update, inner_round,
}
use potfit.Powell.Descent.{IsTracked, inner_round-IsTracked}

abbrev problem : Problem Milli
problem = record {
  apot = true;
  ndim = 1;
  ndimtot = 1;
  idx = 0 ∷ [];
  pmin = negsuc 8999 ∷ [];
  pmax = pos 9000 ∷ [];
  first = [];
  last = [];
}

abbrev shifted : Milli → Milli
shifted x = x ⊖ pos 2000

abbrev valley : List Milli → Milli × (ℕ → Milli)
valley [] = (pos 0, λ i. pos 0)
valley (x ∷ _) = (shifted x ⊗ shifted x, λ i. shifted x)

abbrev unit_solution : Matrix Milli → (ℕ → Milli) → Solution Milli
unit_solution a p = record { q = λ i. pos 1000; info = pos 0; ferror = pos 0; berror = pos 0 }

milli_mul_comm : (a b : Milli) → milli_double.mul a b ≡ milli_double.mul b a
milli_mul_comm (pos a) (pos b) = grind arith
milli_mul_comm (pos a) (negsuc b) = grind arith
milli_mul_comm (negsuc a) (pos b) = grind arith
milli_mul_comm (negsuc a) (negsuc b) = grind arith

no_part : (n : ℕ) → 0 * n / 1000 ≡ 0
no_part n = omega arith

add_nothing : (a : Milli) → a +ℤ pos 0 ≡ a
unfolding ◌+ℤ◌
add_nothing (pos a) = ground arith
add_nothing (negsuc a) = ground arith

milli_add_zero : (a b : Milli) → a ⊕ (zero_double ⊗ b) ≡ a
unfolding ◌-ℤ◌
milli_add_zero a (pos b) = rw (no_part (pos_part (pos b) + neg_part (pos b))) (add_nothing a)
milli_add_zero a (negsuc b) =
    rw (no_part (pos_part (negsuc b) + neg_part (negsuc b))) (add_nothing a)

abbrev slope_one : Matrix Milli
slope_one i j = pos 1000

-- Another first column.
abbrev slope_two : Matrix Milli
slope_two i zero = pos 2000
slope_two i (suc j) = pos 1000

slope_two-other : (r c : ℕ) → c ≢ 0 → slope_two r c ≡ slope_one r c
slope_two-other r zero ne = absurd (ne refl)
slope_two-other r (suc c) ne = refl

abbrev deviations : ℕ → Milli
deviations i = negsuc 1999

abbrev equations : Matrix Milli × (ℕ → Milli)
equations =
    lineqsys_init problem 1 valley unit_solution slope_one (λ i j. pos 0) deviations (λ i. pos 0) 1

abbrev origin : State Milli
origin = record {
  xi = pos 0 ∷ [];
  delta = pos 0 ∷ [];
  f1 = pos 4000;
  df = pos 0;
  forces_1 = deviations;
  forces_2 = deviations;
  gamma = slope_one;
  d = λ i j. pos 1000;
  lineqsys = equations.0;
  p = equations.1;
  m = 0;
}

abbrev run : Outcome Linmin.Failure (Round Milli)
run = inner_round problem 1 valley unit_solution false [] (λ i. pos 0) origin

abbrev bottom_of : Outcome Linmin.Failure (Round Milli) → State Milli
bottom_of (exit _) = origin
bottom_of (ok (bottom t)) = t
bottom_of (ok (singular _)) = origin
bottom_of (ok (out_of_range _)) = origin
bottom_of (ok (inaccurate _)) = origin
bottom_of (ok (gamma_singular _)) = origin

reaches_bottom : run ≡ ok (bottom (bottom_of run))
unfolding inner_round linmin bracket brent along write lineqsys_init put put_both put_entry ◌+ℤ◌
    ◌-ℤ◌
reaches_bottom = refl

moved_on : (bottom_of run).xi ≡ pos 2073 ∷ []
unfolding inner_round linmin bracket brent along write lineqsys_init put put_both put_entry ◌+ℤ◌
    ◌-ℤ◌
moved_on = refl

origin-IsTracked :
    IsTracked milli_transitive milli_total milli_mul_comm problem 1 valley unit_solution
      (pos 4000)
      origin
unfolding ◌+ℤ◌ ◌-ℤ◌
origin-IsTracked = record {
  value = refl;
  forces = refl;
  lower = inl refl;
  sizes = refl;
  system =
      lineqsys_init-IsSystem problem 1 valley unit_solution milli_mul_comm 1 slope_one
        (λ i j. pos 0) deviations (λ i. pos 0);
}

inner_round-IsTracked_example :
    IsTracked milli_transitive milli_total milli_mul_comm problem 1 valley unit_solution
      (pos 4000)
      (bottom_of run)
inner_round-IsTracked_example =
    inner_round-IsTracked milli_transitive milli_total milli_mul_comm problem 1 valley unit_solution
      milli_add_zero false [] (λ i. pos 0) (pos 4000) origin (bottom_of run) origin-IsTracked
      reaches_bottom

lineqsys_update-IsSystem_example :
    (let r =
        lineqsys_update problem 1 valley unit_solution slope_two equations.0
          (λ i. pos 7)
          equations.1
          0
          1 in
      IsSystem problem 1 valley unit_solution milli_mul_comm 1 slope_two (λ i. pos 7) r.0 r.1)
lineqsys_update-IsSystem_example =
    lineqsys_update-IsSystem problem 1 valley unit_solution milli_mul_comm 1 slope_two slope_one
      equations.0 (λ i. pos 7) deviations equations.1 equations.1 0 slope_two-other
      (lineqsys_init-IsSystem problem 1 valley unit_solution milli_mul_comm 1 slope_one
        (λ i j. pos 0) deviations (λ i. pos 0))
