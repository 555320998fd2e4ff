-- ===== src/ForcePair/Examples.antt =====
-- One configuration with two atoms and the tables of Config/Neighbors/Examples, in thousandths.
use potfit.Base.{
  ℕ, ◌+◌, ◌*◌, ◌≡◌, refl, sym, ap, Bool, true, false, List, [], ◌∷◌, Outcome, exit, ok, arith,
  get_or, if◌then◌else◌, ◌==◌,
}
use mathlib.Core.Path.{subst}
use potfit.Base.Int.{pos, ◌+ℤ◌, ◌-ℤ◌}
use potfit.Base.Double.{Milli, milli_double}
use potfit.PotentialHeader.{tabulated_eq_dist}
use potfit.Config.{Neighbor}
use potfit.Config.Neighbors.Examples.{cell, atoms, neighbor, column, far, closest, made}
use potfit.Splines.{splint_comb_dir}
use potfit.ForcePair.{
  System, Failure, calc_forces, config_round, reset_atom, reset_stress, atom_round, neighbor_loop,
  neighbor_round, pair_term, add_vector, sub_vector, energy_part, put,
}
use potfit.Config.Neighbors.Ahead.{HasLists}
use potfit.ForcePair.Terms.{total}
use potfit.ForcePair.Value.{IsSetUp, calc_forces-total}

abbrev lists : List (List (Neighbor Milli))
lists = (neighbor ∷ []) ∷ [] ∷ []

abbrev reference : ℕ → Milli
reference k = pos 100

abbrev pair : System Milli
pair = record {
  stress = false;
  fweight = false;
  nconf = 1;
  inconf = λ c. if c == 0 then 2 else 0;
  cnfstart = λ c. if c == 0 then 0 else 2;
  useforce = λ c. true;
  usestress = λ c. false;
  conf_weight = λ c. pos 1000;
  volume = λ c. pos 125000;
  atoms = λ a. record { neigh = get_or lists a []; absforce = pos 0; contrib = true };
  force_0 = reference;
  energy_p = 6;
  stress_p = 7;
  eweight = pos 2000;
  sweight = pos 0;
}

abbrev values : ℕ → Milli
values i = pos (100 * i)

abbrev no_nan : Milli → Bool
no_nan w = false

abbrev zeros : ℕ → Milli
zeros k = pos 0

first_lists : HasLists 0 2 (λ a. (pair.atoms a).neigh)
first_lists = record {
  geometry = cell;
  sites = atoms;
  mindist = far;
  low = closest;
  lists = lists;
  half = refl;
  numbered = (refl, (refl, tt));
  counted = refl;
  made = made;
  stored = λ a h. let e : 0 + a ≡ a = omega arith in ap (λ (k : ℕ). get_or lists k []) e;
}

pair-IsSetUp : IsSetUp pair
pair-IsSetUp = record {
  behind = λ i j h k. absurd (omega arith);
  inside = λ i h. ground arith;
  stresses = λ e. cc;
  lists = λ i h.
      let e : i ≡ 0 = omega arith in
      subst (λ (k : ℕ). HasLists (pair.cnfstart k) (pair.inconf k) (λ a. (pair.atoms a).neigh))
        (sym e) first_lists;
}

calc_forces-total_example :
    (f : ℕ → Milli) × (calc_forces no_nan pair tabulated_eq_dist 1 column zeros values zeros
      ≡ ok (total pair f, f))
calc_forces-total_example =
    calc_forces-total no_nan pair tabulated_eq_dist 1 column zeros values zeros refl pair-IsSetUp

-- The value, the force on the first atom along x, and the energy.
abbrev observed : Outcome Failure (Milli × (ℕ → Milli)) → List Milli
observed (exit reason) = []
observed (ok (value, f)) = value ∷ f 0 ∷ f 6 ∷ []

pair_value :
    observed (calc_forces no_nan pair tabulated_eq_dist 1 column zeros values zeros)
    ≡ pos 194 ∷ pos 156 ∷ pos 50 ∷ []
unfolding calc_forces config_round reset_atom reset_stress atom_round neighbor_loop neighbor_round
    pair_term add_vector sub_vector energy_part put splint_comb_dir ◌+ℤ◌ ◌-ℤ◌
pair_value = refl
