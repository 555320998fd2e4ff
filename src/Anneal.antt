-- ===== src/Anneal.antt =====
-- simann.c: simulated annealing. The random numbers and the break flagfile are the argument `world`,
-- and the linked force routine is the argument `calc_forces`. The binaries with RESCALE for tables, and
-- those for tables with MEAM, are left out: there the annealing also changes the sampling points.
pub mod Moves
pub mod Tracking
pub mod Stops
mod Examples
use potfit.Base.{
  ℕ, zero, suc, ◌+◌, ◌-◌, ◌*◌, Bool, true, false, not, ◌&&◌, ◌||◌, List, [], ◌∷◌, ◌++◌,
  if◌then◌else◌, ltb, Option, none, some, get_or, set, take, drop, replicate, Outcome, ok, exit,
}
use potfit.Base.Double.{Double, gt, zero_double, ◌⊕◌, ◌⊖◌, ◌⊗◌, ◌⊘◌}
use potfit.Base.Loop.{for_below}
use potfit.Optimizer.{Problem, World, MathLibrary, cell, at}
use Moves.{Move, randomize_parameter}

-- `anneal_temp`: the text starts with an `a`, or is the number that `atof` reads.
pub data Start (W : Type 0) : Type 0 where
  automatic : Start W
  atof : W → Start W

pub data Failure : Type 0 where
  not_a_number : Failure
  negative : Failure
  rounds : Failure

pub record State (W G : Type 0) : Type 0 where
  pub xi : List W
  pub f : W
  pub xi_opt : List W
  pub f_opt : W
  pub v : List W
  pub naccept : List ℕ
  pub f_old : List W
  pub temperature : W
  pub loop_counter : ℕ
  pub loop_again : Bool
  pub g : G

-- The variables of the search for a temperature: `m1`, `dF`, the displacements.
pub record Trials (W G : Type 0) : Type 0 where
  pub m1 : ℕ
  pub d_f : W
  pub v : List W
  pub g : G

module _ {W G : Type 0} ⦃d : Double W⦄ (world : World W G) (m : MathLibrary W) (p : Problem W)
    (calc_forces : List W → W) where
  abbrev int : ℕ → W
  int n = d.lit n 1

  -- One of the trial steps from `xi`, whose value is `f`.
  pub trial_step : List W → W → Trials W G → Trials W G
  trial_step xi f t =
      let (r, g) = world.eqdist t.g in
      let move = randomize_parameter world m p (m.to_int (r ⊗ int p.ndim)) xi t.v g in
      let f_new = calc_forces move.xi in
      let downhill = d.le f_new f in
      record {
        m1 = if downhill then t.m1 + 1 else t.m1;
        d_f = if downhill then t.d_f else t.d_f ⊕ (f_new ⊖ f);
        v = move.v;
        g = move.g;
      }

  -- `u` is the number of steps that were not downhill.
  abbrev estimate : ℕ → ℕ → W → W
  estimate u m1 d_f =
      let chi = d.lit 8 10 in
      (d_f ⊘ int u) ⊘ m.log (int u ⊘ ((int u ⊗ chi) ⊕ ((int 1 ⊖ chi) ⊗ int m1)))

  -- The temperature, and what the trial steps leave of displacements and random numbers.
  pub get_annealing_temperature :
      Start W → List W → W → List W → G → Outcome Failure (W × List W × G)
  unfolding trial_step
  get_annealing_temperature automatic xi f v g =
      let t =
        for_below (10 * p.ndim) (λ e. trial_step xi f)
          (record { m1 = 0; d_f = zero_double; v = v; g = g }) in
      let temp = estimate (10 * p.ndim - t.m1) t.m1 t.d_f in
      if m.isnan temp || m.isinf temp
      then exit not_a_number
      else ok (if d.lt temp zero_double then d.neg temp else temp, t.v, t.g)
  get_annealing_temperature (atof temp) xi f v g =
      if d.lt temp zero_double then exit negative else ok (temp, v, g)

  -- The branches behind a move: a value that is not above the current one, and one that is accepted
  -- all the same.
  pub accept_downhill : ℕ → Move W G → State W G → State W G
  accept_downhill h move s =
      let f_new = calc_forces move.xi in
      let better = d.lt f_new s.f_opt in
      record s {
        xi = if p.apot then set s.xi (cell p h) (at move.xi (cell p h)) else move.xi;
        f = f_new;
        naccept = set s.naccept h (get_or s.naccept h 0 + 1);
        xi_opt = if better then move.xi else s.xi_opt;
        f_opt = if better then f_new else s.f_opt;
        v = move.v;
        g = move.g;
      }

  pub accept_uphill : ℕ → Move W G → State W G → State W G
  accept_uphill h move s =
      let f_new = calc_forces move.xi in
      let (r, g) = world.eqdist move.g in
      let accepted = d.lt r (m.exp ((s.f ⊖ f_new) ⊘ s.temperature)) in
      record s {
        xi = if accepted then move.xi else s.xi;
        f = if accepted then f_new else s.f;
        naccept = if accepted then set s.naccept h (get_or s.naccept h 0 + 1) else s.naccept;
        v = move.v;
        g = g;
      }

  -- The body of the loop over the parameters.
  pub attempt : ℕ → State W G → State W G
  unfolding accept_downhill accept_uphill
  attempt h s =
      let move = randomize_parameter world m p h s.xi s.v s.g in
      if d.le (calc_forces move.xi) s.f then accept_downhill h move s else accept_uphill h move s

  -- Step adjustment of one parameter, with NSTEP = 20 and STEPVAR = 2.
  pub adjusted : W → ℕ → W
  adjusted v count =
      let ratio = int count ⊘ int 20 in
      if gt (int count) (d.lit 6 10 ⊗ int 20)
      then v ⊗ (int 1 ⊕ ((int 2 ⊗ (ratio ⊖ d.lit 6 10)) ⊘ d.lit 4 10))
      else if d.lt (int count) (d.lit 4 10 ⊗ int 20)
      then v ⊘ (int 1 ⊕ ((int 2 ⊗ (d.lit 4 10 ⊖ ratio)) ⊘ d.lit 4 10))
      else v

  pub adjust : ℕ → State W G → State W G
  unfolding adjusted
  adjust n s = record s {
    v = set s.v n (adjusted (at s.v n) (get_or s.naccept n 0));
    naccept = set s.naccept n 0;
  }

  -- `xi[n] = xi_opt[n]` for every n, and `F = F_opt`.
  abbrev pub return_to_optimum : State W G → State W G
  return_to_optimum s = record s { xi = s.xi_opt; f = s.f_opt }

  pub steps : State W G → State W G
  unfolding attempt adjust
  steps s = for_below p.ndim adjust (for_below 20 (λ j. for_below p.ndim attempt) s)

  -- The loop over `m`, with the rounds that are left. The flagfile ends it. KMAX is 1000.
  pub at_temperature : ℕ → State W G → State W G
  unfolding steps
  at_temperature zero s = s
  at_temperature (suc left) s =
      let t = steps s in
      let (stop, g) = world.flagfile t.g in
      let rest = at_temperature left (record t { g = g }) in
      if stop then record (return_to_optimum t) { loop_counter = 1001; g = g } else rest

  -- `EPS * F * 0.01`
  abbrev small : W → W
  small f = (d.lit 1 10 ⊗ f) ⊗ d.lit 1 100

  pub moving : W → List W → Bool
  moving f [] = false
  moving f (old ∷ f_old) = gt (d.fabs (f ⊖ old)) (small f) || moving f f_old

  -- Behind the loop over `m`: the next temperature, and whether to go on.
  pub cool : State W G → State W G
  unfolding moving
  cool s =
      let f_old = drop 1 s.f_old ++ (s.f ∷ []) in
      let again = moving s.f (take 3 f_old) in
      let restart = not again && gt (s.f ⊖ s.f_opt) (small s.f) in
      record s {
        xi = if restart then s.xi_opt else s.xi;
        f = if restart then s.f_opt else s.f;
        temperature = s.temperature ⊗ d.lit 85 100;
        loop_counter = s.loop_counter + 1;
        f_old = f_old;
        loop_again = again || restart;
      }

  -- The annealing loop. NTEMP is `3 * ndim`.
  pub anneal : ℕ → State W G → Option (State W G)
  unfolding cool at_temperature
  anneal zero s = none
  anneal (suc fuel) s =
      let t = cool (at_temperature (3 * p.ndim) s) in
      let rest = anneal fuel t in if ltb t.loop_counter 1000 && t.loop_again then rest else some t

  abbrev pub initial : List W → W → W → List W → G → State W G
  initial xi f temp v g = record {
    xi = xi;
    f = f;
    xi_opt = xi;
    f_opt = f;
    v = v;
    naccept = replicate p.ndim 0;
    f_old = replicate 4 f;
    temperature = temp;
    loop_counter = 0;
    loop_again = false;
    g = g;
  }

  -- Behind the choice of a temperature.
  pub anneal_from : List W → W → W → List W → G → Outcome Failure (List W × G)
  unfolding anneal
  anneal_from xi f temp v g =
      if d.eq temp zero_double then ok (xi, g) else elim (anneal 1000 (initial xi f temp v g)) [
        | none ↦ exit rounds
        | some s ↦ ok (s.xi_opt, s.g)
      ]

  -- The parameters behind the call.
  pub run_simulated_annealing : Start W → List W → G → Outcome Failure (List W × G)
  unfolding get_annealing_temperature anneal_from
  run_simulated_annealing start xi g =
      let f = calc_forces xi in
      elim (get_annealing_temperature start xi f (replicate p.ndim (d.lit 1 10)) g) [
        | exit reason ↦ exit reason
        | ok (temp, v, g') ↦ anneal_from xi f temp v g'
      ]
