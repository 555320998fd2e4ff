-- ===== src/Evolution.antt =====
-- diff_evo.c: differential evolution around the sort of Evo. Random numbers and the flagfile are the
-- argument `world`, and the linked force routine is `calc_forces`. The two loops that draw an index
-- until it differs from others are the argument `pick`: their end hangs on the random numbers.
mod Population
pub mod Opposite
pub mod Tracking
pub mod Runs
mod Examples
use potfit.Base.{
  ℕ, zero, suc, ◌+◌, ◌-◌, ◌*◌, ◌%◌, ◌≡◌, Bool, true, false, not, ◌&&◌, ◌||◌, List, [], ◌∷◌, ◌++◌,
  map, if◌then◌else◌, ltb, ◌==◌, Option, none, some, get_or, set,
}
use potfit.Base.Double.{Double, gt, ge, zero_double, ◌⊕◌, ◌⊖◌, ◌⊗◌, ◌⊘◌}
use potfit.Base.Loop.{for_below}
use potfit.Optimizer.{Problem, World, MathLibrary, cell, at}
use potfit.Evo.{Pool}
pub use Population.{Individual}
use Population.{random_population}
use Opposite.{np, valued, opposite_check}

-- The variables of the search beside the population: the best individual, the smallest and the largest
-- cost, and the vector `trial`.
pub record Search (W G : Type 0) : Type 0 where
  pub best : Individual W
  pub min_cost : W
  pub max_cost : W
  pub trial : Individual W
  pub g : G

pub record State (W G : Type 0) : Type 0 where
  pub pool : Pool W (Individual W)
  pub search : Search W G
  pub jump_steps : ℕ
  pub jump_rate : W
  pub stopped : Bool

-- The loop over the parameters of a trial: `trial` and `j`.
pub record Draft (W G : Type 0) : Type 0 where
  pub params : List W
  pub j : ℕ
  pub g : G

module _ {W G : Type 0} ⦃d : Double W⦄ (world : World W G) (pick : ℕ → List ℕ → G → ℕ × G)
    (m : MathLibrary W) (p : Problem W) (calc_forces : List W → W) where
  abbrev int : ℕ → W
  int n = d.lit n 1

  -- `10e10`
  abbrev pub ceiling : W
  ceiling = int 100000000000

  abbrev blank : Individual W
  blank = record { params = []; factor = zero_double; rate = zero_double }

  -- The new value of a parameter that is crossed, which stays inside its range under APOT.
  pub crossed : ℕ → W → Individual W → Individual W → Individual W → W
  crossed j factor best a b =
      let c = cell p j in
      let temp = at best.params c ⊕ (factor ⊗ (at a.params c ⊖ at b.params c)) in
      if p.apot
      then (if gt temp (at p.pmax j)
          then at p.pmax j
          else if d.lt temp (at p.pmin j)
          then at p.pmin j
          else temp)
      else temp

  -- The body of the loop over `k`, which starts at 1.
  pub cross :
      W → W → Individual W → Individual W → Individual W → Individual W → ℕ → Draft W G → Draft W G
  unfolding crossed
  cross factor rate x best a b k t =
      let (r, g) = world.eqdist t.g in
      let c = cell p t.j in
      record {
        params =
            set t.params c (
              if d.lt r rate || (k + 1 == t.j) then crossed t.j factor best a b else at x.params c);
        j = (t.j + 1) % p.ndim;
        g = g;
      }

  -- The self-adapting parameters of a trial, with F_LOWER, F_UPPER, TAU_1 and TAU_2.
  pub adapt : Individual W → G → W × W × G
  adapt x g =
      let (r1, g1) = world.eqdist g in
      let (f, g2) = world.eqdist g1 in
      let change_f = d.lt r1 (d.lit 1 10) in
      let factor = if change_f then d.lit 1 10 ⊕ (f ⊗ d.lit 9 10) else x.factor in
      let (r2, g3) = world.eqdist (if change_f then g2 else g1) in
      let (cr, g4) = world.eqdist g3 in
      let change_cr = d.lt r2 (d.lit 1 10) in
      (factor, if change_cr then cr else x.rate, if change_cr then g4 else g3)

  -- The trial for the individual `x` at `i`.
  pub make_trial : List (Individual W) → ℕ → Individual W → Search W G → Individual W × G
  unfolding adapt cross
  make_trial pop_1 i x s =
      let (a, g1) = pick (np p calc_forces) (i ∷ []) s.g in
      let (b, g2) = pick (np p calc_forces) (i ∷ a ∷ []) g1 in
      let (r, g3) = world.eqdist g2 in
      let (factor, rate, g4) = adapt x g3 in
      let t =
        for_below p.ndim (cross factor rate x s.best (get_or pop_1 a blank) (get_or pop_1 b blank))
          (record { params = s.trial.params; j = m.to_int (r ⊗ int p.ndim); g = g4 }) in
      (record { params = t.params; factor = factor; rate = rate }, t.g)

  -- What stays at `i`, the cost and the individual, and the search behind it.
  pub choose : Individual W → W → W → Individual W → W × Individual W
  choose trial force c x = if d.le force c then (force, trial) else (c, x)

  pub select :
      List (Individual W) → ℕ → W → Individual W → Search W G → (W × Individual W) × Search W G
  unfolding make_trial choose
  select pop_1 i c x s =
      let (trial, g) = make_trial pop_1 i x s in
      let force = calc_forces trial.params in
      let better = d.lt force s.min_cost in
      let kept = choose trial force c x in
      (
        kept,
        record {
          best = if better then trial else s.best;
          min_cost = if better then force else s.min_cost;
          max_cost = if gt kept.0 s.max_cost then kept.0 else s.max_cost;
          trial = trial;
          g = g;
        },
      )

  -- The loop over the population from `i` on, with the costs and the individuals that are left.
  pub select_from :
      List (Individual W)
      → ℕ
      → List W
      → List (Individual W)
      → Search W G
      → Pool W (Individual W) × Search W G
  unfolding select
  select_from pop_1 i [] xs s = (record { cost = []; population = [] }, s)
  select_from pop_1 i (c ∷ cs) [] s = (record { cost = []; population = [] }, s)
  select_from pop_1 i (c ∷ cs) (x ∷ xs) s =
      let (kept, s') = select pop_1 i c x s in
      let (pool, s'') = select_from pop_1 (i + 1) cs xs s' in
      (record { cost = kept.0 ∷ pool.cost; population = kept.1 ∷ pool.population }, s'')

  -- Behind a jump: the new population, and the rate of jumps.
  abbrev pub jumped : State W G → Search W G → Pool W (Individual W) → State W G
  jumped t s q =
      let slower = ltb 10 (t.jump_steps + 1) in
      record {
        pool = q;
        search = s;
        jump_steps = if slower then 0 else t.jump_steps + 1;
        jump_rate = if slower then t.jump_rate ⊗ d.lit 9 10 else t.jump_rate;
        stopped = t.stopped;
      }

  -- The jump to the opposite population.
  pub jump : Pool W (Individual W) → State W G → Search W G → Option (State W G)
  jump pool t s =
      let (r, g) = world.eqdist s.g in
      if d.lt r t.jump_rate
      then elim (opposite_check p calc_forces false pool) [
        | none ↦ none
        | some q ↦ some (jumped t (record s { g = g }) q)
      ]
      else some (record t { pool = pool; search = record s { g = g } })

  -- Binaries for analytic potentials may jump.
  pub jump_if : Bool → Pool W (Individual W) → State W G → Search W G → Option (State W G)
  unfolding jump
  jump_if true pool t s = jump pool t s
  jump_if false pool t s = some (record t { pool = pool; search = s })

  abbrev pub check_flagfile : State W G → State W G
  check_flagfile t =
      let (stop, g) = world.flagfile t.search.g in
      record t { search = record t.search { g = g }; stopped = stop }

  -- One round of the main loop.
  pub generation : State W G → Option (State W G)
  unfolding select_from jump_if
  generation t =
      let (pool, s) =
        select_from t.pool.population 0 t.pool.cost t.pool.population
          (record t.search { max_cost = zero_double }) in
      elim (jump_if p.apot pool t s) [ none ↦ none | some u ↦ some (check_flagfile u) ]

  -- `while (crit >= evo_threshold && min_cost >= evo_threshold)`, and the `break`.
  pub goes_on : W → State W G → Bool
  goes_on threshold t =
      not t.stopped
      && ge (t.search.max_cost ⊖ t.search.min_cost) threshold
      && ge t.search.min_cost threshold

  -- The loop over the first population, behind `(min_cost, max_cost, best)`.
  pub tally : List W → List (Individual W) → Search W G → Search W G
  tally [] xs s = s
  tally (c ∷ cs) [] s = s
  tally (c ∷ cs) (x ∷ xs) s =
      let smaller = d.lt c s.min_cost in
      tally cs xs (record s {
        best = if smaller then x else s.best;
        min_cost = if smaller then c else s.min_cost;
        max_cost = if gt c s.max_cost then c else s.max_cost;
      })

  pub checked_if : Bool → Pool W (Individual W) → Option (Pool W (Individual W))
  checked_if true pool = opposite_check p calc_forces true pool
  checked_if false pool = some pool

  pub init_population : List W → G → Option (Pool W (Individual W) × G)
  init_population xi g =
      let (pop, g') = random_population world p (np p calc_forces) xi g in
      elim (checked_if p.apot (valued p calc_forces pop)) [ none ↦ none | some q ↦ some (q, g') ]

  -- The state in front of the main loop; JR is 0.6.
  abbrev pub start : List W → Pool W (Individual W) → G → State W G
  start xi pool g = record {
    pool = pool;
    search = tally pool.cost pool.population (record {
      best = blank;
      min_cost = ceiling;
      max_cost = zero_double;
      trial = record { params = xi; factor = zero_double; rate = zero_double };
      g = g;
    });
    jump_steps = 0;
    jump_rate = d.lit 6 10;
    stopped = false;
  }

  -- The states of a run at the head of the main loop.
  pub data Reach (threshold : W) (xi : List W) (g : G) : State W G → Type 0 where
    first :
        {pool : Pool W (Individual W)} {g' : G}
        → init_population xi g ≡ some (pool, g')
        → Reach threshold xi g (start xi pool g')
    next :
        {s t : State W G}
        → Reach threshold xi g s
        → goes_on threshold s ≡ true
        → generation s ≡ some t
        → Reach threshold xi g t

  -- The parameters behind `run_differential_evolution`.
  pub data Returns (threshold : W) (xi : List W) (g : G) : List W → Type 0 where
    skipped : d.eq threshold zero_double ≡ true → Returns threshold xi g xi
    finished :
        {s : State W G}
        → d.eq threshold zero_double ≡ false
        → Reach threshold xi g s
        → goes_on threshold s ≡ false
        → Returns threshold xi g s.search.best.params
