-- ===== src/Powell.antt =====
-- powell_lsq.c: Powell's least squares. `dsysvx` of LAPACK is the argument `solve`, and the linked force
-- routine is `calc_forces`, whose force vector is a function of the index. The binaries with RESCALE are
-- left out, and so is the outer loop.
pub mod Matrix
pub mod Gram
pub mod Descent
mod Examples
use potfit.Base.{
  ℕ, zero, suc, ◌+◌, ◌-◌, ◌<◌, Bool, true, false, not, ◌&&◌, ◌||◌, List, [], ◌∷◌, map,
  if◌then◌else◌, ltb, leb, get_or, set, Outcome, ok, exit,
}
use potfit.Base.Int.{ℤ, pos, ltb_ℤ}
use potfit.Base.Double.{Double, gt, zero_double, ◌⊕◌, ◌⊖◌, ◌⊗◌, ◌⊘◌}
use potfit.Base.Loop.{for_below}
use potfit.Optimizer.{Problem, cell, at}
use potfit.Linmin
use potfit.Linmin.{Moved, linmin}
use Matrix.{put, put_both, put_entry}

-- What `dsysvx` stores: the solution, `info`, and the two error estimates.
pub record Solution (W : Type 0) : Type 0 where
  pub q : ℕ → W
  pub info : ℤ
  pub ferror : W
  pub berror : W

-- Behind `gamma_update`: 1 is `singular`.
pub record Updated (W : Type 0) : Type 0 where
  pub gamma : Matrix.Matrix W
  pub delta : List W
  pub singular : Bool

-- The variables of the inner loop.
pub record State (W : Type 0) : Type 0 where
  pub xi : List W
  pub delta : List W
  pub f1 : W
  pub df : W
  pub forces_1 : ℕ → W
  pub forces_2 : ℕ → W
  pub gamma : Matrix.Matrix W
  pub d : Matrix.Matrix W
  pub lineqsys : Matrix.Matrix W
  pub p : ℕ → W
  pub m : ℕ

-- How a round of the inner loop ends: at the bottom of the loop, or by one of the breaks.
pub data Round (W : Type 0) : Type 0 where
  bottom : State W → Round W
  singular : State W → Round W
  out_of_range : State W → Round W
  inaccurate : State W → Round W
  gamma_singular : State W → Round W

module _ {W : Type 0} ⦃dbl : Double W⦄ (pr : Problem W) (mdim : ℕ)
    (calc_forces : List W → W × (ℕ → W)) (solve : Matrix.Matrix W → (ℕ → W) → Solution W) where
  abbrev one : W
  one = dbl.lit 1 1

  abbrev eps : W
  eps = dbl.lit 1 1000

  abbrev very_small : W
  very_small = dbl.lit 1 1000000000000

  abbrev pub sum_below : ℕ → (ℕ → W) → W
  sum_below n f = for_below n (λ j s. s ⊕ f j) zero_double

  -- The sums of `lineqsys_init` and `lineqsys_update`.
  abbrev pub product_of : Matrix.Matrix W → ℕ → ℕ → W
  product_of gamma i k = sum_below mdim (λ j. gamma j i ⊗ gamma j k)

  abbrev pub right_side : Matrix.Matrix W → (ℕ → W) → ℕ → W
  right_side gamma forces i = for_below mdim (λ j s. s ⊖ (gamma j i ⊗ forces j)) zero_double

  -- A row of the matrix, right of the diagonal, and its mirror image.
  pub init_row : ℕ → Matrix.Matrix W → ℕ → Matrix.Matrix W → Matrix.Matrix W
  unfolding put_both
  init_row n gamma i a =
      for_below (n - (i + 1)) (λ t b. put_both b i (i + 1 + t) (product_of gamma i (i + 1 + t)))
        (put_both a i i (product_of gamma i i))

  pub lineqsys_init :
      Matrix.Matrix W → Matrix.Matrix W → (ℕ → W) → (ℕ → W) → ℕ → Matrix.Matrix W × (ℕ → W)
  unfolding init_row put_entry
  lineqsys_init gamma lineqsys deltaforce p n = (
    for_below n (init_row n gamma) lineqsys,
    for_below n (λ i q. put_entry q i (right_side gamma deltaforce i)) p,
  )

  pub lineqsys_update :
      Matrix.Matrix W → Matrix.Matrix W → (ℕ → W) → (ℕ → W) → ℕ → ℕ → Matrix.Matrix W × (ℕ → W)
  unfolding put_both put_entry
  lineqsys_update gamma lineqsys force_xi p i n = (
    for_below n (λ k a. put_both a i k (product_of gamma i k)) lineqsys,
    for_below n (λ k q. put_entry q k (right_side gamma force_xi k)) p,
  )

  -- `gamma[i][j] = f(i)` for every deviation.
  pub fill_column : Matrix.Matrix W → ℕ → (ℕ → W → W) → Matrix.Matrix W
  unfolding put
  fill_column gamma j f = for_below mdim (λ i g. put g i j (f i (g i j))) gamma

  -- The last loops of `gamma_update`, which normalize the column and the step.
  pub normalized : Matrix.Matrix W → ℕ → List W → Updated W
  unfolding fill_column
  normalized gamma j delta =
      let temp = dbl.sqrt (sum_below mdim (λ i. gamma i j ⊗ gamma i j)) in
      let fine = gt temp very_small in
      record {
        gamma = if fine then fill_column gamma j (λ i old. old ⊘ temp) else gamma;
        delta = if fine then map (λ x. x ⊘ temp) delta else delta;
        singular = not fine;
      }

  pub gamma_update : Matrix.Matrix W → W → W → (ℕ → W) → (ℕ → W) → List W → ℕ → W → Updated W
  unfolding fill_column normalized
  gamma_update gamma a b fa fb delta j fmin =
      let slope : ℕ → W = λ i. (fa i ⊖ fb i) ⊘ (a ⊖ b) in
      let mu = sum_below mdim (λ i. slope i ⊗ fa i) ⊘ fmin in
      normalized
        (fill_column (fill_column gamma j (λ i old. slope i)) j (λ i old. old ⊖ (mu ⊗ fa i))) j
        delta

  -- A column of `gamma_init`, with the norm of its numerical derivatives.
  pub derivatives : List W → (ℕ → W) → Matrix.Matrix W → ℕ → Matrix.Matrix W × W
  unfolding fill_column
  derivatives xi force_xi gamma i =
      let c = cell pr i in
      let scale = if pr.apot then at pr.pmax i ⊖ at pr.pmin i else one in
      let step = if pr.apot then eps ⊗ scale else eps in
      let force = (calc_forces (set xi c (at xi c ⊕ step))).1 in
      let temp : ℕ → W = λ j. (force j ⊖ force_xi j) ⊘ (eps ⊗ scale) in
      (fill_column gamma i (λ j old. temp j), dbl.sqrt (sum_below mdim (λ j. temp j ⊗ temp j)))

  -- The loop over the columns from `i` on; the number is the return value.
  pub gamma_from :
      ℕ
      → ℕ
      → List W
      → (ℕ → W)
      → Matrix.Matrix W
      → Matrix.Matrix W
      → Matrix.Matrix W × Matrix.Matrix W × ℕ
  unfolding derivatives fill_column put
  gamma_from zero i xi force_xi gamma d = (gamma, d, 0)
  gamma_from (suc left) i xi force_xi gamma d =
      let (g, temp) = derivatives xi force_xi gamma i in
      let rest =
        gamma_from left (i + 1) xi force_xi (fill_column g i (λ j old. old ⊘ temp))
          (put d i i (d i i ⊘ temp)) in
      if gt temp very_small then rest else (g, d, i + 1)

  pub gamma_init : List W → (ℕ → W) → Matrix.Matrix W → Matrix.Matrix W × Matrix.Matrix W × ℕ
  unfolding gamma_from
  gamma_init xi force_xi gamma =
      gamma_from pr.ndim 0 xi force_xi gamma
        (λ i j. if potfit.Base.◌==◌ i j then one else zero_double)

  -- A component of the step, inside the range of its parameter under APOT.
  pub component : List W → Matrix.Matrix W → (ℕ → W) → ℕ → W
  component xi d q i =
      let raw = sum_below pr.ndim (λ j. d i j ⊗ q j) in
      let x = at xi (cell pr i) in
      let low = at pr.pmin i in
      let high = at pr.pmax i in
      let lifted = if dbl.lt (x ⊕ raw) low then low ⊖ x else raw in
      if pr.apot then (if gt (x ⊕ lifted) high then high ⊖ x else lifted) else raw

  pub direction : List W → Matrix.Matrix W → (ℕ → W) → List W → List W
  unfolding component
  direction xi d q delta = for_below pr.ndim (λ i v. set v (cell pr i) (component xi d q i)) delta

  -- The parameter whose change is out of range, in binaries for tables with a file of limits.
  pub exceeds : Bool → List W → List W → ℕ → Bool
  exceeds usemaxch maxchange delta i =
      let c = cell pr i in
      not pr.apot
      && usemaxch
      && gt (at maxchange c) zero_double
      && gt (dbl.fabs (at delta c)) (at maxchange c)

  pub any_exceeds : Bool → List W → List W → Bool
  unfolding exceeds
  any_exceeds usemaxch maxchange delta =
      for_below pr.ndim (λ i b. b || exceeds usemaxch maxchange delta i) false

  -- The direction to replace, with the largest `fabs(p[i] * q[i])`.
  pub replaced : (ℕ → W) → (ℕ → W) → ℕ
  replaced p q =
      (for_below {A = ℕ × W} pr.ndim
        (λ i t. let temp = dbl.fabs (p i ⊗ q i) in if gt temp t.1 then (i, temp) else t)
        (0, zero_double)).0

  -- The state behind the line search.
  abbrev pub searched : State W → Moved W (ℕ → W) → State W
  searched s r = record s {
    xi = r.xi;
    delta = r.del;
    f1 = r.fx;
    forces_1 = r.fret1;
    forces_2 = r.fret2;
  }

  -- The state behind the updates of `gamma`, the directions and the equations.
  pub with_update : State W → W → ℕ → Updated W → State W
  unfolding lineqsys_update
  with_update t f2 j u =
      let (lineqsys, p) = lineqsys_update u.gamma t.lineqsys t.forces_1 t.p j pr.ndim in
      record t {
        gamma = u.gamma;
        d = for_below pr.ndim (λ i a. put a i j (at u.delta (cell pr i))) t.d;
        lineqsys = lineqsys;
        p = p;
        m = t.m + 1;
        df = f2 ⊖ t.f1;
      }

  -- The part of a round behind the line search.
  pub replace_direction : Solution W → State W → List W → Moved W (ℕ → W) → Round W
  unfolding replaced gamma_update with_update
  replace_direction sol s delta_norm r =
      let t = searched s r in
      let j = replaced t.p sol.q in
      let u = gamma_update t.gamma r.x1 r.x2 t.forces_1 t.forces_2 delta_norm j t.f1 in
      if gt (sol.ferror ⊕ sol.berror) one && ltb 5 t.m
      then inaccurate t
      else if u.singular
      then gamma_singular (record t { gamma = u.gamma })
      else bottom (with_update t s.f1 j u)

  -- A round of the inner loop.
  pub inner_round : Bool → List W → (ℕ → W) → State W → Outcome Linmin.Failure (Round W)
  unfolding direction any_exceeds replace_direction
  inner_round usemaxch maxchange old s =
      let sol = solve s.lineqsys s.p in
      let delta = direction s.xi s.d sol.q s.delta in
      let searches : Outcome Linmin.Failure (Round W) =
        elim (linmin calc_forces s.xi delta s.f1 s.forces_1 old) [
          | exit reason ↦ exit reason
          | ok r ↦ ok (replace_direction sol s delta r)
        ] in
      if ltb_ℤ (pos 0) sol.info && not (ltb_ℤ (pos pr.ndim) sol.info)
      then ok (singular s)
      else if any_exceeds usemaxch maxchange delta
      then ok (out_of_range (record s { delta = delta }))
      else searches

  -- The condition of the inner loop, with INNERLOOPS, PRECISION and TOOBIG.
  pub goes_on : State W → Bool
  goes_on s =
      (ltb s.m pr.ndim || leb s.m 801 && gt s.df (dbl.lit 1 10000000))
      && dbl.lt s.df (dbl.lit 10000 1)
