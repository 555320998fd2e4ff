-- ===== src/Brent.antt =====
-- `brent` of brent.c: the search for the minimum inside a bracket. The force vectors `fxmin`, `fxmin2`
-- and `fxu` are the three buffers of `bracket`, and `p_z`, `p_w`, `p_u` name them.
pub mod Tracking
mod Examples
use potfit.Base.{ℕ, zero, suc, ◌+◌, Bool, true, false, ◌||◌, ◌&&◌, if◌then◌else◌, Outcome, ok, exit}
use potfit.Base.Double.{Double, gt, ge, zero_double, ◌⊕◌, ◌⊖◌, ◌⊗◌, ◌⊘◌}
use potfit.Bracket.Buffers.{Buffer, vec1, vec2, vec3, write}

-- The variables of the loop; `vec` is the contents of the three buffers.
pub record State (W V : Type 0) : Type 0 where
  pub x_left : W
  pub x_right : W
  pub z : W
  pub w : W
  pub v : W
  pub f_z : W
  pub f_w : W
  pub f_v : W
  pub step : W
  pub e : W
  pub p_z : Buffer
  pub p_w : Buffer
  pub p_u : Buffer
  pub vec : Buffer → V

-- The return value and what is stored through the arguments.
pub record Minimum (W V : Type 0) : Type 0 where
  pub f_z : W
  pub xmin : W
  pub xmin2 : W
  pub fxmin : V
  pub fxmin2 : V

pub data Failure : Type 0 where
  problems : Failure
  too_many_iterations : Failure

module _ {W V : Type 0} ⦃d : Double W⦄ (calc_forces : W → W × V) (tol : W) where
  -- CGOLD and ZEPS of bracket.h
  abbrev cgold : W
  cgold = d.lit 3819660 10000000

  abbrev zeps : W
  zeps = d.lit 1 1000000000

  abbrev half : W
  half = d.lit 1 2

  abbrev two : W
  two = d.lit 2 1

  abbrev midpoint : State W V → W
  midpoint s = half ⊗ (s.x_left ⊕ s.x_right)

  abbrev tolerance : State W V → W
  tolerance s = (tol ⊗ d.fabs s.z) ⊕ zeps

  abbrev t2 : State W V → W
  t2 s = two ⊗ tolerance s

  -- The test that ends the search.
  pub close : State W V → Bool
  close s = d.le (d.fabs (s.z ⊖ midpoint s)) (t2 s ⊖ (half ⊗ (s.x_right ⊖ s.x_left)))

  -- `d` and `e` of a step into the larger part of the interval.
  pub golden : State W V → W × W
  golden s =
      let e = if d.lt s.z (midpoint s) then s.x_right ⊖ s.z else d.neg (s.z ⊖ s.x_left) in
      (cgold ⊗ e, e)

  -- The tolerance with the sign that points to the midpoint.
  abbrev toward : State W V → W
  toward s = if d.lt s.z (midpoint s) then tolerance s else d.neg (tolerance s)

  -- `d` and `e` of a step to the vertex of a parabola, if that lies inside.
  pub parabola : State W V → W × W
  unfolding golden
  parabola s =
      let r = (s.z ⊖ s.w) ⊗ (s.f_z ⊖ s.f_v) in
      let q = (s.z ⊖ s.v) ⊗ (s.f_z ⊖ s.f_w) in
      let p = ((s.z ⊖ s.v) ⊗ q) ⊖ ((s.z ⊖ s.w) ⊗ r) in
      let q' = two ⊗ (q ⊖ r) in
      let positive = gt q' zero_double in
      let p' = if positive then d.neg p else p in
      let q'' = if positive then q' else d.neg q' in
      let inside =
        d.lt (d.fabs p') (d.fabs ((half ⊗ q'') ⊗ s.e))
        && gt p' (q'' ⊗ (s.x_left ⊖ s.z))
        && d.lt p' (q'' ⊗ (s.x_right ⊖ s.z)) in
      let u = s.z ⊕ (p' ⊘ q'') in
      let at_border = d.lt (u ⊖ s.x_left) (t2 s) || d.lt (s.x_right ⊖ u) (t2 s) in
      if inside then (if at_border then toward s else p' ⊘ q'', s.step) else golden s

  pub steps : State W V → W × W
  unfolding parabola golden
  steps s = if gt (d.fabs s.e) (tolerance s) then parabola s else golden s

  -- The point of the next evaluation, at least the tolerance away from `z`.
  pub next_point : State W V → W → W
  next_point s step =
      if ge (d.fabs step) (tolerance s)
      then s.z ⊕ step
      else s.z ⊕ (if gt step zero_double then tolerance s else d.neg (tolerance s))

  -- The three cases behind the evaluation at `u`.
  pub worse : W → W → State W V → State W V
  worse u f_u s =
      let left = d.lt u s.z in
      let t = record s {
        x_left = if left then u else s.x_left;
        x_right = if left then s.x_right else u;
      } in
      if d.le f_u s.f_w || d.eq s.w s.z
      then record t { v = s.w; f_v = s.f_w; w = u; f_w = f_u; p_w = s.p_u; p_u = s.p_w }
      else if d.le f_u s.f_v || d.eq s.v s.z || d.eq s.v s.w
      then record t { v = u; f_v = f_u }
      else t

  -- `SHIFT` of the points and values, and the two exchanges of pointers.
  pub better : W → W → State W V → State W V
  better u f_u s =
      let left = d.lt u s.z in
      record s {
        x_left = if left then s.x_left else s.z;
        x_right = if left then s.z else s.x_right;
        v = s.w;
        w = s.z;
        z = u;
        f_v = s.f_w;
        f_w = s.f_z;
        f_z = f_u;
        p_w = s.p_z;
        p_z = s.p_u;
        p_u = s.p_w;
      }

  abbrev pub evaluated : W → State W V → State W V
  evaluated u s = record s { vec = write s.vec s.p_u (calc_forces u).1 }

  pub update : W → State W V → Outcome Failure (State W V)
  unfolding worse better
  update u s =
      let f_u = (calc_forces u).0 in
      if gt f_u s.f_z
      then ok (worse u f_u (evaluated u s))
      else if d.le f_u s.f_z
      then ok (better u f_u (evaluated u s))
      else exit problems

  -- The body of the loop behind the test.
  pub advance : State W V → Outcome Failure (State W V)
  unfolding update steps next_point
  advance s =
      let (step, e) = steps s in update (next_point s step) (record s { step = step; e = e })

  -- The copies element by element, through one temporary for each.
  abbrev pub result : State W V → Minimum W V
  result s = record {
    f_z = s.f_z;
    xmin = s.z;
    xmin2 = s.w;
    fxmin = s.vec s.p_z;
    fxmin2 = s.vec s.p_w;
  }

  -- The loop with the rounds that are left of ITMAX.
  pub iterate : ℕ → State W V → Outcome Failure (Minimum W V)
  unfolding close advance
  iterate zero s = exit too_many_iterations
  iterate (suc left) s =
      if close s
      then ok (result s)
      else elim (advance s) [ exit f ↦ exit f | ok t ↦ iterate left t ]

  -- The part before the loop, for the contents of the buffers at the call.
  abbrev pub start : W → W → W → W → (Buffer → V) → State W V
  start ax bx cx fbx vec =
      let x_left = if d.lt ax cx then ax else cx in
      let x_right = if gt ax cx then ax else cx in
      let v = x_left ⊕ (cgold ⊗ (x_right ⊖ x_left)) in
      record {
        x_left = x_left;
        x_right = x_right;
        z = bx;
        w = v;
        v = v;
        f_z = fbx;
        f_w = (calc_forces v).0;
        f_v = (calc_forces v).0;
        step = zero_double;
        e = zero_double;
        p_z = vec1;
        p_w = vec2;
        p_u = vec3;
        vec = write vec vec2 (calc_forces v).1;
      }

  unfoldable pub brent : W → W → W → W → (Buffer → V) → Outcome Failure (Minimum W V)
  unfolding iterate write
  brent ax bx cx fbx vec = iterate 100 (start ax bx cx fbx vec)
