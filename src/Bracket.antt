-- ===== src/Bracket.antt =====
-- `bracket` of bracket.c: the search for three points on a line whose middle one is the lowest. The
-- three force vectors `f_vec1`, `f_vec2`, `f_vec3` are cells of a store, and `p_left`, `p_center`,
-- `p_right` name cells. The argument `calc_forces` is the linked force routine on the line: at `x` it
-- gives the value and the force vector of the parameters `xicom + x * delcom`.
pub mod Buffers
pub mod Tracking
pub mod Descent
pub mod Stops
mod Examples
use potfit.Base.{ℕ, zero, suc, ◌+◌, ◌≡◌, Bool, true, false, if◌then◌else◌, ltb}
use potfit.Base.Double.{Double, gt, ge, ◌⊕◌, ◌⊖◌, ◌⊗◌, ◌⊘◌}
use Buffers.{Buffer, vec1, vec2, vec3, write}

-- The variables of the loop; `vec` is the contents of the three buffers.
pub record State (W V : Type 0) : Type 0 where
  pub x_left : W
  pub x_center : W
  pub x_right : W
  pub f_left : W
  pub f_center : W
  pub f_right : W
  pub p_left : Buffer
  pub p_center : Buffer
  pub p_right : Buffer
  pub vec : Buffer → V
  pub last : ℕ
  pub nb_eval : ℕ

-- What is stored through the arguments of `bracket` when it returns.
pub record Found (W V : Type 0) : Type 0 where
  pub x_lower : W
  pub x_minimum : W
  pub x_upper : W
  pub f_lower : W
  pub f_minimum : W
  pub f_upper : W
  pub f_vec1 : V

pub data Ending (W V : Type 0) : Type 0 where
  found : Found W V → Ending W V
  aborting : Ending W V
  out_of_rounds : Ending W V

pub data Round (W V : Type 0) : Type 0 where
  success : Round W V
  continue : State W V → Round W V

module _ {W V : Type 0} ⦃d : Double W⦄ (calc_forces : W → W × V) where
  -- CGOLD of bracket.h
  abbrev cgold : W
  cgold = d.lit 3819660 10000000

  -- `vecu[i] = xicom[i] + x * delcom[i]; f = calc_forces(vecu, p, 0);` with the new end of the bracket.
  pub evaluate_left : W → State W V → State W V
  evaluate_left x s = record s {
    x_left = x;
    f_left = (calc_forces x).0;
    vec = write s.vec s.p_left (calc_forces x).1;
  }

  pub evaluate_right : W → State W V → State W V
  evaluate_right x s = record s {
    x_right = x;
    f_right = (calc_forces x).0;
    vec = write s.vec s.p_right (calc_forces x).1;
  }

  -- `nb_eval++`, which stands in each branch by itself.
  abbrev pub counted : State W V → State W V
  counted s = record s { nb_eval = s.nb_eval + 1 }

  -- The center becomes the left end and the right end the center, with two exchanges of pointers.
  abbrev pub shift_right : State W V → State W V
  shift_right s = record s {
    x_left = s.x_center;
    f_left = s.f_center;
    x_center = s.x_right;
    f_center = s.f_right;
    p_left = s.p_center;
    p_center = s.p_right;
    p_right = s.p_left;
  }

  abbrev pub shift_left : State W V → State W V
  shift_left s = record s {
    x_right = s.x_center;
    f_right = s.f_center;
    x_center = s.x_left;
    f_center = s.f_left;
    p_right = s.p_center;
    p_center = s.p_left;
    p_left = s.p_right;
  }

  pub go_right : State W V → State W V
  unfolding evaluate_right
  go_right s =
      let t = shift_right s in
      evaluate_right (((t.x_center ⊖ t.x_left) ⊘ cgold) ⊕ t.x_left) (counted t)

  pub go_left : State W V → State W V
  unfolding evaluate_left
  go_left s =
      let t = shift_left s in
      evaluate_left ((d.neg (t.x_right ⊖ t.x_center) ⊘ cgold) ⊕ t.x_right) (counted t)

  -- The body of the loop.
  pub round : State W V → Round W V
  unfolding go_right go_left evaluate_left evaluate_right
  round s =
      if d.lt s.f_center s.f_left
      then (if d.lt s.f_center s.f_right
          then success
          else if gt s.f_center s.f_right
          then continue (go_right s)
          else continue (
              evaluate_right (((s.x_right ⊖ s.x_left) ⊗ cgold) ⊕ s.x_right)
                (counted (record s { last = 1 }))))
      else if gt s.f_center s.f_left
      then continue (go_left s)
      else if d.lt s.f_center s.f_right
      then continue (
          evaluate_left ((d.neg (s.x_right ⊖ s.x_left) ⊗ cgold) ⊕ s.x_left)
            (counted (record s { last = 2 })))
      else if gt s.f_center s.f_right
      then continue (go_right s)
      else if potfit.Base.◌==◌ s.last 2
      then continue (
          evaluate_left ((d.neg (s.x_right ⊖ s.x_left) ⊘ cgold) ⊕ s.x_left)
            (counted (record s { last = 1 })))
      else continue (
          evaluate_right (((s.x_right ⊖ s.x_left) ⊘ cgold) ⊕ s.x_right)
            (counted (record s { last = 2 })))

  abbrev pub result : State W V → Found W V
  result s = record {
    x_lower = s.x_left;
    x_minimum = s.x_center;
    x_upper = s.x_right;
    f_lower = s.f_left;
    f_minimum = s.f_center;
    f_upper = s.f_right;
    f_vec1 = s.vec s.p_center;
  }

  -- `while (nb_eval < MAX_IT)`, behind which `error(1, ...)` stands.
  abbrev next : Bool → Ending W V → Ending W V
  next more rest = if more then rest else aborting

  -- The loop, with the rounds that may still run. MAX_IT is 100.
  pub rounds : ℕ → State W V → Ending W V
  unfolding round
  rounds zero s = out_of_rounds
  rounds (suc fuel) s = elim (round s) [
    | success ↦ found (result s)
    | continue t ↦ next (ltb t.nb_eval 100) (rounds fuel t)
  ]

  -- The variables before the first evaluation, with one end as the center.
  abbrev pub center_lower : W → W → W → W → (Buffer → V) → State W V
  center_lower x_lower x_upper f_lower f_upper vec = record {
    x_left = x_lower;
    x_center = x_lower;
    x_right = x_upper;
    f_left = f_lower;
    f_center = f_lower;
    f_right = f_upper;
    p_left = vec3;
    p_center = vec1;
    p_right = vec2;
    vec = vec;
    last = 0;
    nb_eval = 0;
  }

  abbrev pub center_upper : W → W → W → W → (Buffer → V) → State W V
  center_upper x_lower x_upper f_lower f_upper vec = record {
    x_left = x_lower;
    x_center = x_upper;
    x_right = x_upper;
    f_left = f_lower;
    f_center = f_upper;
    f_right = f_upper;
    p_left = vec1;
    p_center = vec2;
    p_right = vec3;
    vec = vec;
    last = 0;
    nb_eval = 0;
  }

  -- The part before the loop.
  pub begin : W → W → W → W → (Buffer → V) → State W V
  unfolding evaluate_left evaluate_right
  begin x_lower x_upper f_lower f_upper vec =
      if ge f_upper f_lower
      then evaluate_left ((d.neg (x_upper ⊖ x_lower) ⊘ cgold) ⊕ x_upper)
          (counted (center_lower x_lower x_upper f_lower f_upper vec))
      else evaluate_right (((x_upper ⊖ x_lower) ⊘ cgold) ⊕ x_lower)
          (counted (center_upper x_lower x_upper f_lower f_upper vec))

  unfoldable pub bracket : W → W → W → W → (Buffer → V) → Ending W V
  unfolding rounds begin
  bracket x_lower x_upper f_lower f_upper vec =
      rounds 100 (begin x_lower x_upper f_lower f_upper vec)
