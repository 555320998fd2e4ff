-- ===== src/Splines.antt =====
-- The interpolation routines of splines.c. An array is a function of the index; the conversion of a
-- double to an `int`, which cuts the fraction off, is the argument `truncate`.
pub mod Bisection
pub mod Agreement
pub mod Second
mod Linear
mod Examples
use potfit.Base.{
  ℕ, zero, suc, ◌+◌, ◌-◌, ◌/◌, Bool, true, false, Option, none, some, if◌then◌else◌, leb, Outcome,
  ok, exit, ◌>>=◌, ◌>>◌, exit_if,
}
use potfit.Base.Double.{Double, gt, zero_double, ◌⊕◌, ◌⊖◌, ◌⊗◌, ◌⊘◌}

-- `pot_table_t`, less what the routines do not read.
pub record PotTable (W : Type 0) : Type 0 where
  pub begin : ℕ → W
  pub end : ℕ → W
  pub step : ℕ → W
  pub invstep : ℕ → W
  pub first : ℕ → ℕ
  pub last : ℕ → ℕ
  pub xcoord : ℕ → W
  pub d2tab : ℕ → W

-- The call of `error` for a distance below the table.
pub data Failure : Type 0 where
  short_distance : Failure

module _ {W : Type 0} ⦃d : Double W⦄ where
  abbrev one : W
  one = d.lit 1 1

  abbrev three : W
  three = d.lit 3 1

  abbrev six : W
  six = d.lit 6 1

  -- `(a * a * a - a) * d21 + (b * b * b - b) * d22`
  abbrev cubic : W → W → W → W → W
  cubic a b d21 d22 = ((((a ⊗ a) ⊗ a) ⊖ a) ⊗ d21) ⊕ ((((b ⊗ b) ⊗ b) ⊖ b) ⊗ d22)

  -- `(3 * (b * b) - 1) * d22 - (3 * (a * a) - 1) * d21`
  abbrev slope : W → W → W → W → W
  slope a b d21 d22 = (((three ⊗ (b ⊗ b)) ⊖ one) ⊗ d22) ⊖ (((three ⊗ (a ⊗ a)) ⊖ one) ⊗ d21)

  module _ (pt : PotTable W) (xi : ℕ → W) where
    -- The routines for a known index.
    unfoldable pub splint_dir : ℕ → W → W → W
    splint_dir k b step =
        let a = one ⊖ b in
        ((a ⊗ xi k) ⊕ (b ⊗ xi (k + 1)))
        ⊕ ((cubic a b (pt.d2tab k) (pt.d2tab (k + 1)) ⊗ (step ⊗ step)) ⊘ six)

    unfoldable pub splint_grad_dir : ℕ → W → W → W
    splint_grad_dir k b step =
        let a = one ⊖ b in
        ((xi (k + 1) ⊖ xi k) ⊘ step) ⊕ ((slope a b (pt.d2tab k) (pt.d2tab (k + 1)) ⊗ step) ⊘ six)

    unfoldable pub splint_comb_dir : ℕ → W → W → W × W
    splint_comb_dir k b step =
        let a = one ⊖ b in
        let grad =
          ((xi (k + 1) ⊖ xi k) ⊘ step)
          ⊕ ((slope a b (pt.d2tab k) (pt.d2tab (k + 1)) ⊗ step) ⊘ six) in
        (
          ((a ⊗ xi k) ⊕ (b ⊗ xi (k + 1)))
              ⊕ ((cubic a b (pt.d2tab k) (pt.d2tab (k + 1)) ⊗ (step ⊗ step)) ⊘ six),
          grad,
        )

    -- The loop `while (khi - klo > 1)`; `none`: the fuel ran out.
    unfoldable pub bisect : ℕ → W → ℕ → ℕ → Option (ℕ × ℕ)
    bisect zero r klo khi = none
    bisect (suc fuel) r klo khi =
        let k = (khi + klo) / 2 in
        let above = gt (pt.xcoord k) r in
        let rest = bisect fuel r (if above then klo else k) (if above then k else khi) in
        if leb (khi - klo) 1 then some (klo, khi) else rest

    module _ (fuel : ℕ) (col : ℕ) (r : W) where
      -- The routines for tables that are not equidistant, behind the bisection.
      unfoldable pub value_at : ℕ × ℕ → W
      value_at (klo, khi) =
          let h = pt.xcoord khi ⊖ pt.xcoord klo in
          let b = (r ⊖ pt.xcoord klo) ⊘ h in
          let a = one ⊖ b in
          ((a ⊗ xi klo) ⊕ (b ⊗ xi khi))
          ⊕ ((cubic a b (pt.d2tab klo) (pt.d2tab khi) ⊗ (h ⊗ h)) ⊘ six)

      unfoldable pub gradient_at : ℕ × ℕ → W
      gradient_at (klo, khi) =
          let h = pt.xcoord khi ⊖ pt.xcoord klo in
          let b = (r ⊖ pt.xcoord klo) ⊘ h in
          let a = one ⊖ b in
          ((xi khi ⊖ xi klo) ⊘ h) ⊕ ((slope a b (pt.d2tab klo) (pt.d2tab khi) ⊗ h) ⊘ six)

      unfoldable pub splint_ne : Option W
      unfolding bisect value_at
      splint_ne = elim (bisect fuel r (pt.first col) (pt.last col)) [
        | none ↦ none
        | some s ↦ some (value_at s)
      ]

      unfoldable pub splint_grad_ne : Option W
      unfolding bisect gradient_at
      splint_grad_ne = elim (bisect fuel r (pt.first col) (pt.last col)) [
        | none ↦ none
        | some s ↦ some (gradient_at s)
      ]

      unfoldable pub splint_comb_ne : Option (W × W)
      unfolding bisect value_at gradient_at
      splint_comb_ne = elim (bisect fuel r (pt.first col) (pt.last col)) [
        | none ↦ none
        | some s ↦ some (value_at s, gradient_at s)
      ]

    module _ (truncate : W → ℕ) (col : ℕ) (r : W) where
      -- The routines for equidistant tables. `k` and `b` before and behind `k += pt->first[col]`.
      abbrev offset : ℕ
      offset = truncate ((r ⊖ pt.begin col) ⊗ pt.invstep col)

      abbrev fraction : W
      fraction = ((r ⊖ pt.begin col) ⊖ (d.lit offset 1 ⊗ pt.step col)) ⊗ pt.invstep col

      abbrev value_ed : ℕ → W → W
      value_ed k b =
          let a = one ⊖ b in
          ((a ⊗ xi k) ⊕ (b ⊗ xi (k + 1)))
          ⊕ (cubic a b (pt.d2tab k) (pt.d2tab (k + 1)) ⊘ ((six ⊗ pt.invstep col) ⊗ pt.invstep col))

      abbrev gradient_ed : ℕ → W → W
      gradient_ed k b =
          let a = one ⊖ b in
          ((xi (k + 1) ⊖ xi k) ⊗ pt.invstep col)
          ⊕ (slope a b (pt.d2tab k) (pt.d2tab (k + 1)) ⊘ (six ⊗ pt.invstep col))

      unfoldable pub splint_ed : Outcome Failure W
      splint_ed = do
        exit_if (d.lt (r ⊖ pt.begin col) zero_double) short_distance
        ok (value_ed (offset + pt.first col) fraction)

      unfoldable pub splint_comb_ed : Outcome Failure (W × W)
      splint_comb_ed = do
        exit_if (d.lt (r ⊖ pt.begin col) zero_double) short_distance
        let k = offset + pt.first col
        ok (value_ed k fraction, gradient_ed k fraction)

      unfoldable pub splint_grad_ed : Outcome Failure W
      splint_grad_ed = do
        exit_if (d.lt (r ⊖ pt.begin col) zero_double) short_distance
        let k = offset + pt.first col
        let at_last = leb (pt.last col) k
        ok (
            gradient_ed (if at_last then k - 1 else k)
              (if at_last then fraction ⊕ one else fraction))
