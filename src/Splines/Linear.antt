-- ===== src/Splines/Linear.antt =====
-- `splint_ne_lin`: the splines inside a column, straight lines outside of it.
use potfit.Base.{ℕ, ◌≡◌, refl, false, Option, none, some, if◌then◌else◌}
use potfit.Base.Double.{Double, gt, zero_double, ◌⊕◌, ◌⊖◌, ◌⊗◌, ◌⊘◌}
use potfit.Splines.{PotTable, bisect, value_at, splint_ne, slope, one, six}

module _ {W : Type 0} ⦃d : Double W⦄ (pt : PotTable W) (xi : ℕ → W) (col : ℕ) (r : W) where
  -- The gradient at an end of the cell, for the fractions `a` and `b`.
  abbrev end_gradient : ℕ → ℕ → W → W → W
  end_gradient klo khi a b =
      let h = pt.xcoord khi ⊖ pt.xcoord klo in
      ((xi khi ⊖ xi klo) ⊘ h) ⊕ ((slope a b (pt.d2tab klo) (pt.d2tab khi) ⊗ h) ⊘ six)

  abbrev lin_at : ℕ × ℕ → W
  lin_at (klo, khi) =
      if d.lt r (pt.begin col)
      then xi klo ⊕ (end_gradient klo khi one zero_double ⊗ (r ⊖ pt.xcoord klo))
      else if gt r (pt.end col)
      then xi khi ⊕ (end_gradient klo khi zero_double one ⊗ (r ⊖ pt.xcoord khi))
      else value_at pt xi 0 col r (klo, khi)

  -- `none`: the fuel of the bisection ran out.
  splint_ne_lin : ℕ → Option W
  splint_ne_lin fuel = elim (bisect pt xi fuel r (pt.first col) (pt.last col)) [
    | none ↦ none
    | some s ↦ some (lin_at s)
  ]

  -- From the beginning of the column to its end `splint_ne_lin` is `splint_ne`.
  splint_ne_lin-splint_ne :
      (fuel : ℕ)
      → d.lt r (pt.begin col) ≡ false
      → gt r (pt.end col) ≡ false
      → splint_ne_lin fuel ≡ splint_ne pt xi fuel col r
  unfolding splint_ne_lin splint_ne value_at
  splint_ne_lin-splint_ne fuel below above =
      elim (bisect pt xi fuel r (pt.first col) (pt.last col))
        as (λ o.
          (elim o [ none ↦ none | some s ↦ some (lin_at s) ])
          ≡ (elim o [ none ↦ none | some s ↦ some (value_at pt xi fuel col r s) ])) [
            | none ↦ refl
            | some (klo, khi) ↦ rw (below, above) refl
          ]
