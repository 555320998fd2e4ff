-- ===== src/Splines/Agreement.antt =====
-- The variants of the interpolation agree with one another, and read only their column.
use potfit.Base.{
  ℕ, ◌+◌, ◌-◌, ◌≤◌, ◌<◌, ◌≡◌, refl, ap, false, some, leb, arith, Bool-cases, inl, inr, Outcome, ok,
  exit_if, ◌>>◌, passed,
}
use potfit.Base.Double.{Double, zero_double, ◌⊖◌, ◌⊘◌}
use potfit.Splines.{
  PotTable, Failure, short_distance, bisect, splint_dir, splint_grad_dir, splint_comb_dir,
  splint_ne, splint_grad_ne, splint_comb_ne, splint_ed, splint_grad_ed, splint_comb_ed, offset,
  value_at, gradient_at, value_ed, gradient_ed, fraction,
}
use potfit.Splines.Bisection.{IsSlot, bisect_total}

module _ {W : Type 0} ⦃d : Double W⦄ (pt : PotTable W) (xi : ℕ → W) where
  -- Width of the interval above an index, and the place of `r` in it.
  abbrev pub width : ℕ → W
  width k = pt.xcoord (k + 1) ⊖ pt.xcoord k

  abbrev pub place : W → ℕ → W
  place r k = (r ⊖ pt.xcoord k) ⊘ width k

  -- For a column of at least two values, the three routines that search the interval give what the
  -- routines for a known index give at the interval that the bisection finds.
  pub splint_ne-splint_dir :
      (fuel col : ℕ) (r : W)
      → pt.first col < pt.last col
      → pt.last col - pt.first col < fuel
      → (k : ℕ) × IsSlot pt xi r (pt.first col) (pt.last col) k (k + 1)
        × (splint_ne pt xi fuel col r ≡ some (splint_dir pt xi k (place r k) (width k)))
        × (splint_grad_ne pt xi fuel col r ≡ some (splint_grad_dir pt xi k (place r k) (width k)))
        × (splint_comb_ne pt xi fuel col r ≡ some (splint_comb_dir pt xi k (place r k) (width k)))
  unfolding splint_ne splint_grad_ne splint_comb_ne splint_dir splint_grad_dir splint_comb_dir
      value_at gradient_at
  splint_ne-splint_dir fuel col r h f =
      let (k, l, e, s) = bisect_total pt xi r (pt.first col) (pt.last col) fuel h f in
      let e' : bisect pt xi fuel r (pt.first col) (pt.last col) ≡ some (k, k + 1) =
        rw (← s.next) e in
      (
        k,
        rw (← s.next) s,
        rw (e', splint_ne) refl,
        rw (e', splint_grad_ne) refl,
        rw (e', splint_comb_ne) refl,
      )

  -- On an equidistant table the combined routine gives the value of `splint_ed` and, below the last
  -- index, the gradient of `splint_grad_ed`.
  pub splint_comb_ed-agrees :
      (truncate : W → ℕ) (col : ℕ) (r v g : W)
      → splint_comb_ed pt xi truncate col r ≡ ok (v, g)
      → (splint_ed pt xi truncate col r ≡ ok v)
        × (offset pt xi truncate col r + pt.first col < pt.last col
            → splint_grad_ed pt xi truncate col r ≡ ok g)
  unfolding splint_comb_ed splint_ed splint_grad_ed
  splint_comb_ed-agrees truncate col r v g e =
      let (far, e') = passed (d.lt (r ⊖ pt.begin col) zero_double) short_distance e in
      let k : ℕ = offset pt xi truncate col r + pt.first col in
      let b : W = fraction pt xi truncate col r in
      let values : value_ed pt xi truncate col r k b ≡ v = cc in
      let gradients : gradient_ed pt xi truncate col r k b ≡ g = cc in
      (
        rw (far, splint_ed) (ap ok values),
        λ h.
            let inner : leb (pt.last col) (offset pt xi truncate col r + pt.first col) ≡ false =
              ground (arith, h) in
            rw (far, inner, splint_grad_ed) (ap ok gradients),
      )

pair_same : {W : Type 0} {a a' b b' : W} → a ≡ a' → b ≡ b' → ◌≡◌ {A = W × W} (a, b) (a', b')
pair_same p q = cc

-- Two tables with the same values in one column.
module _ {W : Type 0} ⦃d : Double W⦄ (pt : PotTable W) (xi xi' : ℕ → W) (col : ℕ) where
  abbrev pub SameColumn : Type 0
  SameColumn = (i : ℕ) → pt.first col ≤ i → i ≤ pt.last col → xi i ≡ xi' i

  value_at_same :
      (fuel : ℕ) (r : W) (k l : ℕ)
      → xi k ≡ xi' k
      → xi l ≡ xi' l
      → value_at pt xi fuel col r (k, l) ≡ value_at pt xi' fuel col r (k, l)
  unfolding value_at
  value_at_same fuel r k l low high = rw (low, high) refl

  gradient_at_same :
      (fuel : ℕ) (r : W) (k l : ℕ)
      → xi k ≡ xi' k
      → xi l ≡ xi' l
      → gradient_at pt xi fuel col r (k, l) ≡ gradient_at pt xi' fuel col r (k, l)
  unfolding gradient_at
  gradient_at_same fuel r k l low high = rw (low, high) refl

  gradient_ed_same :
      (truncate : W → ℕ) (r : W) (k : ℕ) (b : W)
      → SameColumn
      → pt.first col ≤ k
      → k < pt.last col
      → gradient_ed pt xi truncate col r k b ≡ gradient_ed pt xi' truncate col r k b
  gradient_ed_same truncate r k b same lo hi =
      rw (same k lo (omega arith), same (k + 1) (omega arith) (omega arith)) refl

  splint_grad_ed_same :
      (truncate : W → ℕ) (r : W)
      → SameColumn
      → pt.first col < pt.last col
      → offset pt xi truncate col r ≤ pt.last col - pt.first col
      → splint_grad_ed pt xi truncate col r ≡ splint_grad_ed pt xi' truncate col r
  unfolding splint_grad_ed
  splint_grad_ed_same truncate r same h o =
      let k : ℕ = offset pt xi truncate col r + pt.first col in
      let checked : W → Outcome Failure W =
        λ w. exit_if (d.lt (r ⊖ pt.begin col) zero_double) short_distance >> ok w in
      elim (Bool-cases (leb (pt.last col) k)) [
        | inl t ↦
            rw (t, splint_grad_ed)
              (ap checked (
                gradient_ed_same truncate r (k - 1) _ same (ground (arith, o, t))
                  (ground (arith, o, t))))
        | inr t ↦
            rw (t, splint_grad_ed)
              (ap checked (gradient_ed_same truncate r k _ same (omega arith) (ground (arith, t))))
      ]

  -- The gradient of an equidistant table and the three routines with a bisection read only the cells of
  -- their column, also for a distance at its end.
  pub reads_column :
      (truncate : W → ℕ) (fuel : ℕ) (r : W)
      → SameColumn
      → pt.first col < pt.last col
      → pt.last col - pt.first col < fuel
      → offset pt xi truncate col r ≤ pt.last col - pt.first col
      → (splint_grad_ed pt xi truncate col r ≡ splint_grad_ed pt xi' truncate col r)
        × (splint_ne pt xi fuel col r ≡ splint_ne pt xi' fuel col r)
        × (splint_grad_ne pt xi fuel col r ≡ splint_grad_ne pt xi' fuel col r)
        × (splint_comb_ne pt xi fuel col r ≡ splint_comb_ne pt xi' fuel col r)
  unfolding splint_grad_ed splint_ne splint_grad_ne splint_comb_ne value_at gradient_at
  reads_column truncate fuel r same h f o =
      let (k, l, e, s) = bisect_total pt xi r (pt.first col) (pt.last col) fuel h f in
      let low : xi k ≡ xi' k = same k s.first_le (omega (arith, s.next, s.le_last)) in
      let high : xi l ≡ xi' l = same l (omega (arith, s.next, s.first_le)) s.le_last in
      (
        splint_grad_ed_same truncate r same h o,
        rw (e, splint_ne) (ap some (value_at_same fuel r k l low high)),
        rw (e, splint_grad_ne) (ap some (gradient_at_same fuel r k l low high)),
        rw (e, splint_comb_ne)
            (ap some (
              pair_same (value_at_same fuel r k l low high)
                (gradient_at_same fuel r k l low high))),
      )
