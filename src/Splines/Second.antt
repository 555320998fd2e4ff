-- ===== src/Splines/Second.antt =====
-- `spline_ed` and `spline_ne` of splines.c: the second derivatives at the sampling points, by a forward
-- and a backward sweep. An array is a function of the index.
use potfit.Base.{ℕ, ◌+◌, ◌-◌, if◌then◌else◌, ◌==◌}
use potfit.Base.Double.{Double, gt, zero_double, ◌⊕◌, ◌⊖◌, ◌⊗◌, ◌⊘◌}
use potfit.Base.Loop.{for_below}

-- `y2` and `u`.
abbrev Sweep : Type 0 → Type 0
Sweep W = (ℕ → W) × (ℕ → W)

module _ {W : Type 0} ⦃d : Double W⦄ where
  abbrev put : (ℕ → W) → ℕ → W → ℕ → W
  put y k v i = if i == k then v else y i

  -- 0.99e30, from which on a gradient stands for a natural end.
  abbrev pub natural : W
  natural = d.lit 990000000000000000000000000000 1

  abbrev half : W
  half = d.lit 1 2

  -- The start of the sweep, its rounds `i = 1 .. n - 2`, and the end, for given `u[0]`, coefficients and
  -- `un`.
  abbrev first_cell : W → (u0 : W) → (ℕ → W) → Sweep W
  first_cell yp1 u0 y2 =
      if gt yp1 natural
      then (put y2 0 zero_double, put (λ i. zero_double) 0 zero_double)
      else (put y2 0 (d.neg half), put (λ i. zero_double) 0 u0)

  -- Behind the forward sweep: `y2[n - 1]`, and the loop from `n - 2` down to 0.
  abbrev back : ℕ → W → (un : W) → Sweep W → ℕ → W
  back n ypn un (y2, u) =
      let qn = if gt ypn natural then zero_double else half in
      let un' = if gt ypn natural then zero_double else un in
      let last = (un' ⊖ qn ⊗ u (n - 2)) ⊘ (qn ⊗ y2 (n - 2) ⊕ d.lit 1 1) in
      for_below (n - 1)
        (λ j y. put y (n - 2 - j) (y (n - 2 - j) ⊗ y (n - 2 - j + 1) ⊕ u (n - 2 - j)))
        (put y2 (n - 1) last)

  module _ (xstep : W) (y : ℕ → W) where
    abbrev round_ed : ℕ → Sweep W → Sweep W
    round_ed k (y2, u) =
        let i = k + 1 in
        let p = half ⊗ y2 (i - 1) ⊕ d.lit 2 1 in
        let slope = (y (i + 1) ⊖ y i) ⊘ xstep ⊖ (y i ⊖ y (i - 1)) ⊘ xstep in
        (
          put y2 i (d.neg half ⊘ p),
          put u i ((d.lit 6 1 ⊗ slope ⊘ (d.lit 2 1 ⊗ xstep) ⊖ half ⊗ u (i - 1)) ⊘ p),
        )

    unfoldable pub spline_ed : (n : ℕ) (yp1 ypn : W) → (ℕ → W) → ℕ → W
    spline_ed n yp1 ypn y2 =
        let u0 = (d.lit 3 1 ⊘ xstep) ⊗ ((y 1 ⊖ y 0) ⊘ xstep ⊖ yp1) in
        let un = (d.lit 3 1 ⊘ xstep) ⊗ (ypn ⊖ (y (n - 1) ⊖ y (n - 2)) ⊘ xstep) in
        back n ypn un (for_below (n - 2) round_ed (first_cell yp1 u0 y2))

  module _ (x y : ℕ → W) where
    abbrev round_ne : ℕ → Sweep W → Sweep W
    round_ne k (y2, u) =
        let i = k + 1 in
        let sig = (x i ⊖ x (i - 1)) ⊘ (x (i + 1) ⊖ x (i - 1)) in
        let p = sig ⊗ y2 (i - 1) ⊕ d.lit 2 1 in
        let slope = (y (i + 1) ⊖ y i) ⊘ (x (i + 1) ⊖ x i) ⊖ (y i ⊖ y (i - 1)) ⊘ (x i ⊖ x (i - 1)) in
        (
          put y2 i ((sig ⊖ d.lit 1 1) ⊘ p),
          put u i ((d.lit 6 1 ⊗ slope ⊘ (x (i + 1) ⊖ x (i - 1)) ⊖ sig ⊗ u (i - 1)) ⊘ p),
        )

    unfoldable pub spline_ne : (n : ℕ) (yp1 ypn : W) → (ℕ → W) → ℕ → W
    spline_ne n yp1 ypn y2 =
        let u0 = (d.lit 3 1 ⊘ (x 1 ⊖ x 0)) ⊗ ((y 1 ⊖ y 0) ⊘ (x 1 ⊖ x 0) ⊖ yp1) in
        let un =
          (d.lit 3 1 ⊘ (x (n - 1) ⊖ x (n - 2)))
          ⊗ (ypn ⊖ (y (n - 1) ⊖ y (n - 2)) ⊘ (x (n - 1) ⊖ x (n - 2))) in
        back n ypn un (for_below (n - 2) round_ne (first_cell yp1 u0 y2))
