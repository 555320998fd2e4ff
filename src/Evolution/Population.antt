-- ===== src/Evolution/Population.antt =====
-- The random start of the population, from `init_population` of diff_evo.c.
use potfit.Base.{ℕ, zero, suc, ◌≡◌, refl, ap, ◌∙◌, List, [], ◌∷◌, length, if◌then◌else◌, set}
use potfit.Base.Double.{Double, gt, zero_double, ◌⊕◌, ◌⊖◌, ◌⊗◌, ◌⊘◌}
use potfit.Base.Loop.{for_below}
use potfit.Optimizer.{Problem, World, cell, at}

-- The parameters, and the two last cells of the vector: the weight of a difference and the rate of
-- crossings.
pub record Individual (W : Type 0) : Type 0 where
  pub params : List W
  pub factor : W
  pub rate : W

module _ {W G : Type 0} ⦃d : Double W⦄ (world : World W G) (p : Problem W) where
  -- The first loop, with F_LOWER and F_UPPER.
  pub copies : ℕ → List W → G → List (Individual W) × G
  copies zero xi g = ([], g)
  copies (suc n) xi g =
      let (f, g1) = world.eqdist g in
      let (cr, g2) = world.eqdist g1 in
      let (rest, g3) = copies n xi g2 in
      (record { params = xi; factor = d.lit 1 10 ⊕ (f ⊗ d.lit 9 10); rate = cr } ∷ rest, g3)

  -- `if (fabs(temp) > 1) temp /= fabs(temp);`
  abbrev clipped : W → W
  clipped temp = if gt (d.fabs temp) (d.lit 1 1) then temp ⊘ d.fabs temp else temp

  -- A parameter on the way to an end of its range.
  abbrev towards : W → W → W → W → W
  towards val min max temp =
      if gt temp zero_double then val ⊕ (temp ⊗ (max ⊖ val)) else val ⊕ (temp ⊗ (val ⊖ min))

  -- The body of the loop over the parameters of an individual.
  pub scatter : List W → ℕ → List W × G → List W × G
  scatter xi j t =
      let val = at xi (cell p j) in
      let (n, g1) = world.normdist t.1 in
      let (r, g2) = world.eqdist t.1 in
      (
        set t.0 (cell p j) (
            if p.apot
            then towards val (at p.pmin j) (at p.pmax j) (clipped (n ⊘ d.lit 3 1))
            else (d.lit 10 1 ⊗ val) ⊗ ((d.lit 2 1 ⊗ r) ⊖ d.lit 1 1)),
        if p.apot then g1 else g2,
      )

  pub scatter_all : List W → List (Individual W) → G → List (Individual W) × G
  unfolding scatter
  scatter_all xi [] g = ([], g)
  scatter_all xi (x ∷ xs) g =
      let t = for_below p.ndim (scatter xi) (x.params, g) in
      let (rest, g') = scatter_all xi xs t.1 in (record x { params = t.0 } ∷ rest, g')

  -- All individuals but the first are scattered.
  pub random_from : List (Individual W) → List W → G → List (Individual W) × G
  unfolding scatter_all
  random_from [] xi g = ([], g)
  random_from (x ∷ xs) xi g = let (rest, g') = scatter_all xi xs g in (x ∷ rest, g')

  pub random_population : ℕ → List W → G → List (Individual W) × G
  unfolding copies random_from
  random_population n xi g = let (pop, g1) = copies n xi g in random_from pop xi g1

  length-copies : (n : ℕ) (xi : List W) (g : G) → length (copies n xi g).0 ≡ n
  unfolding copies
  length-copies zero xi g = refl
  length-copies (suc n) xi g = ap suc (length-copies n xi (world.eqdist (world.eqdist g).1).1)

  length-scatter_all :
      (xi : List W) (xs : List (Individual W)) (g : G) → length (scatter_all xi xs g).0 ≡ length xs
  unfolding scatter_all
  length-scatter_all xi [] g = refl
  length-scatter_all xi (x ∷ xs) g =
      ap suc (length-scatter_all xi xs (for_below p.ndim (scatter xi) (x.params, g)).1)

  -- The loop over all individuals but the first.
  length-random_from :
      (n : ℕ) (pop : List (Individual W)) (xi : List W) (g : G)
      → length pop ≡ n
      → length (random_from pop xi g).0 ≡ n
  unfolding random_from
  length-random_from n [] xi g h = h
  length-random_from n (x ∷ xs) xi g h = ap suc (length-scatter_all xi xs g) ∙ h

  pub length-random_population :
      (n : ℕ) (xi : List W) (g : G) → length (random_population n xi g).0 ≡ n
  unfolding random_population
  length-random_population n xi g =
      length-random_from n (copies n xi g).0 xi (copies n xi g).1 (length-copies n xi g)
