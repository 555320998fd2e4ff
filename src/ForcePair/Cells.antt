-- ===== src/ForcePair/Cells.antt =====
-- The cells of the force vector that the routines of `calc_forces` write.
use potfit.Base.{
  ℕ, ◌+◌, ◌*◌, ◌≤◌, ◌<◌, ◌≡◌, refl, ◌∙◌, Bool, true, false, if◌then◌else◌, All, arith, ◌⊎◌,
}
use potfit.Base.Double.{Double}
use potfit.Splines.{PotTable}
use potfit.Config.{Vector, Neighbor}
use potfit.ForcePair.{System, State, put, add_to, sub_from, add_vector, sub_vector, pair_stress}

module _ {W : Type 0} ⦃d : Double W⦄ where
  pub put_far : (f : ℕ → W) (j k : ℕ) (v : W) → (k < j) ⊎ (j < k) → put f j v k ≡ f k
  unfolding put
  put_far f j k v h = ground arith

  pub put_near : (f : ℕ → W) (j : ℕ) (v : W) → put f j v j ≡ v
  unfolding put
  put_near f j v = ground arith

  pub picked :
      (t u v : Bool) (a b c f : ℕ → W) (k : ℕ)
      → a k ≡ f k
      → b k ≡ f k
      → (v ≡ true → c k ≡ f k)
      → (if t then (if u then (if v then c else b) else a) else f) k ≡ f k
  picked true true true a b c f k h h' h'' = h'' refl
  picked true true false a b c f k h h' h'' = h'
  picked true false v a b c f k h h' h'' = h
  picked false u v a b c f k h h' h'' = refl

  pub chosen :
      (u w : Bool) (f g : ℕ → W) (a b : W) (k : ℕ) (x : W)
      → f k ≡ x
      → g k ≡ x
      → (if◌then◌else◌ {A = State W} u
            (record { forces = if w then g else f; error_sum = a })
            (record { forces = f; error_sum = b })).forces
          k
        ≡ x
  chosen true true f g a b k x h h' = h'
  chosen true false f g a b k x h h' = h
  chosen false w f g a b k x h h' = h

  module _ (s : System W) where
    -- A cell that belongs neither to the atoms from `low` up to `high`, nor to the energy or the
    -- stresses of a configuration.
    pub record IsFree (low high conf k : ℕ) : Type 0 where
      pub no_force : (k < 3 * low) ⊎ (3 * high ≤ k)
      pub no_energy : (k < s.energy_p + conf) ⊎ (s.energy_p + conf < k)
      pub no_stress :
          s.stress ≡ true → (k < s.stress_p + 6 * conf) ⊎ (s.stress_p + 6 * conf + 6 ≤ k)

    -- The neighbors of the atoms of a configuration are themselves or later atoms of it.
    abbrev pub IsAhead : ℕ → Type 0
    IsAhead conf =
        (a : ℕ)
        → a < s.inconf conf
        → All
            (λ (n : Neighbor W).
              (s.cnfstart conf + a ≤ n.nr) × (n.nr < s.cnfstart conf + s.inconf conf))
            (s.atoms (s.cnfstart conf + a)).neigh

  module _ (s : System W) (pt : PotTable W) (xi : ℕ → W) where
    pub add_vector-keeps :
        (j k : ℕ) (v : Vector W) (f : ℕ → W)
        → (k < j) ⊎ (j + 3 ≤ k)
        → add_vector s pt xi j v f k ≡ f k
    unfolding add_vector
    add_vector-keeps j k v f h =
        put_far (add_to (j + 1) v.y (add_to j v.x f)) (j + 2) k _ (ground (arith, h))
        ∙ put_far (add_to j v.x f) (j + 1) k _ (ground (arith, h))
        ∙ put_far f j k _ (ground (arith, h))

    pub sub_vector-keeps :
        (j k : ℕ) (v : Vector W) (f : ℕ → W)
        → (k < j) ⊎ (j + 3 ≤ k)
        → sub_vector s pt xi j v f k ≡ f k
    unfolding sub_vector
    sub_vector-keeps j k v f h =
        put_far (sub_from (j + 1) v.y (sub_from j v.x f)) (j + 2) k _ (ground (arith, h))
        ∙ put_far (sub_from j v.x f) (j + 1) k _ (ground (arith, h))
        ∙ put_far f j k _ (ground (arith, h))

    pub pair_stress-keeps :
        (j k : ℕ) (r v : Vector W) (f : ℕ → W)
        → (k < j) ⊎ (j + 6 ≤ k)
        → pair_stress s pt xi j r v f k ≡ f k
    unfolding pair_stress
    pair_stress-keeps j k r v f h =
        put_far _ (j + 5) k _ (ground (arith, h))
        ∙ put_far _ (j + 4) k _ (ground (arith, h))
        ∙ put_far _ (j + 3) k _ (ground (arith, h))
        ∙ put_far _ (j + 2) k _ (ground (arith, h))
        ∙ put_far _ (j + 1) k _ (ground (arith, h))
        ∙ put_far f j k _ (ground (arith, h))
