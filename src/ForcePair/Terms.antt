-- ===== src/ForcePair/Terms.antt =====
-- The weighted sum of squares of a force vector, and where its cells have to lie.
use potfit.Base.{ℕ, ◌+◌, ◌*◌, ◌≤◌, ◌<◌, ◌≡◌, refl, true, ◌&&◌, if◌then◌else◌, arith}
use potfit.Base.Double.{Double, zero_double, ◌⊕◌, ◌⊗◌}
use potfit.Base.Loop.{for_below}
use potfit.ForcePair.{System, force_squares, square}
use potfit.ForcePair.Cells.{IsAhead}

module _ {W : Type 0} ⦃d : Double W⦄ (s : System W) where
  -- The terms of the sum for the force of an atom, the energy and a stress of a configuration.
  abbrev pub force_error : (ℕ → W) → (conf atom : ℕ) → W → W
  force_error f conf atom acc =
      let own = s.cnfstart conf + atom in
      if s.useforce conf && (s.atoms own).contrib
      then acc ⊕ s.conf_weight conf ⊗ force_squares f (3 * own)
      else acc

  abbrev pub energy_error : (ℕ → W) → ℕ → W → W
  energy_error f conf acc = acc ⊕ (s.conf_weight conf ⊗ s.eweight) ⊗ square (f (s.energy_p + conf))

  abbrev pub stress_error : (ℕ → W) → (conf i : ℕ) → W → W
  stress_error f conf i acc =
      acc ⊕ (s.conf_weight conf ⊗ s.sweight) ⊗ square (f (s.stress_p + 6 * conf + i))

  unfoldable pub config_error : (ℕ → W) → ℕ → W → W
  config_error f conf acc =
      let forces = for_below (s.inconf conf) (force_error f conf) acc in
      let energy = energy_error f conf forces in
      if s.useforce conf && (s.stress && s.usestress conf)
      then for_below 6 (stress_error f conf) energy
      else energy

  -- The weighted sum of squares of a force vector.
  unfoldable pub total : (ℕ → W) → W
  unfolding config_error
  total f = for_below s.nconf (config_error f) zero_double

  -- The configurations lie one behind the other in front of the energies, the stresses behind these,
  -- and the neighbor lists are half lists.
  pub record IsLaid : Type 0 where
    pub behind : (i j : ℕ) → i < j → j < s.nconf → s.cnfstart i + s.inconf i ≤ s.cnfstart j
    pub inside : (i : ℕ) → i < s.nconf → 3 * (s.cnfstart i + s.inconf i) ≤ s.energy_p
    pub stresses : s.stress ≡ true → s.energy_p + s.nconf ≤ s.stress_p
    pub ahead : (i : ℕ) → i < s.nconf → IsAhead s i

  -- The terms read the force vector only at their own cells.
  pub force_error_same :
      (f g : ℕ → W) (conf atom : ℕ) (acc : W)
      → ((k : ℕ)
          → 3 * (s.cnfstart conf + atom) ≤ k
          → k < 3 * (s.cnfstart conf + atom) + 3
          → f k ≡ g k)
      → force_error f conf atom acc ≡ force_error g conf atom acc
  force_error_same f g conf atom acc h =
      let n_i = 3 * (s.cnfstart conf + atom) in
      rw
        (
          h n_i (omega arith) (omega arith),
          h (n_i + 1) (omega arith) (omega arith),
          h (n_i + 2) (omega arith) (omega arith),
        )
        refl
