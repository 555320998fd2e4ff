-- ===== src/ForcePair/Writes.antt =====
-- What the rounds of `calc_forces` leave as it is.
use potfit.Base.{
  ℕ, ◌+◌, ◌*◌, ◌≤◌, ◌<◌, ◌≡◌, refl, ◌∙◌, true, ◌&&◌, List, [], ◌∷◌, if◌then◌else◌, get_or, All,
  arith, Bool-cases, inl, inr, ◌⊎◌,
}
use potfit.Base.Double.{Double, zero_double, ◌⊕◌, ◌⊗◌}
use potfit.Base.Loop.{for_below, for_below-keeps}
use potfit.Splines.{PotTable}
use potfit.Config.{Vector, Neighbor, zero_slot}
use potfit.ForcePair.{
  System, State, put, add_to, add_vector, sub_vector, pair_stress, pair_term, neighbor_round,
  neighbor_loop, weighed, atom_round, energy_part, stress_round, config_round, reset_atom,
  reset_energy, reset_stress, force_squares,
}
use potfit.ForcePair.Cells.{
  put_far, picked, chosen, IsFree, IsAhead, add_vector-keeps, sub_vector-keeps, pair_stress-keeps,
}

module _ {W : Type 0} ⦃d : Double W⦄ where
  module _ (s : System W) (pt : PotTable W) (xi : ℕ → W) where
    module _ (low high conf k : ℕ) (free : IsFree s low high conf k) where
      pub neighbor_round-keeps :
          (own : ℕ) (n : Neighbor W) (f : ℕ → W)
          → low ≤ own
          → own < high
          → (low ≤ n.nr) × (n.nr < high)
          → neighbor_round s pt xi conf own n f k ≡ f k
      unfolding neighbor_round
      neighbor_round-keeps own n f lo hi (lo', hi') =
          let uf = s.useforce conf in
          let phi = pair_term s pt xi uf own n in
          let v : Vector W = record {
            x = n.dist_r.x ⊗ phi.1;
            y = n.dist_r.y ⊗ phi.1;
            z = n.dist_r.z ⊗ phi.1;
          } in
          let with_energy = add_to (s.energy_p + conf) phi.0 f in
          let added = add_vector s pt xi (3 * own) v with_energy in
          let with_forces = sub_vector s pt xi (3 * n.nr) v added in
          let energy : with_energy k ≡ f k = put_far f (s.energy_p + conf) k _ free.no_energy in
          let forces : with_forces k ≡ f k =
            sub_vector-keeps s pt xi (3 * n.nr) k v added (ground (arith, free.no_force))
            ∙ add_vector-keeps s pt xi (3 * own) k v with_energy (ground (arith, free.no_force))
            ∙ energy in
          picked (d.lt n.r (pt.end (get_or n.slots 0 zero_slot).col)) uf
            (s.stress && s.usestress conf) with_energy with_forces
            (pair_stress s pt xi (s.stress_p + 6 * conf) n.dist v with_forces) f k energy forces
            (λ both.
              pair_stress-keeps s pt xi (s.stress_p + 6 * conf) k n.dist v with_forces
                (free.no_stress (ground (arith, both)))
              ∙ forces)

      pub neighbor_loop-keeps :
          (own : ℕ) (neigh : List (Neighbor W)) (f : ℕ → W)
          → low ≤ own
          → own < high
          → All (λ n. (low ≤ n.nr) × (n.nr < high)) neigh
          → neighbor_loop s pt xi conf own neigh f k ≡ f k
      unfolding neighbor_loop
      neighbor_loop-keeps own [] f lo hi h = refl
      neighbor_loop-keeps own (n ∷ neigh) f lo hi (h, hs) =
          neighbor_loop-keeps own neigh (neighbor_round s pt xi conf own n f) lo hi hs
          ∙ neighbor_round-keeps own n f lo hi h

    weighed-keeps :
        (own k : ℕ) (f : ℕ → W) → (k < 3 * own) ⊎ (3 * own + 3 ≤ k) → weighed s pt xi own f k ≡ f k
    unfolding weighed
    weighed-keeps own k f h =
        put_far _ (3 * own + 2) k _ (ground (arith, h))
        ∙ put_far _ (3 * own + 1) k _ (ground (arith, h))
        ∙ put_far f (3 * own) k _ (ground (arith, h))

    reset_atom-keeps :
        (conf atom k : ℕ) (f : ℕ → W)
        → (k < 3 * (s.cnfstart conf + atom)) ⊎ (3 * (s.cnfstart conf + atom) + 3 ≤ k)
        → reset_atom s pt xi conf atom f k ≡ f k
    unfolding reset_atom
    reset_atom-keeps conf atom k f h =
        put_far _ (3 * (s.cnfstart conf + atom) + 2) k _ (ground (arith, h))
        ∙ put_far _ (3 * (s.cnfstart conf + atom) + 1) k _ (ground (arith, h))
        ∙ put_far f (3 * (s.cnfstart conf + atom)) k _ (ground (arith, h))

    reset_stress-keeps :
        (conf k : ℕ) (f : ℕ → W)
        → (s.stress ≡ true → (k < s.stress_p + 6 * conf) ⊎ (s.stress_p + 6 * conf + 6 ≤ k))
        → reset_stress s pt xi conf f k ≡ f k
    unfolding reset_stress
    reset_stress-keeps conf k f h = elim (Bool-cases s.stress) [
      | inl t ↦ rw t (
          for_below-keeps (λ (g : ℕ → W). g k ≡ f k) 6
            (λ i g. put g (s.stress_p + 6 * conf + i) zero_double) f refl
            (λ i g lt e. put_far g (s.stress_p + 6 * conf + i) k _ (ground (arith, h t)) ∙ e))
      | inr e ↦ rw e refl
    ]

    module _ (conf : ℕ) (ahead : IsAhead s conf) where
      -- The round of an atom writes no forces of the atoms before it.
      pub atom_round-keeps :
          (a k : ℕ) (t : State W)
          → a < s.inconf conf
          → IsFree s (s.cnfstart conf + a) (s.cnfstart conf + s.inconf conf) conf k
          → (atom_round s pt xi conf a t).forces k ≡ t.forces k
      unfolding atom_round
      atom_round-keeps a k t lt free =
          let own = s.cnfstart conf + a in
          let high = s.cnfstart conf + s.inconf conf in
          let f = neighbor_loop s pt xi conf own (s.atoms own).neigh t.forces in
          let plain : f k ≡ t.forces k =
            neighbor_loop-keeps own high conf k free own (s.atoms own).neigh t.forces (omega arith)
              (omega arith) (ahead a lt) in
          let weighed' : weighed s pt xi own f k ≡ t.forces k =
            weighed-keeps own k f (ground (arith, free.no_force)) ∙ plain in
          let g = if s.fweight then weighed s pt xi own f else f in
          chosen (s.useforce conf) s.fweight f (weighed s pt xi own f)
            (if (s.atoms own).contrib
              then t.error_sum ⊕ s.conf_weight conf ⊗ force_squares g (3 * own)
              else t.error_sum)
            t.error_sum k (t.forces k) plain weighed'

      abbrev pub IsOutside : ℕ → Type 0
      IsOutside k = IsFree s (s.cnfstart conf) (s.cnfstart conf + s.inconf conf) conf k

      -- A cell outside the configuration is outside what is left of it.
      later-IsFree :
          (a k : ℕ)
          → IsOutside k
          → IsFree s (s.cnfstart conf + a) (s.cnfstart conf + s.inconf conf) conf k
      later-IsFree a k free = record {
        no_force = ground (arith, free.no_force);
        no_energy = free.no_energy;
        no_stress = free.no_stress;
      }

      module _ (k : ℕ) (free : IsOutside k) where
        pub energy_part-keeps : (t : State W) → (energy_part s pt xi conf t).forces k ≡ t.forces k
        unfolding energy_part
        energy_part-keeps t =
            put_far _ (s.energy_p + conf) k _ free.no_energy
            ∙ put_far t.forces (s.energy_p + conf) k _ free.no_energy

        pub stress_round-keeps :
            (i : ℕ) (t : State W)
            → i < 6
            → s.stress ≡ true
            → (stress_round s pt xi conf i t).forces k ≡ t.forces k
        unfolding stress_round
        stress_round-keeps i t lt st =
            put_far _ (s.stress_p + 6 * conf + i) k _ (ground (arith, free.no_stress st))
            ∙ put_far t.forces (s.stress_p + 6 * conf + i) k _ (ground (arith, free.no_stress st))

        -- The round of a configuration writes only its forces, its energy and its stresses.
        pub config_round-keeps : (t : State W) → (config_round s pt xi conf t).forces k ≡ t.forces k
        unfolding config_round
        config_round-keeps t =
            let n = s.inconf conf in
            let start = s.cnfstart conf in
            let keeps : State W → Type 0 = λ u. u.forces k ≡ t.forces k in
            let cleared = reset_stress s pt xi conf (reset_energy s pt xi conf t.forces) in
            let reset = for_below n (reset_atom s pt xi conf) cleared in
            let u = for_below n (atom_round s pt xi conf) (record t { forces = reset }) in
            let v = energy_part s pt xi conf u in
            let cleared-keeps : cleared k ≡ t.forces k =
              reset_stress-keeps conf k _ free.no_stress
              ∙ put_far t.forces (s.energy_p + conf) k _ free.no_energy in
            let reset-keeps : reset k ≡ t.forces k =
              for_below-keeps (λ (g : ℕ → W). g k ≡ t.forces k) n (reset_atom s pt xi conf) cleared
                cleared-keeps
                (λ i g lt e. reset_atom-keeps conf i k g (ground (arith, free.no_force)) ∙ e) in
            let u-keeps : keeps u =
              for_below-keeps keeps n (atom_round s pt xi conf) (record t { forces = reset })
                reset-keeps (λ i w lt e. atom_round-keeps i k w lt (later-IsFree i k free) ∙ e) in
            let v-keeps : keeps v = energy_part-keeps u ∙ u-keeps in
            elim (Bool-cases (s.useforce conf && (s.stress && s.usestress conf))) [
              | inl all ↦ rw all (
                  for_below-keeps keeps 6 (stress_round s pt xi conf) v v-keeps
                    (λ i w lt e. stress_round-keeps i w lt (ground (arith, all)) ∙ e))
              | inr some ↦ rw some v-keeps
            ]
