-- ===== src/ForcePair/Total.antt =====
-- What `calc_forces` returns is the weighted sum of squares of the force vector that it leaves behind.
use potfit.Base.{
  ℕ, ◌+◌, ◌*◌, ◌≤◌, ◌<◌, ◌≡◌, refl, sym, ap, ◌∙◌, Bool, true, false, ◌&&◌, if◌then◌else◌, arith,
  Bool-cases, inl, inr, ◌⊎◌,
}
use potfit.Base.Double.{Double, zero_double}
use potfit.Base.Loop.{for_below, for_below-counts, for_below_ext}
use potfit.Splines.{PotTable}
use potfit.ForcePair.{
  System, State, atom_round, energy_part, stress_round, config_round, reset_atom, reset_energy,
  reset_stress,
}
use potfit.ForcePair.Cells.{IsFree, put_far}
use potfit.ForcePair.Writes.{IsOutside, atom_round-keeps, config_round-keeps}
use potfit.ForcePair.Terms.{
  force_error, energy_error, stress_error, config_error, total, IsLaid, force_error_same,
}

tested :
    {W : Type 0} (b : Bool) (v w : State W) (e s : (ℕ → W) → W)
    → v.error_sum ≡ e v.forces
    → (b ≡ true → w.error_sum ≡ s w.forces)
    → let x = if b then w else v in x.error_sum ≡ (if b then s x.forces else e x.forces)
tested true v w e s h h' = h' refl
tested false v w e s h h' = h

either :
    {W : Type 0} (b : Bool) {e e' s s' : W}
    → e ≡ e'
    → (b ≡ true → s ≡ s')
    → (if b then s else e) ≡ (if b then s' else e')
either true h h' = h' refl
either false h h' = h

module _ {W : Type 0} ⦃d : Double W⦄ (s : System W) where
  module _ (pt : PotTable W) (xi : ℕ → W) where
    module _ (laid : IsLaid s) (conf : ℕ) (lt : conf < s.nconf) where
      -- A cell of the forces in front of some atom.
      before-IsFree :
          (a k : ℕ)
          → a ≤ s.inconf conf
          → k < 3 * (s.cnfstart conf + a)
          → IsFree s (s.cnfstart conf + a) (s.cnfstart conf + s.inconf conf) conf k
      before-IsFree a k la h =
          let inside = laid.inside conf lt in
          record {
            no_force = inl h;
            no_energy = inl (omega arith);
            no_stress = λ st. inl (omega (arith, laid.stresses st));
          }

      own_term :
          (a : ℕ) (u : State W)
          → (atom_round s pt xi conf a u).error_sum
            ≡ force_error s (atom_round s pt xi conf a u).forces conf a u.error_sum
      unfolding atom_round
      own_term a u = elim (Bool-cases (s.useforce conf)) [
        | inl uf ↦ rw uf refl
        | inr uf ↦ rw uf refl
      ]

      -- The sum over the atoms, behind the second loop.
      atoms_error :
          (t : State W)
          → (for_below (s.inconf conf) (atom_round s pt xi conf) t).error_sum
            ≡ for_below
                (s.inconf conf)
                (force_error s (for_below (s.inconf conf) (atom_round s pt xi conf) t).forces conf)
                t.error_sum
      atoms_error t =
          for_below-counts
            (λ a (u : State W). u.error_sum ≡ for_below a (force_error s u.forces conf) t.error_sum)
            (s.inconf conf) (atom_round s pt xi conf) t refl
            (λ a u la e.
              let f = (atom_round s pt xi conf a u).forces in
              own_term a u
              ∙ ap (force_error s f conf a) (
                  e
                  ∙ for_below_ext a (force_error s u.forces conf) (force_error s f conf) t.error_sum
                      (λ i acc lai. force_error_same s u.forces f conf i acc (λ k lo hi. sym (
                        atom_round-keeps s pt xi conf (laid.ahead conf lt) a k u la
                          (before-IsFree a k (omega arith) (omega arith)))))))

      -- The sum over the atoms reads no energies and no stresses.
      forces_same :
          (f g : ℕ → W) (acc : W)
          → ((k : ℕ) → k < s.energy_p → f k ≡ g k)
          → for_below (s.inconf conf) (force_error s f conf) acc
            ≡ for_below (s.inconf conf) (force_error s g conf) acc
      forces_same f g acc h =
          let inside = laid.inside conf lt in
          for_below_ext (s.inconf conf) (force_error s f conf) (force_error s g conf) acc
            (λ i a la. force_error_same s f g conf i a (λ k lo hi. h k (omega arith)))

      energy_keeps :
          (u : State W) (k : ℕ)
          → (k < s.energy_p + conf) ⊎ (s.energy_p + conf < k)
          → (energy_part s pt xi conf u).forces k ≡ u.forces k
      unfolding energy_part
      energy_keeps u k h =
          put_far _ (s.energy_p + conf) k _ h ∙ put_far u.forces (s.energy_p + conf) k _ h

      stress_keeps :
          (i k : ℕ) (u : State W)
          → (k < s.stress_p + 6 * conf + i) ⊎ (s.stress_p + 6 * conf + i < k)
          → (stress_round s pt xi conf i u).forces k ≡ u.forces k
      unfolding stress_round
      stress_keeps i k u h =
          put_far _ (s.stress_p + 6 * conf + i) k _ h
          ∙ put_far u.forces (s.stress_p + 6 * conf + i) k _ h

      -- Atoms and energy, behind the energy.
      energy_total :
          (u : State W) (acc : W)
          → u.error_sum ≡ for_below (s.inconf conf) (force_error s u.forces conf) acc
          → let v = energy_part s pt xi conf u in
            v.error_sum
            ≡ energy_error s v.forces conf
                (for_below (s.inconf conf) (force_error s v.forces conf) acc)
      energy_total u acc e =
          let v = energy_part s pt xi conf u in
          let own : v.error_sum ≡ energy_error s v.forces conf u.error_sum =
            unfold energy_part in refl in
          own
          ∙ ap (energy_error s v.forces conf) (
              e
              ∙ forces_same u.forces v.forces acc
                  (λ k h. sym (energy_keeps u k (inl (omega arith)))))

      energy_error_same :
          (f g : ℕ → W) (a b : W)
          → f (s.energy_p + conf) ≡ g (s.energy_p + conf)
          → a ≡ b
          → energy_error s f conf a ≡ energy_error s g conf b
      energy_error_same f g a b h e = rw (h, e) refl

      stress_error_same :
          (f g : ℕ → W) (i : ℕ) (a : W)
          → f (s.stress_p + 6 * conf + i) ≡ g (s.stress_p + 6 * conf + i)
          → stress_error s f conf i a ≡ stress_error s g conf i a
      stress_error_same f g i a h = rw h refl

      -- All terms of the configuration, behind its stresses.
      stress_total :
          (v : State W) (acc : W)
          → s.stress ≡ true
          → v.error_sum
            ≡ energy_error s v.forces conf
                (for_below (s.inconf conf) (force_error s v.forces conf) acc)
          → let w = for_below 6 (stress_round s pt xi conf) v in
            w.error_sum
            ≡ for_below 6 (stress_error s w.forces conf) (
                energy_error s w.forces conf
                  (for_below (s.inconf conf) (force_error s w.forces conf) acc))
      stress_total v acc st e =
          for_below-counts
            (λ i (w : State W).
              w.error_sum
              ≡ for_below i (stress_error s w.forces conf) (
                  energy_error s w.forces conf
                    (for_below (s.inconf conf) (force_error s w.forces conf) acc)))
            6 (stress_round s pt xi conf) v e
            (λ i w li e'.
              let g = (stress_round s pt xi conf i w).forces in
              let far : (k : ℕ) → k < s.stress_p → w.forces k ≡ g k =
                λ k h. sym (stress_keeps i k w (inl (omega arith))) in
              let behind = laid.stresses st in
              let own : (stress_round s pt xi conf i w).error_sum
                  ≡ stress_error s g conf i w.error_sum =
                unfold stress_round in refl in
              own
              ∙ ap (stress_error s g conf i) (
                  e'
                  ∙ for_below_ext i (stress_error s w.forces conf) (stress_error s g conf) _
                      (λ j a lji.
                        stress_error_same w.forces g j a
                          (sym (stress_keeps i (s.stress_p + 6 * conf + j) w (inl (omega arith)))))
                  ∙ ap (for_below i (stress_error s g conf)) (
                      energy_error_same w.forces g _ _ (far (s.energy_p + conf) (omega arith))
                        (forces_same w.forces g acc (λ k h. far k (omega arith))))))

      config_total :
          (t : State W)
          → (config_round s pt xi conf t).error_sum
            ≡ config_error s (config_round s pt xi conf t).forces conf t.error_sum
      unfolding config_round config_error
      config_total t =
          let n = s.inconf conf in
          let reset =
            for_below n (reset_atom s pt xi conf)
              (reset_stress s pt xi conf (reset_energy s pt xi conf t.forces)) in
          let u = for_below n (atom_round s pt xi conf) (record t { forces = reset }) in
          let v = energy_part s pt xi conf u in
          let atoms = atoms_error (record t { forces = reset }) in
          let energy = energy_total u t.error_sum atoms in
          tested (s.useforce conf && (s.stress && s.usestress conf)) v
            (for_below 6 (stress_round s pt xi conf) v)
            (λ f. energy_error s f conf (for_below n (force_error s f conf) t.error_sum))
            (λ f.
              for_below 6 (stress_error s f conf)
                (energy_error s f conf (for_below n (force_error s f conf) t.error_sum)))
            energy (λ all. stress_total v t.error_sum (ground (arith, all)) energy)

    -- A term of an earlier configuration does not see the round of a later one.
    config_error_same :
        (laid : IsLaid s) (i conf : ℕ) (t : State W) (acc : W)
        → i < conf
        → conf < s.nconf
        → config_error s t.forces i acc ≡ config_error s (config_round s pt xi conf t).forces i acc
    unfolding config_error
    config_error_same laid i conf t acc h lt =
        let f = t.forces in
        let g = (config_round s pt xi conf t).forces in
        let lti : i < s.nconf = omega arith in
        let behind = laid.behind i conf h lt in
        let inside = laid.inside conf lt in
        let same : (k : ℕ) → IsOutside s pt xi conf (laid.ahead conf lt) k → f k ≡ g k =
          λ k free. sym (config_round-keeps s pt xi conf (laid.ahead conf lt) k free t) in
        let forces =
          for_below_ext (s.inconf i) (force_error s f i) (force_error s g i) acc (λ a b la.
            force_error_same s f g i a b (λ k lo hi. same k (record {
              no_force = inl (omega arith);
              no_energy = inl (omega arith);
              no_stress = λ st. inl (omega (arith, laid.stresses st));
            }))) in
        let energy =
          energy_error_same laid i lti f g _ _
            (same (s.energy_p + i) (record {
              no_force = inr (omega arith);
              no_energy = inl (omega arith);
              no_stress = λ st. inl (omega (arith, laid.stresses st));
            }))
            forces in
        either (s.useforce i && (s.stress && s.usestress i)) energy (λ all.
          let behind_energy = laid.stresses (ground (arith, all)) in
          for_below_ext 6 (stress_error s f i) (stress_error s g i) _ (λ j b lj.
            stress_error_same laid i lti f g j b (
              same (s.stress_p + 6 * i + j) (record {
                no_force = inr (omega arith);
                no_energy = inr (omega arith);
                no_stress = λ st. inl (omega arith);
              })))
          ∙ ap (for_below 6 (stress_error s g i)) energy)

    -- If the configurations lie one behind the other and their neighbor lists are half lists: where
    -- `calc_forces` returns a value that is no NaN, this is the weighted sum of squares of the force vector
    -- that it leaves behind.
    pub rounds-total :
        IsLaid s
        → (t : State W) → t.error_sum ≡ zero_double
        → (for_below s.nconf (config_round s pt xi) t).error_sum
          ≡ total s (for_below s.nconf (config_round s pt xi) t).forces
    unfolding total
    rounds-total laid t e =
        for_below-counts
          (λ c (u : State W). u.error_sum ≡ for_below c (config_error s u.forces) zero_double)
          s.nconf (config_round s pt xi) t e
          (λ c u lc e'.
            let f = (config_round s pt xi c u).forces in
            config_total laid c lc u
            ∙ ap (config_error s f c) (
                e'
                ∙ for_below_ext c (config_error s u.forces) (config_error s f) zero_double
                    (λ i acc lic. config_error_same laid i c u acc lic lc)))
