-- ===== src/ForcePair.antt =====
-- `calc_forces` of force_pair.c in binaries for tables without MPI, with `update_splines` of
-- force_common.c: the forces, energies and stresses of all configurations, and the weighted sum of
-- squares. The force vector and the arrays of `g_config` are functions of the index.
pub mod Cells
pub mod Writes
pub mod Terms
pub mod Total
pub mod Value
pub mod Setup
mod Examples
use potfit.Base.{
  ℕ, zero, suc, ◌+◌, ◌-◌, ◌*◌, Bool, true, false, not, ◌&&◌, List, [], ◌∷◌, if◌then◌else◌, leb, ltb,
  ◌==◌, get_or, Outcome, ok, exit, ◌>>=◌,
}
use potfit.Base.Double.{Double, zero_double, ◌⊕◌, ◌⊖◌, ◌⊗◌, ◌⊘◌}
use potfit.Base.Loop.{for_below}
use potfit.PotentialHeader.{
  Format, analytic, tabulated_eq_dist, tabulated_non_eq_dist, kim, unknown,
}
use potfit.Splines.{PotTable, splint_dir, splint_comb_dir}
use potfit.Splines.Second.{spline_ed, spline_ne}
use potfit.Config.{Vector, Neighbor, Slot, zero_slot}

-- What the routine reads of an atom.
pub record Atom (W : Type 0) : Type 0 where
  pub neigh : List (Neighbor W)
  pub absforce : W
  pub contrib : Bool

-- What it reads of the globals, with the flags of the binary.
pub record System (W : Type 0) : Type 0 where
  pub stress : Bool
  pub fweight : Bool
  pub nconf : ℕ
  pub inconf : ℕ → ℕ
  pub cnfstart : ℕ → ℕ
  pub useforce : ℕ → Bool
  pub usestress : ℕ → Bool
  pub conf_weight : ℕ → W
  pub volume : ℕ → W
  pub atoms : ℕ → Atom W
  pub force_0 : ℕ → W
  pub energy_p : ℕ
  pub stress_p : ℕ
  pub eweight : W
  pub sweight : W

pub data Failure : Type 0 where
  unknown_format : Failure
  kim_format : Failure

-- `forces` and `error_sum`.
pub record State (W : Type 0) : Type 0 where
  pub forces : ℕ → W
  pub error_sum : W

module _ {W : Type 0} ⦃d : Double W⦄ where
  unfoldable pub put : (ℕ → W) → ℕ → W → ℕ → W
  put f k v i = if i == k then v else f i

  abbrev pub add_to : ℕ → W → (ℕ → W) → ℕ → W
  add_to k v f = put f k (f k ⊕ v)

  abbrev pub sub_from : ℕ → W → (ℕ → W) → ℕ → W
  sub_from k v f = put f k (f k ⊖ v)

  -- The second derivatives of a column, in the cells from `first` on.
  abbrev pub in_column : PotTable W → (col : ℕ) → ((ℕ → W) → ℕ → W) → PotTable W
  in_column pt col sweep =
      let first = pt.first col in
      let y2 = sweep (λ i. pt.d2tab (first + i)) in
      record pt {
        d2tab = λ i. if leb first i && leb i (pt.last col) then y2 (i - first) else pt.d2tab i;
      }

  -- A round of `update_splines`, for a `grad_flag` of 1.
  pub update_column : Format → (ℕ → W) → ℕ → PotTable W → Outcome Failure (PotTable W)
  unfolding spline_ed spline_ne
  update_column format xi col pt =
      let first = pt.first col in
      let y : ℕ → W = λ i. xi (first + i) in
      let n = pt.last col + 1 - first in
      let equidistant : Outcome Failure (PotTable W) =
        ok (in_column pt col (spline_ed (pt.step col) y n (xi (first - 2)) zero_double)) in
      elim format [
        | analytic ↦ equidistant
        | tabulated_eq_dist ↦ equidistant
        | tabulated_non_eq_dist ↦ ok (
            in_column pt col
              (spline_ne (λ i. pt.xcoord (first + i)) y n (xi (first - 2)) zero_double))
        | kim ↦ ok pt
        | unknown ↦ exit unknown_format
      ]

  pub update_splines :
      Format → (ℕ → W) → (start_col num_col : ℕ) → PotTable W → Outcome Failure (PotTable W)
  unfolding update_column
  update_splines format xi start_col zero pt = ok pt
  update_splines format xi start_col (suc left) pt =
      update_column format xi start_col pt >>= update_splines format xi (start_col + 1) left

  abbrev pub square : W → W
  square a = a ⊗ a

  -- The squares of the three components of a force.
  abbrev pub force_squares : (ℕ → W) → ℕ → W
  force_squares f k = (square (f k) ⊕ square (f (k + 1))) ⊕ square (f (k + 2))

  module _ (s : System W) (pt : PotTable W) (xi : ℕ → W) where
    -- The loop that resets the forces of an atom.
    pub reset_atom : (conf : ℕ) → ℕ → (ℕ → W) → ℕ → W
    reset_atom conf atom f =
        let n_i = 3 * (s.cnfstart conf + atom) in
        let start : ℕ → W = λ k. if s.useforce conf then d.neg (s.force_0 k) else zero_double in
        put (put (put f n_i (start n_i)) (n_i + 1) (start (n_i + 1))) (n_i + 2) (start (n_i + 2))

    abbrev pub reset_energy : ℕ → (ℕ → W) → ℕ → W
    reset_energy conf f = put f (s.energy_p + conf) zero_double

    pub reset_stress : ℕ → (ℕ → W) → ℕ → W
    reset_stress conf f =
        if s.stress then for_below 6 (λ i g. put g (s.stress_p + 6 * conf + i) zero_double) f else f

    -- Value and gradient at the slot of a neighbor, halved for an atom that meets itself.
    pub pair_term : Bool → (own : ℕ) → Neighbor W → W × W
    pair_term uf own n =
        let at = get_or n.slots 0 zero_slot in
        let (phi_val, phi_grad) =
          if uf
          then splint_comb_dir pt xi at.slot at.shift at.step
          else (splint_dir pt xi at.slot at.shift at.step, zero_double) in
        if n.nr == own then (phi_val ⊗ d.lit 1 2, phi_grad ⊗ d.lit 1 2) else (phi_val, phi_grad)

    -- The three components of a force, at the cells from `k` on.
    pub add_vector : ℕ → Vector W → (ℕ → W) → ℕ → W
    add_vector k v f = add_to (k + 2) v.z (add_to (k + 1) v.y (add_to k v.x f))

    pub sub_vector : ℕ → Vector W → (ℕ → W) → ℕ → W
    sub_vector k v f = sub_from (k + 2) v.z (sub_from (k + 1) v.y (sub_from k v.x f))

    pub pair_stress : ℕ → Vector W → Vector W → (ℕ → W) → ℕ → W
    pair_stress k r v f = sub_from (k + 5) (r.z ⊗ v.x) (
        sub_from (k + 4) (r.y ⊗ v.z) (
          sub_from (k + 3) (r.x ⊗ v.y) (
            sub_from (k + 2) (r.z ⊗ v.z)
              (sub_from (k + 1) (r.y ⊗ v.y) (sub_from k (r.x ⊗ v.x) f)))))

    -- The body of the loop over the neighbors of the atom `own`.
    pub neighbor_round : (conf own : ℕ) → Neighbor W → (ℕ → W) → ℕ → W
    unfolding pair_term add_vector sub_vector pair_stress
    neighbor_round conf own n f =
        let uf = s.useforce conf in
        let (phi_val, phi_grad) = pair_term uf own n in
        let tmp_force : Vector W = record {
          x = n.dist_r.x ⊗ phi_grad;
          y = n.dist_r.y ⊗ phi_grad;
          z = n.dist_r.z ⊗ phi_grad;
        } in
        let with_energy = add_to (s.energy_p + conf) phi_val f in
        let with_forces =
          sub_vector (3 * n.nr) tmp_force (add_vector (3 * own) tmp_force with_energy) in
        let with_stress = pair_stress (s.stress_p + 6 * conf) n.dist tmp_force with_forces in
        if d.lt n.r (pt.end (get_or n.slots 0 zero_slot).col)
        then (if uf
            then (if s.stress && s.usestress conf then with_stress else with_forces)
            else with_energy)
        else f

    pub neighbor_loop : (conf own : ℕ) → List (Neighbor W) → (ℕ → W) → ℕ → W
    unfolding neighbor_round
    neighbor_loop conf own [] f = f
    neighbor_loop conf own (n ∷ neigh) f =
        neighbor_loop conf own neigh (neighbor_round conf own n f)

    pub weighed : ℕ → (ℕ → W) → ℕ → W
    weighed own f =
        let n_i = 3 * own in
        let weight = d.lit 1 10 ⊕ (s.atoms own).absforce in
        let divide : ℕ → (ℕ → W) → ℕ → W = λ k g. put g k (g k ⊘ weight) in
        divide (n_i + 2) (divide (n_i + 1) (divide n_i f))

    -- The body of the second loop over the atoms of a configuration.
    pub atom_round : (conf atom : ℕ) → State W → State W
    atom_round conf atom t =
        let own = s.cnfstart conf + atom in
        let f = neighbor_loop conf own (s.atoms own).neigh t.forces in
        let g = if s.fweight then weighed own f else f in
        if s.useforce conf
        then record {
          forces = g;
          error_sum =
              if (s.atoms own).contrib
              then t.error_sum ⊕ s.conf_weight conf ⊗ force_squares g (3 * own)
              else t.error_sum;
        }
        else record { forces = f; error_sum = t.error_sum }

    pub energy_part : ℕ → State W → State W
    energy_part conf t =
        let k = s.energy_p + conf in
        let mean = put t.forces k (t.forces k ⊘ d.lit (s.inconf conf) 1) in
        let f = put mean k (mean k ⊖ s.force_0 k) in
        record {
          forces = f;
          error_sum = t.error_sum ⊕ (s.conf_weight conf ⊗ s.eweight) ⊗ square (f k);
        }

    pub stress_round : (conf i : ℕ) → State W → State W
    stress_round conf i t =
        let k = s.stress_p + 6 * conf + i in
        let scaled = put t.forces k (t.forces k ⊘ s.volume conf) in
        let f = put scaled k (scaled k ⊖ s.force_0 k) in
        record {
          forces = f;
          error_sum = t.error_sum ⊕ (s.conf_weight conf ⊗ s.sweight) ⊗ square (f k);
        }

    -- The body of the loop over the configurations.
    pub config_round : ℕ → State W → State W
    config_round conf t =
        let reset =
          for_below (s.inconf conf) (reset_atom conf)
            (reset_stress conf (reset_energy conf t.forces)) in
        let forces_done =
          for_below (s.inconf conf) (atom_round conf) (record t { forces = reset }) in
        let energy_done = energy_part conf forces_done in
        if s.useforce conf && (s.stress && s.usestress conf)
        then for_below 6 (stress_round conf) energy_done
        else energy_done

  -- `isnan` is the macro of math.h, `calc_table` the array `g_pot.calc_pot.table`.
  pub calc_forces :
      (W → Bool)
      → System W
      → Format
      → (paircol : ℕ) → PotTable W
      → (calc_table xi_opt forces : ℕ → W) → Outcome Failure (W × (ℕ → W))
  unfolding update_splines config_round
  calc_forces isnan s format paircol pt calc_table xi_opt forces =
      let run : (ℕ → W) → PotTable W → State W = λ xi pt'.
        for_below s.nconf (config_round s pt' xi)
          (record { forces = forces; error_sum = zero_double }) in
      let result : State W → W × (ℕ → W) =
        λ t. (if isnan t.error_sum then d.lit 100000000000 1 else t.error_sum, t.forces) in
      let with_table : (ℕ → W) → Outcome Failure (W × (ℕ → W)) =
        λ xi. update_splines format xi 0 paircol pt >>= (λ pt'. ok (result (run xi pt'))) in
      elim format [
        | tabulated_eq_dist ↦ with_table xi_opt
        | tabulated_non_eq_dist ↦ with_table xi_opt
        | analytic ↦ with_table calc_table
        | kim ↦ exit kim_format
        | unknown ↦ exit unknown_format
      ]
