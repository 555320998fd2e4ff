-- ===== src/ForceVector.antt =====
-- The layout of the force vector: `set_force_vector_pointers` of force_common.c assigns the starting
-- positions, and `read_config` of config.c the length `mdim`.
mod Sections
mod Examples
use potfit.Base.{ℕ, ◌+◌, ◌-◌, ◌*◌, if◌then◌else◌}
use potfit.Build.{Build, embedded}

-- The counts that both read from the globals.
pub record Sizes : Type 0 where
  pub natoms : ℕ
  pub nconf : ℕ
  pub ntypes : ℕ
  -- `g_pot.opt_pot.idxlen`, and three counts of `g_pot.apot_table`
  pub idxlen : ℕ
  pub number : ℕ
  pub total_par : ℕ
  pub invar_pots : ℕ

-- The positions in `g_calc`; one that the binary does not use keeps the 0 of `memset`.
pub record Pointers : Type 0 where
  pub energy_p : ℕ
  pub stress_p : ℕ
  pub limit_p : ℕ
  pub dummy_p : ℕ
  pub punish_par_p : ℕ
  pub punish_pot_p : ℕ

-- Where the values behind the stresses, or behind the energies, begin.
after_stress : Build → Sizes → ℕ
after_stress b s =
    let energy_p = 3 * s.natoms in
    if b.stress then energy_p + s.nconf + 6 * s.nconf else energy_p + s.nconf

unfoldable pub set_force_vector_pointers : Build → Sizes → Pointers
unfolding after_stress
set_force_vector_pointers b s =
    let energy_p = 3 * s.natoms in
    let limit_p = if embedded b then after_stress b s else 0 in
    let dummy_p = if embedded b then limit_p + s.nconf else 0 in
    let punish_par_p =
      if b.apot then (if embedded b then dummy_p + 2 * s.ntypes else after_stress b s) else 0 in
    record {
      energy_p = energy_p;
      stress_p = if b.stress then energy_p + s.nconf else 0;
      limit_p = limit_p;
      dummy_p = dummy_p;
      punish_par_p = punish_par_p;
      punish_pot_p = if b.apot then punish_par_p + s.total_par - s.invar_pots else 0;
    }

-- `g_calc.mdim`; `TBEAM` is tested inside the block of the embedded-atom potentials.
pub mdim : Build → Sizes → ℕ
mdim b s =
    3 * s.natoms
    + s.nconf
    + (if b.stress then 6 * s.nconf else 0)
    + (if embedded b then s.nconf + 2 * s.ntypes + (if b.tbeam then 2 * s.ntypes else 0) else 0)
    + (if b.apot then s.idxlen + (s.number + 1) else 0)
