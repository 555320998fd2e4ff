-- ===== src/ForceVector/Examples.antt =====
-- The layout theorems at small systems.
use potfit.Base.{◌-◌, ◌≤◌, ◌+◌, refl, true, arith}
use potfit.Build.{Build, plain}
use potfit.ForceVector.{Sizes, set_force_vector_pointers, mdim}
use potfit.ForceVector.Sections.{
  sections, Packed, sections-Packed, tbeam_overlap, invariant_overrun,
}

-- Two configurations with five atoms of two types, three potentials with seven free parameters.
abbrev small : Sizes
small = record {
  natoms = 5;
  nconf = 2;
  ntypes = 2;
  idxlen = 7;
  number = 3;
  total_par = 7;
  invar_pots = 0;
}

abbrev analytic_eam : Build
analytic_eam = record plain { apot = true; eam = true; stress = true }

abbrev analytic_tbeam : Build
analytic_tbeam = record plain { apot = true; eam = true; tbeam = true }

sections-Packed_example : Packed 0 (sections analytic_eam small) (mdim analytic_eam small)
sections-Packed_example = sections-Packed analytic_eam small refl (omega arith) (omega arith)

tbeam_overlap_example : ¬ Packed 0 (sections analytic_tbeam small) (mdim analytic_tbeam small)
tbeam_overlap_example = tbeam_overlap analytic_tbeam small refl refl refl (omega arith)

-- One potential of four parameters is held fixed.
abbrev held : Sizes
held = record small { total_par = 11; invar_pots = 1 }

invariant_overrun_example :
    mdim analytic_eam held ≤ (set_force_vector_pointers analytic_eam held).punish_pot_p + 3 - 1
invariant_overrun_example =
    invariant_overrun analytic_eam held refl refl (omega arith) (omega arith)
