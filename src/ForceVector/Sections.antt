-- ===== src/ForceVector/Sections.antt =====
-- The sections of the force vector: do they lie side by side, and inside the vector?
use potfit.Base.{
  ℕ, ◌+◌, ◌-◌, ◌*◌, ◌≤◌, ◌<◌, ◌≡◌, true, false, ◌&&◌, List, [], ◌∷◌, arith, if◌then◌else◌,
}
use potfit.Build.{Build, embedded}
use potfit.ForceVector.{Sizes, set_force_vector_pointers, mdim}

-- A section of the vector: where it starts, and how many values the force routines keep there.
pub record Section : Type 0 where
  pub start : ℕ
  pub size : ℕ

-- The sections that a binary uses, in the order of their meaning: forces, energies, stresses, limiting
-- constraints, dummy constraints (force_eam.c writes `4 * ntypes` of them under `TBEAM`), one
-- punishment for each free parameter and one for each potential.
abbrev pub sections : Build → Sizes → List Section
sections b s =
    let p = set_force_vector_pointers b s in
    let punish : List Section =
      if b.apot
      then record { start = p.punish_par_p; size = s.idxlen }
        ∷ record { start = p.punish_pot_p; size = s.number }
        ∷ []
      else [] in
    let limits : List Section =
      if embedded b
      then record { start = p.limit_p; size = s.nconf }
        ∷ record { start = p.dummy_p; size = if b.tbeam then 4 * s.ntypes else 2 * s.ntypes }
        ∷ punish
      else punish in
    let stresses : List Section =
      if b.stress then record { start = p.stress_p; size = 6 * s.nconf } ∷ limits else limits in
    record { start = 0; size = 3 * s.natoms }
    ∷ record { start = p.energy_p; size = s.nconf }
    ∷ stresses

-- Each section begins at or behind the end of the one before it, and the last ends by `limit`.
abbrev pub Packed : ℕ → List Section → ℕ → Type 0
Packed from [] limit = from ≤ limit
Packed from (x ∷ xs) limit = (from ≤ x.start) × Packed (x.start + x.size) xs limit

module _ (b : Build) (s : Sizes) where
  -- Unless the binary combines analytic potentials with `TBEAM`, and if `total_par` less `invar_pots`
  -- is the number of free parameters or one more, the sections of the force vector are in order, do
  -- not overlap and end inside the vector.
  pub sections-Packed :
      (b.apot && b.tbeam) ≡ false
      → s.idxlen + s.invar_pots ≤ s.total_par
      → s.total_par ≤ s.idxlen + s.invar_pots + 1
      → Packed 0 (sections b s) (mdim b s)
  unfolding set_force_vector_pointers mdim
  sections-Packed t lo hi = ground arith

  -- With analytic potentials, `EAM` and `TBEAM`, the dummy constraints of the s-band stand on the
  -- punishments of the parameters: for at least one atom type the sections are never packed.
  pub tbeam_overlap :
      b.apot ≡ true
      → b.eam ≡ true
      → b.tbeam ≡ true
      → 0 < s.ntypes
      → ¬ Packed 0 (sections b s) (mdim b s)
  unfolding set_force_vector_pointers mdim
  tbeam_overlap a e t n = ground arith

  -- `invar_pots` counts a potential that is held fixed once, whatever its parameters: if `total_par`
  -- exceeds the free parameters by more than that and one, the slot of the last potential's
  -- punishment lies outside the force vector.
  pub invariant_overrun :
      b.apot ≡ true
      → b.tbeam ≡ false
      → s.idxlen + s.invar_pots + 1 < s.total_par
      → 0 < s.number
      → mdim b s ≤ (set_force_vector_pointers b s).punish_pot_p + s.number - 1
  unfolding set_force_vector_pointers mdim
  invariant_overrun a t h n = ground arith
