-- ===== src/ForcePair/Setup.antt =====
-- The pair forces on the configurations of a file: `read_config`, then `set_force_vector_pointers`, then
-- `calc_forces`.
pub mod Sample
mod Examples
use potfit.Base.{
  ℕ, ◌+◌, ◌*◌, ◌≤◌, ◌<◌, ◌≡◌, refl, Bool, true, false, if◌then◌else◌, Outcome, ok, arith,
}
use potfit.Base.Double.{Double}
use potfit.ForceVector.{Sizes, Pointers, set_force_vector_pointers}
use potfit.Splines.{PotTable}
use potfit.Config.Header.{Reader, Source}
use potfit.Config.Neighbors.{threebody}
use potfit.Config.Reader.{read_config, force_0}
use potfit.Config.Reader.Joined.{IsRead}
use potfit.Config.Reader.Laid.{read_config-IsRead}
use potfit.ForcePair.{System, calc_forces}
use potfit.ForcePair.Terms.{total}
use potfit.ForcePair.Value.{has_table, IsSetUp, calc_forces-total}

module _ {F W : Type 0} ⦃d : Double W⦄ (c : Source F W) (fweight : Bool) (eweight sweight : W) where
  -- The counts behind `read_config`; a binary for tables has no analytic parameters.
  abbrev sizes : Reader W → Sizes
  sizes r = record {
    natoms = r.natoms;
    nconf = r.nconf;
    ntypes = c.ntypes;
    idxlen = 0;
    number = 0;
    total_par = 0;
    invar_pots = 0;
  }

  abbrev pointers : Reader W → Pointers
  pointers r = set_force_vector_pointers c.build (sizes r)

  -- What `calc_forces` reads of the globals that `read_config` has filled.
  abbrev pub system : Reader W → System W
  system r = record {
    stress = c.build.stress;
    fweight = fweight;
    nconf = r.nconf;
    inconf = r.inconf;
    cnfstart = r.cnfstart;
    useforce = r.useforce;
    usestress = r.usestress;
    conf_weight = r.conf_weight;
    volume = r.volume;
    atoms =
        λ a. record { neigh = (r.atoms a).neigh; absforce = (r.atoms a).absforce; contrib = true };
    force_0 = force_0 c r;
    energy_p = (pointers r).energy_p;
    stress_p = (pointers r).stress_p;
    eweight = eweight;
    sweight = sweight;
  }

  system-IsSetUp : (f : F) (r : Reader W) → IsRead c f r → IsSetUp (system r)
  unfolding set_force_vector_pointers
  system-IsSetUp f r h = record {
    behind = h.behind;
    inside = λ i lt. let below = h.inside i lt in omega arith;
    stresses = λ st.
        let at : (pointers r).stress_p ≡ 3 * r.natoms + r.nconf = rw st refl in omega (arith, at);
    lists = h.lists;
  }

  -- If `read_config`, begun with no configuration, comes through in a binary without a three-body
  -- interaction, for a potential that has a table: on the configurations of the file `calc_forces`
  -- returns, and its value is the weighted sum of squares of the force vector that it leaves behind, or
  -- 10e10 where that is NaN.
  pub read_config-calc_forces :
      (isnan : W → Bool) (n : ℕ) (f : F) (r r' : Reader W) (paircol : ℕ) (pt : PotTable W)
      (calc_table xi_opt forces : ℕ → W)
      → threebody c.build ≡ false
      → has_table c.format ≡ true
      → r.nconf ≡ 0
      → read_config c n f r ≡ ok r'
      → (g : ℕ → W) × (calc_forces isnan (system r') c.format paircol pt calc_table xi_opt forces
          ≡ ok (
            if isnan (total (system r') g) then d.lit 100000000000 1 else total (system r') g,
            g,
          ))
  read_config-calc_forces isnan n f r r' paircol pt calc_table xi_opt forces two table none_yet e =
      calc_forces-total isnan (system r') c.format paircol pt calc_table xi_opt forces table
        (system-IsSetUp f r' (read_config-IsRead c n f r r' two none_yet e))
