-- ===== src/Params/Check.antt =====
-- `check_parameters_complete`, and `read_parameters` on the settings of `initialize_global_variables`.
use Prim.Native.String.{String}
use potfit.Base.{
  Bool, true, false, not, ◌&&◌, List, Option, none, some, if◌then◌else◌, Outcome, ok, ◌>>=◌, ◌>>◌,
  exit_if,
}
use potfit.Base.Int.{ℤ, eq_ℤ, pos, ltb_ℤ}
use potfit.Base.Double.{Double, zero_double}
use potfit.Build.{Build}
use potfit.Params.Settings.{Settings, Failure, incomplete, CLibrary}
use potfit.Params.Reading.{read_lines}

abbrev pub is_null : Option String → Bool
is_null none = true
is_null (some t) = false

module _ {W : Type 0} ⦃d : Double W⦄ (c : CLibrary W) (b : Build) where
  -- The name of the output potential that a file without `endpot` gets.
  abbrev pub default_endpot : Option String → Option String → Option String
  default_endpot startpot (some e) = some e
  default_endpot none none = none
  default_endpot (some t) none = some (c.append t "_end")

  abbrev pub default_anneal_temp : Option String → ℤ → Option String
  default_anneal_temp (some t) opt = some t
  default_anneal_temp none opt = if eq_ℤ opt (pos 1) then some "0" else none

  -- The two assignments of the check; no later test reads what they assign.
  abbrev pub completed : Settings W → Settings W
  completed s =
      let endpot = default_endpot s.startpot s.endpot in
      let anneal_temp = if b.evo then s.anneal_temp else default_anneal_temp s.anneal_temp s.opt in
      record s { endpot = endpot; anneal_temp = anneal_temp }

  unfoldable pub check_parameters_complete : Settings W → Outcome Failure (Settings W)
  check_parameters_complete s = do
    exit_if (ltb_ℤ s.ntypes (pos 1)) (incomplete "ntypes")
    exit_if (is_null s.startpot) (incomplete "startpot")
    exit_if (is_null s.config) (incomplete "config")
    exit_if (is_null s.tempfile) (incomplete "tempfile")
    exit_if (d.lt s.eweight zero_double) (incomplete "eng_weight")
    exit_if (b.stress && d.lt s.sweight zero_double) (incomplete "stress_weight")
    exit_if (not (eq_ℤ s.writeimd (pos 0)) && ltb_ℤ s.imdpotsteps (pos 1))
        (incomplete "imdpotsteps")
    exit_if (b.apot && d.lt s.plotmin zero_double) (incomplete "plotmin")
    exit_if (b.apot && b.pair && not (eq_ℤ s.enable_cp (pos 0)) && not (eq_ℤ s.enable_cp (pos 1)))
        (incomplete "enable_cp")
    exit_if (b.evo && d.lt s.evo_threshold zero_double) (incomplete "evo_threshold")
    exit_if (b.bindist && is_null s.bindistfile) (incomplete "bindist_file")
    exit_if (d.le s.global_cell_scale zero_double) (incomplete "cell_scale")
    ok (completed s)

  -- `initialize_global_variables` on what has a keyword.
  abbrev pub initial : Settings W
  initial = record {
    ntypes = pos 0;
    startpot = none;
    endpot = none;
    output_prefix = none;
    write_output_files = pos 0;
    output_lammps = none;
    write_lammps_files = pos 0;
    imdpot = none;
    writeimd = pos 0;
    plotfile = none;
    plot = pos 0;
    imdpotsteps = pos 0;
    extend = zero_double;
    config = none;
    opt = pos 0;
    flagfile = none;
    write_pair = pos 0;
    plotpointfile = none;
    tempfile = none;
    rng_seed = pos 0;
    eweight = zero_double;
    d_eps = zero_double;
    write_lammps = pos 0;
    global_cell_scale = d.lit 1 1;
    apot_punish_value = zero_double;
    plotmin = zero_double;
    enable_cp = pos 0;
    maxchfile = none;
    usemaxch = pos 0;
    dp_cut = zero_double;
    dp_tol = zero_double;
    dp_mix = zero_double;
    evo_threshold = if b.evo then d.lit 1 1000000 else zero_double;
    anneal_temp = none;
    bindistfile = none;
    sweight = d.neg (d.lit 1 1);
  }

  -- `read_parameters` on a file that opens, given by its lines.
  unfoldable pub read_parameters : List String → Outcome Failure (Settings W)
  unfolding read_lines check_parameters_complete
  read_parameters lines = read_lines c b 0 lines initial >>= check_parameters_complete
