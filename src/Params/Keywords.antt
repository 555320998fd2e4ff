-- ===== src/Params/Keywords.antt =====
-- The chain of comparisons in `read_parameter_file`: one row for each keyword of a binary.
use Prim.Native.String.{String}
use potfit.Base.{ℕ, List, [], ◌∷◌, ◌++◌, Option, if◌then◌else◌, Outcome, ok, ◌>>=◌}
use potfit.Base.Int.{ℤ, pos}
use potfit.Base.Double.{Double, zero_double}
use potfit.Build.{Build}
use potfit.Params.Settings.{
  Settings, Failure, CLibrary, int_max, int_min, get_param_int, get_param_double, get_param_string,
}

-- What a branch of the chain does with the second word of the line: the bounds and the global of a
-- number, or the global of a text with the switch that is set beside it.
pub data Action (W : Type 0) : Type 0 where
  int : ℤ → ℤ → (ℤ → Settings W → Settings W) → Action W
  double : W → (W → Settings W → Settings W) → Action W
  string : (Settings W → Option String) → (Option String → Settings W → Settings W) → Action W

pub record Keyword (W : Type 0) : Type 0 where
  pub word : String
  pub action : Action W

module _ {W : Type 0} ⦃d : Double W⦄ (c : CLibrary W) where
  unfoldable pub run :
      Action W → String → Option String → ℕ → Settings W → Outcome Failure (Settings W)
  unfolding get_param_int get_param_double get_param_string
  run (int low high put) word value line s =
      get_param_int c word value line low high >>= (λ v. ok (put v s))
  run (double low put) word value line s =
      get_param_double c word value line low c.dbl_max >>= (λ v. ok (put v s))
  run (string get put) word value line s = ok (put (get_param_string value (get s)) s)

  abbrev pub common_keywords : List (Keyword W)
  common_keywords =
      record { word = "ntypes"; action = int (pos 1) int_max (λ v s. record s { ntypes = v }) }
      ∷ record {
        word = "startpot";
        action = string (λ s. s.startpot) (λ v s. record s { startpot = v });
      }
      ∷ record { word = "endpot"; action = string (λ s. s.endpot) (λ v s. record s { endpot = v }) }
      ∷ record {
        word = "output_prefix";
        action =
            string (λ s. s.output_prefix)
              (λ v s. record s { output_prefix = v; write_output_files = pos 1 });
      }
      ∷ record {
        word = "output_lammps";
        action =
            string (λ s. s.output_lammps)
              (λ v s. record s { output_lammps = v; write_lammps_files = pos 1 });
      }
      ∷ record {
        word = "imdpot";
        action = string (λ s. s.imdpot) (λ v s. record s { imdpot = v; writeimd = pos 1 });
      }
      ∷ record {
        word = "plotfile";
        action = string (λ s. s.plotfile) (λ v s. record s { plotfile = v; plot = pos 1 });
      }
      ∷ record {
        word = "imdpotsteps";
        action = int (pos 1) int_max (λ v s. record s { imdpotsteps = v });
      }
      ∷ record { word = "extend"; action = double c.dbl_min (λ v s. record s { extend = v }) }
      ∷ record { word = "config"; action = string (λ s. s.config) (λ v s. record s { config = v }) }
      ∷ record { word = "opt"; action = int (pos 0) (pos 1) (λ v s. record s { opt = v }) }
      ∷ record {
        word = "flagfile";
        action = string (λ s. s.flagfile) (λ v s. record s { flagfile = v });
      }
      ∷ record {
        word = "write_pair";
        action = int (pos 0) (pos 1) (λ v s. record s { write_pair = v });
      }
      ∷ record {
        word = "plotpointfile";
        action = string (λ s. s.plotpointfile) (λ v s. record s { plotpointfile = v });
      }
      ∷ record {
        word = "tempfile";
        action = string (λ s. s.tempfile) (λ v s. record s { tempfile = v });
      }
      ∷ record { word = "seed"; action = int int_min int_max (λ v s. record s { rng_seed = v }) }
      ∷ record {
        word = "eng_weight";
        action = double zero_double (λ v s. record s { eweight = v });
      }
      ∷ record { word = "d_eps"; action = double zero_double (λ v s. record s { d_eps = v }) }
      ∷ record {
        word = "write_lammps";
        action = int (pos 0) (pos 1) (λ v s. record s { write_lammps = v });
      }
      ∷ record {
        word = "cell_scale";
        action = double zero_double (λ v s. record s { global_cell_scale = v });
      }
      ∷ []

  abbrev pub apot_keywords : List (Keyword W)
  apot_keywords =
      record {
        word = "apot_punish";
        action = double zero_double (λ v s. record s { apot_punish_value = v });
      }
      ∷ record { word = "plotmin"; action = double c.dbl_min (λ v s. record s { plotmin = v }) }
      ∷ []

  abbrev pub chempot_keywords : List (Keyword W)
  chempot_keywords =
      record {
        word = "enable_cp";
        action = int int_min int_max (λ v s. record s { enable_cp = v });
      }
      ∷ []

  abbrev pub table_keywords : List (Keyword W)
  table_keywords =
      record {
        word = "maxchfile";
        action = string (λ s. s.maxchfile) (λ v s. record s { maxchfile = v; usemaxch = pos 1 });
      }
      ∷ []

  abbrev pub coulomb_keywords : List (Keyword W)
  coulomb_keywords =
      record { word = "dp_cut"; action = double c.dbl_min (λ v s. record s { dp_cut = v }) } ∷ []

  abbrev pub dipole_keywords : List (Keyword W)
  dipole_keywords =
      record { word = "dp_tol"; action = double c.dbl_min (λ v s. record s { dp_tol = v }) }
      ∷ record { word = "dp_mix"; action = double c.dbl_min (λ v s. record s { dp_mix = v }) }
      ∷ []

  abbrev pub evo_keywords : List (Keyword W)
  evo_keywords =
      record {
        word = "evo_threshold";
        action = double zero_double (λ v s. record s { evo_threshold = v });
      }
      ∷ []

  abbrev pub anneal_keywords : List (Keyword W)
  anneal_keywords =
      record {
        word = "anneal_temp";
        action = string (λ s. s.anneal_temp) (λ v s. record s { anneal_temp = v });
      }
      ∷ []

  abbrev pub bindist_keywords : List (Keyword W)
  bindist_keywords =
      record {
        word = "bindist_file";
        action = string (λ s. s.bindistfile) (λ v s. record s { bindistfile = v });
      }
      ∷ []

  abbrev pub stress_keywords : List (Keyword W)
  stress_keywords =
      record {
        word = "stress_weight";
        action = double zero_double (λ v s. record s { sweight = v });
      }
      ∷ []

  -- The `#if` blocks of the chain.
  abbrev pub model_keywords : Build → List (Keyword W)
  model_keywords b =
      if b.apot then apot_keywords ++ (if b.pair then chempot_keywords else []) else table_keywords

  abbrev pub charge_keywords : Build → List (Keyword W)
  charge_keywords b =
      (if b.coulomb then coulomb_keywords else []) ++ (if b.dipole then dipole_keywords else [])

  abbrev pub search_keywords : Build → List (Keyword W)
  search_keywords b = if b.evo then evo_keywords else anneal_keywords

  abbrev pub last_keywords : Build → List (Keyword W)
  last_keywords b =
      (if b.bindist then bindist_keywords else []) ++ (if b.stress then stress_keywords else [])

  -- The branches that the preprocessor leaves, in their order.
  unfoldable pub keywords : Build → List (Keyword W)
  keywords b =
      common_keywords
      ++ (model_keywords b ++ (charge_keywords b ++ (search_keywords b ++ last_keywords b)))
