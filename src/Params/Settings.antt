-- ===== src/Params/Settings.antt =====
-- The globals that params.c fills, and what it calls of the C library.
use Prim.Native.String.{String}
use potfit.Base.{
  ℕ, ◌-◌, ◌%◌, ◌^◌, Bool, List, Option, none, some, if◌then◌else◌, ltb, ◌||◌, ◌≡◌, ◌⊎◌, Outcome, ok,
  exit, ◌>>◌, exit_if,
}
use potfit.Base.Int.{ℤ, pos, negsuc, ltb_ℤ, ◌≤ℤ◌}
use potfit.Base.Double.{Double, gt}

-- `g_param`, `g_files` and what else has a keyword. A null pointer is `none`.
pub record Settings (W : Type 0) : Type 0 where
  pub ntypes : ℤ
  pub startpot : Option String
  pub endpot : Option String
  pub output_prefix : Option String
  pub write_output_files : ℤ
  pub output_lammps : Option String
  pub write_lammps_files : ℤ
  pub imdpot : Option String
  pub writeimd : ℤ
  pub plotfile : Option String
  pub plot : ℤ
  pub imdpotsteps : ℤ
  pub extend : W
  pub config : Option String
  pub opt : ℤ
  pub flagfile : Option String
  pub write_pair : ℤ
  pub plotpointfile : Option String
  pub tempfile : Option String
  pub rng_seed : ℤ
  pub eweight : W
  pub d_eps : W
  pub write_lammps : ℤ
  pub global_cell_scale : W
  pub apot_punish_value : W
  pub plotmin : W
  pub enable_cp : ℤ
  pub maxchfile : Option String
  pub usemaxch : ℤ
  pub dp_cut : W
  pub dp_tol : W
  pub dp_mix : W
  pub evo_threshold : W
  pub anneal_temp : Option String
  pub bindistfile : Option String
  pub sweight : W

-- The fatal errors, with the keyword and the line of the file where they name them.
pub data Failure : Type 0 where
  no_value : String → ℕ → Failure
  no_number : String → ℕ → Failure
  out_of_bounds : String → ℕ → Failure
  incomplete : String → Failure

-- The C library. `strtok` gives the words of a line between blanks, tabs and line ends; `strtol` and
-- `strtod` give `none` where they convert nothing; `append` is `sprintf` of two texts.
pub record CLibrary (W : Type 0) : Type 0 where
  pub strtok : String → List String
  pub strtol : String → Option ℤ
  pub strtod : String → Option W
  pub strcasecmp : String → String → Bool
  pub append : String → String → String
  pub dbl_min : W
  pub dbl_max : W

abbrev pub int_max : ℤ
int_max = pos 2147483647

abbrev pub int_min : ℤ
int_min = negsuc 2147483647

-- A 32-bit pattern read as a signed number.
abbrev signed_32 : ℕ → ℤ
signed_32 m = if ltb m (2 ^ 31) then pos m else negsuc (2 ^ 32 - 1 - m)

-- The conversion of the `long` of `strtol` to `int`.
unfoldable pub to_int : ℤ → ℤ
to_int (pos n) = signed_32 (n % 2 ^ 32)
to_int (negsuc n) = signed_32 (2 ^ 32 - 1 - n % 2 ^ 32)

module _ {W : Type 0} ⦃d : Double W⦄ (c : CLibrary W) where
  -- The value that `get_param_int` stores; `value` is the second word of the line.
  unfoldable pub get_param_int : String → Option String → ℕ → ℤ → ℤ → Outcome Failure ℤ
  unfolding to_int
  get_param_int name none line low high = exit (no_value name line)
  get_param_int name (some str) line low high = elim (c.strtol str) [
    | none ↦ exit (no_number name line)
    | some long ↦
        exit_if (ltb_ℤ (to_int long) low || ltb_ℤ high (to_int long)) (out_of_bounds name line)
        >> ok (to_int long)
  ]

  unfoldable pub get_param_double : String → Option String → ℕ → W → W → Outcome Failure W
  get_param_double name none line low high = exit (no_value name line)
  get_param_double name (some str) line low high = elim (c.strtod str) [
    | none ↦ exit (no_number name line)
    | some w ↦ exit_if (d.lt w low || gt w high) (out_of_bounds name line) >> ok w
  ]

-- Without a value `error(0, ...)` only prints, and the old text stays.
unfoldable pub get_param_string : Option String → Option String → Option String
get_param_string none old = old
get_param_string (some str) old = some str

abbrev pub IsSwitch : ℤ → Type 0
IsSwitch z = (z ≡ pos 0) ⊎ (z ≡ pos 1)

-- The switches are 0 or 1, and the counts are not negative.
abbrev pub IsRead : {W : Type 0} → Settings W → Type 0
IsRead s =
    IsSwitch s.opt
    × IsSwitch s.write_pair
    × IsSwitch s.write_lammps
    × IsSwitch s.write_output_files
    × IsSwitch s.write_lammps_files
    × IsSwitch s.writeimd
    × IsSwitch s.plot
    × IsSwitch s.usemaxch
    × (pos 0 ≤ℤ s.ntypes)
    × (pos 0 ≤ℤ s.imdpotsteps)
