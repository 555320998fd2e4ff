-- ===== src/Params/Examples.antt =====
-- A parameter file of six lines, read with a small version of the C library's text functions.
use Prim.Native.String.{String, len, slice}
use text.Mathlib.Text.{◌==◌ as str_eq, find?}
use potfit.Base.{
  ◌+◌, ◌≡◌, refl, List, [], ◌∷◌, Option, none, some, if◌then◌else◌, ◌↔◌, ◌==◌, ok, exit,
}
use potfit.Base.Int.{ℤ, pos}
use potfit.Base.Double.{Milli, milli_double}
use potfit.Build.{plain}
use potfit.Params.Settings.{Settings, CLibrary, Failure, IsRead}
use potfit.Params.Reading.{read_lines, significant}
use potfit.Params.Check.{read_parameters, initial}
use potfit.Params.Complete.{read_lines-significant, read_parameters-IsComplete, IsComplete}

-- At most two words, with one blank between them.
abbrev two_words : String → List String
two_words l =
    if len l == 0
    then []
    else elim (find? l " ") [ none ↦ l ∷ [] | some i ↦ slice l 0 i ∷ slice l (i + 1) (len l) ∷ [] ]

abbrev small_number : String → Option ℤ
small_number t =
    if str_eq t "1"
    then some (pos 1)
    else if str_eq t "2"
    then some (pos 2)
    else if str_eq t "4294967298"
    then some (pos 4294967298)
    else none

abbrev small_library : CLibrary Milli
small_library = record {
  strtok = two_words;
  strtol = small_number;
  strtod = small_number;
  strcasecmp = str_eq;
  append = Prim.Native.String.◌++◌;
  dbl_min = pos 1;
  dbl_max = pos 1000000;
}

abbrev pair_lines : List String
pair_lines =
    "# a pair potential" ∷ "ntypes 2" ∷ "startpot lj.pot" ∷ "config lj.config" ∷ "tempfile lj.tmp"
    ∷ "opt 1" ∷ []

abbrev pair_settings : Settings Milli
pair_settings = record (initial small_library plain) {
  ntypes = pos 2;
  startpot = some "lj.pot";
  endpot = some "lj.pot_end";
  config = some "lj.config";
  tempfile = some "lj.tmp";
  opt = pos 1;
  anneal_temp = some "0";
}

pair_lines_read : read_parameters small_library plain pair_lines ≡ ok pair_settings
unfolding read_parameters
pair_lines_read = refl

-- A file without a configuration is refused.
config_missing :
    read_parameters small_library plain ("ntypes 2" ∷ "startpot lj.pot" ∷ [])
    ≡ exit (Failure.incomplete "config")
unfolding read_parameters
config_missing = refl

-- The keyword plotfile without a value sets the switch, and the name stays NULL.
plotfile_dangling :
    read_lines small_library plain 0 ("plotfile" ∷ []) (initial small_library plain)
    ≡ ok (record (initial small_library plain) { plot = pos 1 })
unfolding read_lines
plotfile_dangling = refl

read_parameters-IsComplete_example :
    IsComplete small_library plain pair_settings × IsRead pair_settings
read_parameters-IsComplete_example =
    read_parameters-IsComplete small_library plain pair_lines pair_settings pair_lines_read

read_lines-significant_example :
    (read_lines small_library plain 0 pair_lines (initial small_library plain)
      ≡ ok (record pair_settings { endpot = none; anneal_temp = none }))
    ↔ (read_lines small_library plain 0
          (significant small_library plain pair_lines)
          (initial small_library plain)
        ≡ ok (record pair_settings { endpot = none; anneal_temp = none }))
read_lines-significant_example =
    read_lines-significant small_library plain 0 0 pair_lines (initial small_library plain)
      (record pair_settings { endpot = none; anneal_temp = none })
