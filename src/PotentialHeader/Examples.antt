-- ===== src/PotentialHeader/Examples.antt =====
-- A header for three tabulated pair potentials, and one whose #I comes too early.
use Prim.Native.String.{String}
use text.Mathlib.Text.{◌==◌ as str_eq}
use potfit.Base.{◌≡◌, ◌≢◌, refl, Bool, true, List, [], ◌∷◌, none, some, if◌then◌else◌, ok, exit}
use potfit.Base.Int.{ℤ, pos}
use potfit.Build.{plain}
use potfit.PotentialHeader.{
  Header, Failure, Scanner, read_header, tabulated_eq_dist, kind_of, format_line, end_line,
}
use potfit.PotentialHeader.Ready.{IsReady, read_header-IsReady}
use potfit.PotentialHeader.Order.{read_header_refused}

abbrev digit : String → ℤ
digit t = if str_eq t "1" then pos 1 else if str_eq t "3" then pos 3 else pos 0

abbrev small_scanner : Scanner
small_scanner = record {
  scan_two = λ t. if str_eq t " 3 3" then some (pos 3, pos 3) else none;
  strtok = λ t.
      if str_eq t " 0 1 1"
      then "0" ∷ "1" ∷ "1" ∷ []
      else if str_eq t " Al Ni"
      then "Al" ∷ "Ni" ∷ []
      else [];
  atoi = digit;
}

abbrev pair_header : List String
pair_header = "#F 3 3" ∷ "#T PAIR\n" ∷ "#I 0 1 1" ∷ "## a remark" ∷ "#C Al Ni" ∷ "#E" ∷ "0.1" ∷ []

abbrev pair_state : Header
pair_state = record {
  num_pots = 3;
  have_format = true;
  have_gradient = Bool.false;
  end_header = true;
  format_type = tabulated_eq_dist;
  invar_pot = pos 0 ∷ pos 1 ∷ pos 1 ∷ [];
  have_invar = true;
  invar_pots = 0;
  gradient = pos 0 ∷ pos 0 ∷ pos 0 ∷ [];
  elements = "Al" ∷ "Ni" ∷ [];
}

pair_header_read : read_header small_scanner plain 2 "PAIR" pair_header ≡ ok pair_state
unfolding read_header
pair_header_read = refl

read_header-IsReady_example :
    (pair_state.have_format ≡ true) × IsReady small_scanner plain 2 "PAIR" pair_state
read_header-IsReady_example =
    read_header-IsReady small_scanner plain 2 "PAIR" pair_header pair_state pair_header_read

remark_early : (kind_of "## a remark" ≢ format_line) × (kind_of "## a remark" ≢ end_line)
remark_early = (λ e. cc, λ e. cc)

read_header_refused_example :
    (f : Failure) × (read_header small_scanner plain 2 "PAIR"
        ("## a remark" ∷ "#I 0 1 1" ∷ "#F 3 3" ∷ "#E" ∷ [])
      ≡ exit f)
read_header_refused_example =
    read_header_refused small_scanner plain 2 "PAIR" ("## a remark" ∷ []) "#I 0 1 1"
      ("#F 3 3" ∷ "#E" ∷ []) (remark_early, tt) refl
