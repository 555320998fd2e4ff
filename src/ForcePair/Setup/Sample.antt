-- ===== src/ForcePair/Setup/Sample.antt =====
-- A file with two configurations of two atoms at a distance of 1.0, in thousandths. A square root of
-- thousandths is the number itself, which is right for 1.0. A file is the list of its lines.
use Prim.Native.String.{String}
use text.Mathlib.Text.{◌==◌ as str_eq}
use potfit.Base.{
  ◌+◌, ◌*◌, ◌/◌, ◌≡◌, refl, Bool, true, false, List, [], ◌∷◌, Option, none, some, if◌then◌else◌,
  Outcome, ok, exit,
}
use potfit.Base.Int.{ℤ, pos, pos_part, ◌+ℤ◌, ◌-ℤ◌}
use potfit.Base.Double.{Milli, milli_double}
use potfit.Build.{plain}
use potfit.PairIndex.{pair_index, paircol}
use potfit.PotentialHeader.{tabulated_eq_dist}
use potfit.Config.{Vector, zero_tensor}
use potfit.Config.Box.{make_box, init_box_vectors}
use potfit.Config.Header.{Reader, Source, Failure, ConfigAtom, reset_cstate, read_header, update}
use potfit.Config.Neighbors.{images, init_neighbors}
use potfit.Config.Neighbors.Examples.{column, corner}
use potfit.Config.Reader.{read_config}

abbrev pub File : Type 0
File = List String

abbrev pub fgets : File → Option (String × File)
fgets [] = none
fgets (line ∷ rest) = some (line, rest)

abbrev pub feof : File → Bool
feof [] = true
feof (line ∷ rest) = false

abbrev pub along : String → Vector Milli
along s =
    if str_eq s "x"
    then corner (pos 5000)
    else if str_eq s "y"
    then record { x = pos 0; y = pos 5000; z = pos 0 }
    else record { x = pos 0; y = pos 0; z = pos 5000 }

abbrev pub scan_atom : File → Option ((ℤ × Vector Milli × Vector Milli) × File)
scan_atom [] = none
scan_atom (line ∷ rest) =
    let at = if str_eq line "left" then corner (pos 0) else corner (pos 1000) in
    some ((pos 0, at, corner (pos 100)), rest)

abbrev pub source : Source File Milli
source = record {
  fgets = fgets;
  feof = feof;
  scan_atom = scan_atom;
  scan_two = λ s. some (pos 2, pos 1);
  scan_count = λ s. some (pos 2);
  scan_one = λ s. some (pos 3000);
  scan_vector = λ s. some (along s);
  scan_tensor = λ s. none;
  strtok = λ s. [];
  atoi = λ s. pos 0;
  ceil = λ w. pos ((pos_part w + 999) / 1000 * 1000);
  truncate = λ w. pos_part w / 1000;
  acos = λ w. w;
  dbl_max = pos 1000000;
  build = plain;
  ntypes = 1;
  format = tabulated_eq_dist;
  table = column;
  rcut = λ i j. pos 2000;
  rcutmax = pos 2000;
  global_cell_scale = pos 1000;
}

abbrev pub lines : File
lines = "#N 2 1" ∷ "#X x" ∷ "#Y y" ∷ "#Z z" ∷ "#E e" ∷ "#F" ∷ "left" ∷ "right" ∷ []

abbrev pub file : File
file = "#N 2 1" ∷ "#X x" ∷ "#Y y" ∷ "#Z z" ∷ "#E e" ∷ "#F" ∷ "left" ∷ "right" ∷ lines

abbrev pub nothing : ConfigAtom Milli
nothing = record {
  type = 0;
  pos = corner (pos 0);
  force = corner (pos 0);
  absforce = pos 0;
  conf = 0;
  neigh = [];
  angle_part = [];
}

abbrev pub blank : Reader Milli
blank = record {
  head = reset_cstate source;
  names = record { elements = "0" ∷ []; num_fixed_elements = 0 };
  natoms = 0;
  nconf = 0;
  inconf = λ i. 0;
  cnfstart = λ i. 0;
  useforce = λ i. false;
  usestress = λ i. false;
  coheng = λ i. pos 0;
  conf_weight = λ i. pos 1000;
  volume = λ i. pos 0;
  stress = λ i. zero_tensor;
  atoms = λ a. nothing;
  na_type = λ i j. 0;
  types = 0;
  mindist = λ i. pos 1000000;
}

abbrev pub reached : Outcome Failure (Reader Milli) → Reader Milli
reached (ok r) = r
reached (exit reason) = blank

abbrev pub result : Reader Milli
result = reached (read_config source 12 file blank)

pub comes_through : read_config source 12 file blank ≡ ok result
unfolding read_config images make_box init_box_vectors init_neighbors read_header update pair_index
    paircol ◌+ℤ◌ ◌-ℤ◌
comes_through = refl
