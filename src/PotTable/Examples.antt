-- ===== src/PotTable/Examples.antt =====
-- One pair function with three sampling points, from 1 to 3, without gradients in the file.
use potfit.Base.{◌≡◌, refl, false, List, [], ◌∷◌, Option, none, some, ok}
use potfit.Base.Int.{ℤ, pos, ◌+ℤ◌, ◌-ℤ◌}
use potfit.Base.Double.{Milli, milli_double}
use potfit.Build.{plain}
use potfit.PotentialHeader.{npots}
use potfit.PotTable.{Fscanf, Tables, read_pot_table3}
use potfit.PotTable.Number.{IsTableBuild}
use potfit.PotTable.Complete.{IsComplete, read_pot_table3-IsComplete}

-- A file is the list of its numbers, where a number of points is itself.
abbrev take_info : List Milli → Option (Milli × Milli × ℤ × List Milli)
take_info [] = none
take_info (b ∷ []) = none
take_info (b ∷ e ∷ []) = none
take_info (b ∷ e ∷ n ∷ rest) = some (b, e, n, rest)

abbrev take_two : List Milli → Option (Milli × Milli × List Milli)
take_two [] = none
take_two (a ∷ []) = none
take_two (a ∷ b ∷ rest) = some (a, b, rest)

abbrev take_one : List Milli → Option (Milli × List Milli)
take_one [] = none
take_one (a ∷ rest) = some (a, rest)

abbrev take_count : List Milli → Option (ℤ × List Milli)
take_count [] = none
take_count (n ∷ rest) = some (n, rest)

abbrev take_pair : List Milli → Option (Milli × Option Milli × List Milli)
take_pair [] = none
take_pair (x ∷ []) = some (x, none, [])
take_pair (x ∷ v ∷ rest) = some (x, some v, rest)

abbrev numbers : Fscanf Milli (List Milli)
numbers = record {
  scan_info = take_info;
  scan_two = take_two;
  scan_one = take_one;
  scan_count = take_count;
  scan_pair = take_pair;
}

abbrev file : List Milli
file = pos 1000 ∷ pos 3000 ∷ pos 3 ∷ pos 500 ∷ pos 200 ∷ pos 0 ∷ []

abbrev expected : Tables Milli
expected = record {
  columns =
      record {
        begin = pos 1000;
        end = pos 3000;
        step = pos 1000;
        invstep = pos 1000;
        first = 2;
        last = 4;
        nvals = 3;
      }
      ∷ [];
  len = 5;
  table = pos 1000000000000000000000000000000000 ∷ pos 0 ∷ pos 500 ∷ pos 200 ∷ pos 0 ∷ [];
  xcoord = pos 0 ∷ pos 0 ∷ pos 1000 ∷ pos 2000 ∷ pos 3000 ∷ [];
  idx = 0 ∷ 2 ∷ 3 ∷ [];
}

was_read :
    read_pot_table3 numbers plain false false 1 (npots plain 1) (pos 0 ∷ []) (pos 2 ∷ []) file
    ≡ ok expected
unfolding read_pot_table3 npots ◌+ℤ◌ ◌-ℤ◌
was_read = refl

plain-IsTableBuild : IsTableBuild plain
plain-IsTableBuild = record { no_other = refl; at_most_one = refl; tbeam_of_eam = refl }

read_pot_table3-IsComplete_example : IsComplete numbers (npots plain 1) expected
read_pot_table3-IsComplete_example =
    read_pot_table3-IsComplete numbers plain false false 1 (pos 0 ∷ []) (pos 2 ∷ []) file expected
      plain-IsTableBuild was_read
