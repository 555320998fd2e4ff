-- ===== src/PotTable/Distances/Examples.antt =====
-- One pair function with two sampling points, at 1 and 3, with gradients in the file.
use potfit.Base.{◌≡◌, refl, true, false, List, [], ◌∷◌, Option, none, some, ok, length}
use potfit.Base.Int.{ℤ, pos, ◌+ℤ◌, ◌-ℤ◌}
use potfit.Base.Double.{Milli, milli_double}
use potfit.Build.{plain}
use potfit.PairIndex.{paircol}
use potfit.PotTable.{Fscanf, Tables, with_gradient, table_length}
use potfit.PotTable.Distances.{functions, read_pot_table4}
use potfit.PotTable.Distances.Filled.{IsMonotonous, read_pot_table4-IsMonotonous}

abbrev take_none : List Milli → Option (Milli × Milli × ℤ × List Milli)
take_none rest = none

abbrev take_two : List Milli → Option (Milli × Milli × List Milli)
take_two [] = none
take_two (a ∷ []) = none
take_two (a ∷ b ∷ rest) = some (a, b, rest)

abbrev take_one : List Milli → Option (Milli × List Milli)
take_one [] = none
take_one (a ∷ rest) = some (a, rest)

abbrev take_count : List Milli → Option (ℤ × List Milli)
take_count [] = none
take_count (n ∷ rest) = some (n, rest)

abbrev take_pair : List Milli → Option (Milli × Option Milli × List Milli)
take_pair [] = none
take_pair (x ∷ []) = some (x, none, [])
take_pair (x ∷ v ∷ rest) = some (x, some v, rest)

-- A file is the list of its numbers, where a number of points is itself.
abbrev numbers : Fscanf Milli (List Milli)
numbers = record {
  scan_info = take_none;
  scan_two = take_two;
  scan_one = take_one;
  scan_count = take_count;
  scan_pair = take_pair;
}

abbrev file : List Milli
file = pos 2 ∷ pos 10 ∷ pos 20 ∷ pos 1000 ∷ pos 500 ∷ pos 3000 ∷ pos 0 ∷ []

abbrev expected : Tables Milli
expected = record {
  columns =
      record {
        begin = pos 1000;
        end = pos 3000;
        step = pos 2000;
        invstep = pos 500;
        first = 2;
        last = 3;
        nvals = 2;
      }
      ∷ [];
  len = 4;
  table = pos 10 ∷ pos 20 ∷ pos 500 ∷ pos 0 ∷ [];
  xcoord = pos 0 ∷ pos 0 ∷ pos 1000 ∷ pos 3000 ∷ [];
  idx = 0 ∷ 1 ∷ 2 ∷ [];
}

was_read : read_pot_table4 numbers plain false true 1 1 (pos 0 ∷ []) (pos 3 ∷ []) file ≡ ok expected
unfolding read_pot_table4 ◌+ℤ◌ ◌-ℤ◌ paircol with_gradient table_length
was_read = refl

one_function : length (functions plain 1) ≡ 1
unfolding functions paircol
one_function = refl

read_pot_table4-IsMonotonous_example : IsMonotonous numbers 1 expected
read_pot_table4-IsMonotonous_example =
    read_pot_table4-IsMonotonous numbers plain false true 1 1 (pos 0 ∷ []) (pos 3 ∷ []) file
      expected one_function was_read
