-- ===== src/Chempot/Examples.antt =====
-- Three composition nodes in falling order, and an alloy between two nodes, in thousandths.
use mathlib.Core.List.{Permᴰ}
use potfit.Base.{◌≡◌, refl, true, false, List, [], ◌∷◌, some, arith}
use potfit.Base.Int.{pos, ◌+ℤ◌, ◌-ℤ◌}
use potfit.Base.Double.{Milli, milli_double}
use potfit.Chempot.{Row, sort_chem_pot_2d, chemical_potential, init_chemical_potential}
use potfit.Chempot.Sorting.{IsAscending, sort_chem_pot_2d-IsSorted}

abbrev row : Milli → Milli → Row Milli
row node value = record { node = node; value = value; pmin = pos 0; pmax = pos 9000 }

abbrev falling : List (Row Milli)
falling = row (pos 750) (pos 1) ∷ row (pos 500) (pos 2) ∷ row (pos 250) (pos 3) ∷ []

abbrev rising : List (Row Milli)
rising = row (pos 250) (pos 3) ∷ row (pos 500) (pos 2) ∷ row (pos 750) (pos 1) ∷ []

was_sorted : sort_chem_pot_2d falling ≡ some rising
unfolding sort_chem_pot_2d
was_sorted = refl

at_most_one_below : (a b : Milli) → milli_double.lt a b ≡ true → milli_double.lt b a ≡ false
at_most_one_below a b h = ground arith

sort_chem_pot_2d-IsSorted_example :
    (sorted : List (Row Milli)) × (sort_chem_pot_2d falling ≡ some sorted)
    × IsAscending sorted
    × Permᴰ falling sorted
sort_chem_pot_2d-IsSorted_example = sort_chem_pot_2d-IsSorted at_most_one_below falling

-- The nodes 0.25 and 0.75 have the values 3 and 4. Two atoms of each type are half way between them.
interior :
    chemical_potential 2
      (pos 250 ∷ pos 750 ∷ [])
      2
      (2 ∷ 2 ∷ [])
      (pos 1000 ∷ pos 2000 ∷ pos 3000 ∷ pos 4000 ∷ [])
    ≡ pos 10000
unfolding chemical_potential ◌+ℤ◌ ◌-ℤ◌
interior = refl

three_types :
    chemical_potential 3 [] 3 (1 ∷ 2 ∷ 3 ∷ []) (pos 1000 ∷ pos 2000 ∷ pos 3000 ∷ []) ≡ pos 14000
unfolding chemical_potential ◌+ℤ◌ ◌-ℤ◌
three_types = refl

only_for_two : init_chemical_potential 3 falling ≡ some falling
unfolding init_chemical_potential
only_for_two = refl
