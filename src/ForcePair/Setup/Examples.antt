-- ===== src/ForcePair/Setup/Examples.antt =====
-- Runs on the files of Sample.
use Prim.Native.String.{String}
use text.Mathlib.Text.{◌==◌ as str_eq}
use potfit.Base.{
  ℕ, ◌*◌, ◌≡◌, ◌≢◌, ◌⊎◌, ◌<◌, ◌≤◌, length, arith, refl, Bool, false, List, [], ◌∷◌, ◌++◌, map,
  Option, none, some, if◌then◌else◌, ok, exit,
}
use potfit.Base.Int.{ℤ, pos, ◌+ℤ◌, ◌-ℤ◌}
use potfit.Base.Double.{Milli, milli_double}
use potfit.PairIndex.{pair_index, paircol}
use potfit.Params.Settings.{to_int}
use potfit.PotentialHeader.{tabulated_eq_dist}
use potfit.Config.{Vector}
use potfit.Config.Box.{make_box, init_box_vectors}
use potfit.Config.Header.{out_of_rounds, Source, read_header, update}
use potfit.Config.Neighbors.{images, init_neighbors}
use potfit.Config.Neighbors.Examples.{column, corner}
use potfit.Config.Reader.{read_config}
use potfit.Config.Header.Ends.{IsFile}
use potfit.Config.Counts.{Lengths, create_memory_for_configs}
use potfit.Config.Reader.Ends.{read_config_ends}
use potfit.Config.Reader.Joined.{IsRead}
use potfit.Config.Reader.Laid.{read_config-IsRead}
use potfit.ForcePair.{System, calc_forces}
use potfit.ForcePair.Terms.{total}
use potfit.ForcePair.Setup.{system, read_config-calc_forces}
use potfit.ForcePair.Setup.Sample.{
  File, fgets, scan_atom, source, file, blank, reached, result, comes_through,
}

-- The counts, where the second configuration begins, and the neighbors of the four atoms.
observed :
    result.natoms ∷ result.nconf ∷ result.cnfstart 1 ∷ result.inconf 1 ∷ [] ≡ 4 ∷ 2 ∷ 2 ∷ 2 ∷ []
unfolding read_config images make_box init_box_vectors init_neighbors read_header update pair_index
    paircol ◌+ℤ◌ ◌-ℤ◌
observed = refl

abbrev neighbor_numbers : ℕ → List ℕ
neighbor_numbers a = map (λ n. n.nr) (result.atoms a).neigh

neighbors_found :
    neighbor_numbers 0 ∷ neighbor_numbers 1 ∷ neighbor_numbers 2 ∷ neighbor_numbers 3 ∷ []
    ≡ (1 ∷ []) ∷ [] ∷ (3 ∷ []) ∷ [] ∷ []
unfolding read_config images make_box init_box_vectors init_neighbors read_header update pair_index
    paircol ◌+ℤ◌ ◌-ℤ◌
neighbors_found = refl

abbrev no_nan : Milli → Bool
no_nan w = false

abbrev values : ℕ → Milli
values i = pos (100 * i)

abbrev system_read : System Milli
system_read = system source false (pos 2000) (pos 0) result

read_config-calc_forces_example :
    (g : ℕ → Milli) × (calc_forces no_nan system_read tabulated_eq_dist 1 column values values
        values
      ≡ ok (total system_read g, g))
read_config-calc_forces_example =
    read_config-calc_forces source false (pos 2000) (pos 0) no_nan 12 file blank result 1 column
      values values values refl refl refl comes_through

read_config-IsRead_example : IsRead source file result
read_config-IsRead_example = read_config-IsRead source 12 file blank result refl refl comes_through

abbrev lines_left : File → ℕ
lines_left = length

source-IsFile : IsFile source lines_left
source-IsFile = record {
  fgets-takes = λ f f' line e.
      elim f as (λ f. fgets f ≡ some (line, f') → length f' < length f) [
        | [] ↦ λ e. cc
        | l ∷ ls ↦ λ e. let same : ls ≡ f' = cc in rw (← same) (omega arith)
      ]
        e;
  scan_atom-takes = λ f f' x e.
      elim f as (λ f. scan_atom f ≡ some (x, f') → length f' ≤ length f) [
        | [] ↦ λ e. cc
        | l ∷ ls ↦ λ e. let same : ls ≡ f' = cc in rw (← same) (omega arith)
      ]
        e;
}

read_config_ends_example : read_config source 17 file blank ≢ exit out_of_rounds
read_config_ends_example =
    read_config_ends source lines_left 17 file blank source-IsFile (omega arith)

-- The rest of a file begins where a line begins, or within one.
abbrev Skips : File → File → Type 0
Skips f f' =
    (skipped : File) × ((f ≡ skipped ++ f')
      ⊎ ((whole : String) × (part : String) × (rest : File) × (f ≡ skipped ++ (whole ∷ rest))
          × (f' ≡ part ∷ rest)))

abbrev no_lengths : Lengths
no_lengths = record { atom_count = pos 0; config_count = pos 0 }

abbrev lengths : Lengths
lengths = record { atom_count = pos 4; config_count = pos 2 }

-- Where a line `#N` begins behind the last atom on its line, `fscanf` leaves it for `fgets`: the second
-- configuration is read, but not counted. A line "both" stands for such a line.
abbrev scan_both : File → Option ((ℤ × Vector Milli × Vector Milli) × File)
scan_both [] = none
scan_both (line ∷ rest) =
    let at = if str_eq line "left" then corner (pos 0) else corner (pos 1000) in
    some ((pos 0, at, corner (pos 100)), if str_eq line "both" then "#N 2 1" ∷ rest else rest)

abbrev both_source : Source File Milli
both_source = record source { scan_atom = scan_both }

abbrev both_file : File
both_file =
    "#N 2 1" ∷ "#X x" ∷ "#Y y" ∷ "#Z z" ∷ "#E e" ∷ "#F" ∷ "left" ∷ "both" ∷ "#X x" ∷ "#Y y" ∷ "#Z z"
    ∷ "#E e" ∷ "#F" ∷ "left" ∷ "right" ∷ []

one_counted :
    create_memory_for_configs both_source 17 both_file no_lengths
    ≡ ok (record { atom_count = pos 2; config_count = pos 1 })
unfolding create_memory_for_configs to_int ◌+ℤ◌
one_counted = refl

two_read : (reached (read_config both_source 17 both_file blank)).nconf ≡ 2
unfolding read_config images make_box init_box_vectors init_neighbors read_header update pair_index
    paircol ◌+ℤ◌ ◌-ℤ◌
two_read = refl

-- The sum over the counted lines wraps: where the header of a configuration has two more lines
-- "#N 2147483647", which the header only passes over, no atom at all is counted for the two atoms.
abbrev scan_wide : String → Option ℤ
scan_wide s = some (if str_eq s "2 1" then pos 2 else pos 2147483647)

abbrev wide_source : Source File Milli
wide_source = record source { scan_count = scan_wide }

abbrev wide_file : File
wide_file =
    "#N 2 1" ∷ "#N 2147483647" ∷ "#N 2147483647" ∷ "#X x" ∷ "#Y y" ∷ "#Z z" ∷ "#E e" ∷ "#F" ∷ "left"
    ∷ "right" ∷ []

none_counted :
    create_memory_for_configs wide_source 17 wide_file no_lengths
    ≡ ok (record { atom_count = pos 0; config_count = pos 3 })
unfolding create_memory_for_configs to_int ◌+ℤ◌
none_counted = refl

two_atoms_read : (reached (read_config wide_source 17 wide_file blank)).natoms ≡ 2
unfolding read_config images make_box init_box_vectors init_neighbors read_header update pair_index
    paircol ◌+ℤ◌ ◌-ℤ◌
two_atoms_read = refl
