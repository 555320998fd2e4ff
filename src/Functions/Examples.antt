-- ===== src/Functions/Examples.antt =====
-- The table of a Tersoff binary, and the assignment for a file of two potentials.
use Prim.Native.String.{String}
use potfit.Base.{
  ℕ, ◌≡◌, ◌≢◌, zero, suc, refl, true, List, [], ◌∷◌, some, none, if◌then◌else◌, ok, get_elem?,
}
use text.Mathlib.Text.{◌==◌ as str_eq}
use potfit.Base.Int.{pos, negsuc}
use potfit.Build.{Build, plain}
use potfit.Functions.{
  Function, Assigned, find_function, add_potential, items, initialize_analytic_potentials,
  apot_get_num_parameters, apot_assign_function_pointers,
}
use mathlib.Core.Option.{some-injective}
use potfit.Functions.Items.{Item}
use potfit.Functions.Lookup.{row, get-add, initialize_total}

abbrev lj_table : List (Function String)
lj_table = row "lj" 2 "lj_value" ∷ row "eopp" 6 "eopp_value" ∷ []

abbrev unassigned : Assigned String
unassigned = record { fvalue = none ∷ none ∷ []; eopp = []; universal = [] }

abbrev tersoff_binary : Build
tersoff_binary = record plain { apot = true; tersoff = true }

abbrev lj_morse_table : List (Function String)
lj_morse_table =
    row "lj" 2 "lj_value" ∷ row "eopp" 6 "eopp_value" ∷ row "morse" 3 "morse_value" ∷ []

get-add_example :
    (apot_get_num_parameters "morse" lj_table ≡ negsuc 0)
    × (apot_get_num_parameters "lj" lj_morse_table
        ≡ (if str_eq "morse" "lj" then pos 3 else apot_get_num_parameters "lj" lj_table))
unfolding add_potential
get-add_example = get-add "morse" "lj" 3 "morse_value" lj_table refl

initialize_total_example :
    (table : List (Function String)) × (initialize_analytic_potentials (λ n. n) tersoff_binary 2
      ≡ ok table)
    × ((j : ℕ) (it : Item)
        → get_elem? (items tersoff_binary 2) j ≡ some it
        → find_function it.name table ≡ some (row it.name it.npar it.name))
initialize_total_example = initialize_total (λ n. n) tersoff_binary 2

abbrev two_names : List String
two_names = "eopp" ∷ "lj" ∷ []

two_names_known :
    (j : ℕ) (n : String)
    → get_elem? two_names j ≡ some n
    → apot_get_num_parameters n lj_table ≢ negsuc 0
unfolding apot_get_num_parameters
two_names_known j n =
    elim j
      as (λ j. get_elem? two_names j ≡ some n → apot_get_num_parameters n lj_table ≢ negsuc 0) [
        | zero ↦ λ e. rw (← some-injective "eopp" n e) (λ h. cc)
        | suc k ↦
            elim k
              as (λ k.
                get_elem? two_names (suc k) ≡ some n
                → apot_get_num_parameters n lj_table ≢ negsuc 0) [
                  | zero ↦ λ e. rw (← some-injective "lj" n e) (λ h. cc)
                  | suc _ ↦ λ e. cc
                ]
      ]

-- A potential whose name begins with eopp is noted for the punishment of eopp.
punished :
    (apot_assign_function_pointers two_names lj_table unassigned).1
    ≡ record { fvalue = some "eopp_value" ∷ some "lj_value" ∷ []; eopp = 0 ∷ []; universal = [] }
unfolding apot_assign_function_pointers
punished = refl
