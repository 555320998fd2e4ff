-- ===== src/Functions.antt =====
-- The table of analytic potentials in functions.c: registration, look-up, and the assignment of the
-- functions to the potentials of a file. A function pointer is a value of any type `F`.
mod Items
pub mod Lookup
pub mod Assign
mod Examples
use Prim.Native.String.{String}
use text.Mathlib.Text.{◌==◌ as str_eq, starts_with}
use potfit.Base.{
  ℕ, zero, suc, ◌+◌, Bool, true, false, List, [], ◌∷◌, ◌++◌, Option, none, some, if◌then◌else◌,
  Outcome, ok, exit, ◌>>=◌, ◌>>◌, exit_if, set,
}
use potfit.Base.Int.{ℤ, pos, negsuc}
use potfit.Build.{Build}
use Items.{Item}
unfoldable pub use Items.{items}

-- A row of `function_table`: the arrays `name`, `num_params` and `fvalue` at one index.
pub record Function (F : Type 0) : Type 0 where
  pub name : String
  pub num_params : ℕ
  pub fvalue : F

-- The call of `error` in `add_potential`.
pub data Failure : Type 0 where
  already_there : String → Failure

-- The function pointers of the potentials of a file, and behind their counts the two lists of
-- `punish_index`.
pub record Assigned (F : Type 0) : Type 0 where
  pub fvalue : List (Option F)
  pub eopp : List ℕ
  pub universal : List ℕ

module _ {F : Type 0} where
  -- The first row with a name, as every loop over the table looks for it.
  pub find_function : String → List (Function F) → Option (Function F)
  find_function name [] = none
  find_function name (f ∷ fs) = if str_eq f.name name then some f else find_function name fs

  abbrev pub present : Option (Function F) → Bool
  present o = elim o [ none ↦ false | some f ↦ true ]

  pub add_potential : String → ℕ → F → List (Function F) → Outcome Failure (List (Function F))
  unfolding find_function
  add_potential name npar function table = do
    exit_if (present (find_function name table)) (already_there name)
    ok (table ++ (record { name = name; num_params = npar; fvalue = function } ∷ []))

  pub add_all : (String → F) → List Item → List (Function F) → Outcome Failure (List (Function F))
  unfolding add_potential
  add_all value [] table = ok table
  add_all value (i ∷ is) table =
      add_potential i.name i.npar (value i.name) table >>= add_all value is

  -- `value` is the address of the C function that belongs to a name.
  pub initialize_analytic_potentials :
      (String → F) → Build → ℕ → Outcome Failure (List (Function F))
  unfolding add_all items
  initialize_analytic_potentials value b ntypes = add_all value (items b ntypes) []

  -- -1 for an unknown name.
  pub apot_get_num_parameters : String → List (Function F) → ℤ
  unfolding find_function
  apot_get_num_parameters name table = elim (find_function name table) [
    | none ↦ negsuc 0
    | some f ↦ pos f.num_params
  ]

  pub apot_assign_punish_functions : String → ℕ → Assigned F → Assigned F
  apot_assign_punish_functions name index s =
      if starts_with name "eopp"
      then record s { eopp = s.eopp ++ (index ∷ []) }
      else if starts_with name "universal"
      then record s { universal = s.universal ++ (index ∷ []) }
      else s

  abbrev pub is_empty : List (Function F) → Bool
  is_empty table = elim table [ [] ↦ true | _ ∷ _ ↦ false ]

  -- The loop of `apot_assign_function_pointers` from potential `i` on. An empty table has no last
  -- function, so it never returns -1.
  pub assign_from : ℕ → List String → List (Function F) → Assigned F → ℤ × Assigned F
  unfolding find_function apot_assign_punish_functions
  assign_from i [] table s = (pos 0, s)
  assign_from i (n ∷ ns) table s = elim (find_function n table) [
    | some f ↦
        assign_from (i + 1) ns table
          (apot_assign_punish_functions n i (record s { fvalue = set s.fvalue i (some f.fvalue) }))
    | none ↦ if is_empty table then assign_from (i + 1) ns table s else (negsuc 0, s)
  ]

  pub apot_assign_function_pointers : List String → List (Function F) → Assigned F → ℤ × Assigned F
  unfolding assign_from
  apot_assign_function_pointers names table s = assign_from 0 names table s
