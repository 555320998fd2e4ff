-- ===== src/Functions/Lookup.antt =====
-- Registration and look-up of analytic potentials.
use Prim.Native.String.{String}
use text.Mathlib.Text.{◌==◌ as str_eq}
use text.Mathlib.TextEquality.{eq_iff}
use potfit.Base.{
  ℕ, zero, suc, ◌≡◌, refl, Bool, true, false, List, [], ◌∷◌, ◌++◌, Option, none, some,
  if◌then◌else◌, ok, through, arith, get_elem?,
}
use potfit.Base.Int.{pos, negsuc}
use potfit.Build.{Build}
use potfit.Functions.{
  Function, find_function, add_potential, add_all, items, initialize_analytic_potentials,
  apot_get_num_parameters,
}
use potfit.Functions.Items.{Item, items_of}

module _ {F : Type 0} where
  abbrev pub row : String → ℕ → F → Function F
  row n k f = record { name = n; num_params = k; fvalue = f }

  -- What a search finds behind a longer table.
  abbrev or_else : Option (Function F) → Option (Function F) → Option (Function F)
  or_else o p = elim o [ none ↦ p | some f ↦ some f ]

  find-append :
      (m : String) (table : List (Function F)) (f : Function F)
      → find_function m (table ++ (f ∷ []))
        ≡ or_else (find_function m table) (if str_eq f.name m then some f else none)
  unfolding find_function
  find-append m [] f = refl
  find-append m (g ∷ gs) f = ground (arith, find-append m gs f)

  add_found :
      (n : String) (k : ℕ) (f : F) (table : List (Function F)) {table' : List (Function F)}
      → add_potential n k f table ≡ ok table'
      → (find_function n table ≡ none) × (table' ≡ table ++ (row n k f ∷ []))
  unfolding add_potential
  add_found n k f table e = ground arith

  -- A potential is registered only under a new name. It is then found under its name with its number
  -- of parameters, and every other name gives what it gave before.
  pub get-add :
      (n m : String) (k : ℕ) (f : F) (table : List (Function F)) {table' : List (Function F)}
      → add_potential n k f table ≡ ok table'
      → (apot_get_num_parameters n table ≡ negsuc 0)
        × (apot_get_num_parameters m table'
            ≡ (if str_eq n m then pos k else apot_get_num_parameters m table))
  unfolding apot_get_num_parameters
  get-add n m k f table e =
      let (absent, grown) = add_found n k f table e in
      (
        rw (absent, apot_get_num_parameters) refl,
        ground (arith, find-append m table (row n k f), eq_iff n m),
      )

  find_kept :
      (value : String → F) (is : List Item) (m : String) (g : Function F)
      (table : List (Function F)) (table' : List (Function F))
      → add_all value is table ≡ ok table'
      → find_function m table ≡ some g
      → find_function m table' ≡ some g
  unfolding add_all
  find_kept value [] m g table table' e h = ground arith
  find_kept value (i ∷ is) m g table table' e h =
      let (t, et, rest) =
        through (add_potential i.name i.npar (value i.name) table) (add_all value is) table' e in
      let (absent, grown) = add_found i.name i.npar (value i.name) table et in
      find_kept value is m g t table' rest
        (ground (arith, find-append m table (row i.name i.npar (value i.name))))

  add_all_found :
      (value : String → F) (is : List Item) (j : ℕ) (it : Item) (table : List (Function F))
      (table' : List (Function F))
      → add_all value is table ≡ ok table'
      → get_elem? is j ≡ some it
      → find_function it.name table' ≡ some (row it.name it.npar (value it.name))
  unfolding add_all
  add_all_found value [] j it table table' e h = cc
  add_all_found value (i ∷ is) zero it table table' e h =
      let (t, et, rest) =
        through (add_potential i.name i.npar (value i.name) table) (add_all value is) table' e in
      let (absent, grown) = add_found i.name i.npar (value i.name) table et in
      let same : i ≡ it = cc in
      rw (← same) (
        find_kept value is i.name (row i.name i.npar (value i.name)) t table' rest (
          ground (
            arith,
            find-append i.name table (row i.name i.npar (value i.name)),
            eq_iff i.name i.name,
          )))
  add_all_found value (i ∷ is) (suc j) it table table' e h =
      let (t, et, rest) =
        through (add_potential i.name i.npar (value i.name) table) (add_all value is) table' e in
      add_all_found value is j it t table' rest h

  registered :
      (value : String → F) (stiweb tersoff tersoffmod : Bool) (ntypes : ℕ)
      → (table : List (Function F)) × (add_all value (items_of stiweb tersoff tersoffmod ntypes) []
          ≡ ok table)
  unfolding add_all
  registered value false false _ ntypes = (_, refl)
  registered value false true false ntypes = (_, refl)
  registered value false true true ntypes = (_, refl)
  registered value true false _ ntypes = (_, refl)
  registered value true true false ntypes = (_, refl)
  registered value true true true ntypes = (_, refl)

  -- The registration of the potentials of functions.itm succeeds for every combination of flags, and
  -- afterwards each of them is found under its name, with its parameters and its C function.
  pub initialize_total :
      (value : String → F) (b : Build) (ntypes : ℕ)
      → (table : List (Function F)) × (initialize_analytic_potentials value b ntypes ≡ ok table)
        × ((j : ℕ) (it : Item)
            → get_elem? (items b ntypes) j ≡ some it
            → find_function it.name table ≡ some (row it.name it.npar (value it.name)))
  unfolding initialize_analytic_potentials items
  initialize_total value b ntypes =
      let (table, e) = registered value b.stiweb b.tersoff b.tersoffmod ntypes in
      (table, e, λ j it. add_all_found value (items b ntypes) j it [] table e)
