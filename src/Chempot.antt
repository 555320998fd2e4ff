-- ===== src/Chempot.antt =====
-- chempot.c: the sort of the composition nodes and the chemical potentials. The
-- four arrays that `swap_chem_pot` changes together are one list of rows.
pub mod Sorting
mod Examples
use potfit.Base.{
  ℕ, zero, suc, ◌+◌, ◌-◌, Bool, true, false, ◌||◌, List, [], ◌∷◌, Option, none, some, if◌then◌else◌,
  ◌==◌, get_or, length, ltb,
}
use potfit.Base.Double.{Double, gt, zero_double, ◌⊕◌, ◌⊖◌, ◌⊗◌, ◌⊘◌}

-- `compnodelist[i]`, and the entries of `values`, `pmin` and `pmax` at `ntypes + i`.
pub record Row (W : Type 0) : Type 0 where
  pub node : W
  pub value : W
  pub pmin : W
  pub pmax : W

-- A bound for the passes: the number of pairs of `n` rows.
pub pairs : ℕ → ℕ
pairs zero = 0
pairs (suc n) = n + pairs n

module _ {W : Type 0} ⦃d : Double W⦄ where
  -- The `for` loop from row `a` on, with `swapped`. The exchange puts `a` behind the next row.
  pub pass_from : Row W → List (Row W) → List (Row W) × Bool
  pass_from a [] = (a ∷ [], false)
  pass_from a (b ∷ rows) = elim (gt a.node b.node) [
    | true ↦ (b ∷ (pass_from a rows).0, true)
    | false ↦ (a ∷ (pass_from b rows).0, (pass_from b rows).1)
  ]

  pub pass : List (Row W) → List (Row W) × Bool
  unfolding pass_from
  pass [] = ([], false)
  pass (a ∷ rows) = pass_from a rows

  -- The `do` loop.
  pub passes : ℕ → List (Row W) → Option (List (Row W))
  unfolding pass
  passes zero rows = none
  passes (suc fuel) rows = elim ((pass rows).1) [
    | true ↦ passes fuel (pass rows).0
    | false ↦ some (pass rows).0
  ]

  pub sort_chem_pot_2d : List (Row W) → Option (List (Row W))
  unfolding passes pairs
  sort_chem_pot_2d [] = some []
  sort_chem_pot_2d (a ∷ rows) = passes (suc (pairs (length (a ∷ rows)))) (a ∷ rows)

  -- The `while` loop: the first node that is not below `nfrac`, or the number of nodes.
  pub search : W → List W → ℕ
  search nfrac [] = 0
  search nfrac (node ∷ nodes) = elim (gt nfrac node) [ true ↦ suc (search nfrac nodes) | false ↦ 0 ]

  abbrev between : (nfrac xl xr yl yr ntot : W) → W
  between nfrac xl xr yl yr ntot = (yl ⊕ (nfrac ⊖ xl) ⊗ (yr ⊖ yl) ⊘ (xr ⊖ xl)) ⊗ ntot

  abbrev at : List W → ℕ → W
  at values i = get_or values i zero_double

  -- For numbers of atoms of the two types, with `i` the node that the search found.
  abbrev interpolated : (ntypes : ℕ) → (nodes values : List W) → (nfrac ntot : W) → (i : ℕ) → W
  interpolated ntypes nodes values nfrac ntot i =
      if i == 0
      then between nfrac zero_double (at nodes 0) (at values 0) (at values 2) ntot
      else if i == length nodes
      then between nfrac (at nodes (length nodes - 1)) (d.lit 1 1)
          (at values (ntypes + length nodes - 1)) (at values 1) ntot
      else between nfrac (at nodes (i - 1)) (at nodes i) (at values (ntypes + i - 2))
          (at values (ntypes + i - 1)) ntot

  -- For the numbers of atoms of each type.
  pub chemical_potential_2d :
      (ntypes : ℕ) (nodes : List W) (positions : List ℕ) (values : List W) → W
  unfolding search
  chemical_potential_2d ntypes nodes positions values =
      let first = get_or positions 0 0 in
      let second = get_or positions 1 0 in
      let nfrac = d.lit second 1 ⊘ d.lit (first + second) 1 in
      if d.eq nfrac zero_double || d.eq nfrac (d.lit 1 1) || length nodes == 0
      then d.lit first 1 ⊗ at values 0 ⊕ d.lit second 1 ⊗ at values 1
      else interpolated ntypes nodes values nfrac (d.lit (first + second) 1) (search nfrac nodes)

  pub chemical_potential_1d : List ℕ → List W → W
  chemical_potential_1d positions values = d.lit (get_or positions 0 0) 1 ⊗ at values 0

  -- The loop with `left` types to come, from type `i` on.
  pub sum_from : List ℕ → List W → (left i : ℕ) → W → W
  sum_from positions values zero i temp = temp
  sum_from positions values (suc left) i temp =
      sum_from positions values left (i + 1) (temp ⊕ d.lit (get_or positions i 0) 1 ⊗ at values i)

  pub chemical_potential_multidim : List ℕ → List W → ℕ → W
  unfolding sum_from
  chemical_potential_multidim positions values dim = sum_from positions values dim 0 zero_double

  pub chemical_potential :
      (ntypes : ℕ) (nodes : List W) (dimension : ℕ) (positions : List ℕ) (values : List W) → W
  unfolding chemical_potential_1d chemical_potential_2d chemical_potential_multidim
  chemical_potential ntypes nodes dimension positions values =
      if dimension == 1
      then chemical_potential_1d positions values
      else if dimension == 2
      then chemical_potential_2d ntypes nodes positions values
      else if ltb 2 dimension
      then chemical_potential_multidim positions values dimension
      else zero_double

  pub init_chemical_potential : ℕ → List (Row W) → Option (List (Row W))
  unfolding sort_chem_pot_2d
  init_chemical_potential dim rows = if dim == 2 then sort_chem_pot_2d rows else some rows
