-- ===== src/PotTable/Distances.antt =====
-- `read_pot_table4` of potential_input_f4.c: the tables of a potential file whose sampling points stand
-- beside the values. The columns, cells and marks are those of `read_pot_table3`.
pub mod Monotonous
pub mod Filled
mod Examples
use potfit.Base.{
  ℕ, zero, suc, ◌+◌, ◌-◌, ◌*◌, ◌/◌, Bool, true, false, not, ◌&&◌, ◌||◌, List, [], ◌∷◌, ◌++◌, Option,
  none, some, if◌then◌else◌, ltb, ◌==◌, get_or, replicate, Outcome, ok, exit, ◌>>=◌, ◌>>◌, exit_if,
}
use potfit.Base.Int.{ℤ, pos, negsuc}
use potfit.Base.Double.{Double, gt, zero_double, ◌⊖◌, ◌⊘◌}
use potfit.Build.{Build}
use potfit.PairIndex.{paircol}
use potfit.PotTable.{
  Column, Fscanf, Failure, premature_end, negative_count, insufficient_points, not_monotonous,
  outside, Kind, pair_function, transfer, embedding, dipole, quadrupole, Cells, Marks, marks_of,
  Tables, table_length, push, with_gradient, empty_cells, tables_of,
}

-- `den_count` and `emb_count`.
abbrev pub den_count : Build → ℕ → ℕ
den_count b ntypes =
    if b.tbeam then (if ntypes == 1 then ntypes + 1 else ntypes * (ntypes + 1) / 2) else ntypes

abbrev pub emb_count : Build → ℕ → ℕ
emb_count b ntypes = if b.tbeam then 2 * ntypes else ntypes

-- The functions in the order of the file. There is no loop for MEAM.
pub functions : Build → ℕ → List Kind
functions b ntypes =
    replicate (paircol ntypes) pair_function
    ++ (if b.eam || b.adp
        then replicate (den_count b ntypes) transfer ++ replicate (emb_count b ntypes) embedding
        else [])
    ++ (if b.adp
        then replicate (paircol ntypes) dipole ++ replicate (paircol ntypes) quadrupole
        else [])

-- The embedding functions and the quadrupole functions are free up to the last value.
abbrev pub whole : Kind → Bool
whole embedding = true
whole quadrupole = true
whole _ = false

pub free_value : Kind → (fixed : Bool) → (j nvals : ℕ) → Bool
free_value kind fixed j nvals = not fixed && (whole kind || ltb (j + 1) nvals)

module _ {W F : Type 0} ⦃d : Double W⦄ (c : Fscanf W F) where
  -- The entries for a function behind the info block.
  abbrev pub column_of : ℕ → ℕ → Column W
  column_of first nvals = record {
    begin = zero_double;
    end = zero_double;
    step = zero_double;
    invstep = zero_double;
    first = first;
    last = first + nvals - 1;
    nvals = nvals;
  }

  pub read_info : ℕ → ℕ → F → Outcome Failure (List (Column W) × F)
  read_info zero first file = ok ([], file)
  read_info (suc left) first file = elim (c.scan_count file) [
    | none ↦ exit premature_end
    | some (negsuc below, file') ↦ exit negative_count
    | some (pos nvals, file') ↦
        read_info left (first + nvals - 1 + 3) file'
        >>= (λ r. ok (column_of first nvals ∷ r.0, r.1))
  ]

  abbrev large : W
  large = d.lit 1000000000000000000000000000000 1

  -- The gradients of a function: from the file, or what stands in for them.
  pub read_gradient : Bool → Kind → F → Outcome Failure (W × W × F)
  read_gradient have_gradient kind file =
      if have_gradient
      then elim (c.scan_two file) [ none ↦ exit premature_end | some r ↦ ok r ]
      else ok (large, if whole kind then large else zero_double, file)

  -- A missing value is noticed only where `fscanf` is compared with 2.
  abbrev pub accepted : Kind → Option W → Option W
  accepted kind (some v) = some v
  accepted kind none = if whole kind then some zero_double else none

  -- The loop over the values from `j` on, behind the abscissa `previous`.
  pub read_values :
      Kind → Marks → Column W → (left j : ℕ) → W → Cells W F → Outcome Failure (Cells W F)
  unfolding free_value
  read_values kind m column zero j previous s = ok s
  read_values kind m column (suc left) j previous s = elim (c.scan_pair s.file) [
    | none ↦ exit premature_end
    | some (x, v, file') ↦ elim (accepted kind v) [
      | none ↦ exit premature_end
      | some value ↦
          exit_if (ltb 0 j && d.le x previous) not_monotonous
          >> read_values kind m column left (j + 1) x
              (push c (free_value kind m.fixed j column.nvals) value x (record s { file = file' }))
    ]
  ]

  -- `begin`, `end` and the average step.
  abbrev pub finished : Column W → List W → Column W
  finished column xcoord =
      let begin = get_or xcoord column.first zero_double in
      let end = get_or xcoord column.last zero_double in
      let step = (end ⊖ begin) ⊘ (d.lit column.nvals 1 ⊖ d.lit 1 1) in
      record column { begin = begin; end = end; step = step; invstep = d.lit 1 1 ⊘ step }

  abbrev pub lacks_one : Bool → Kind → Column W → Bool
  lacks_one rescale embedding column =
      not rescale && (gt column.begin (d.lit 1 1) || d.lt column.end (d.lit 1 1))
  lacks_one rescale _ column = false

  -- The body of a loop over functions.
  pub read_function :
      (rescale have_gradient : Bool)
      → Kind
      → Marks
      → Column W
      → Cells W F
      → Outcome Failure (Column W × Cells W F)
  unfolding read_gradient read_values
  read_function rescale have_gradient kind m column s =
      read_gradient have_gradient kind s.file >>= (λ r.
        read_values kind m column column.nvals 0 zero_double
          (with_gradient c m r.0 r.1 (record s { file = r.2 }))
        >>= (λ t.
            exit_if (lacks_one rescale kind (finished column t.xcoord)) insufficient_points
            >> ok (finished column t.xcoord, t)))

  pub read_functions :
      (rescale have_gradient : Bool)
      → List Kind
      → (ℕ → Marks)
      → ℕ
      → List (Column W)
      → Cells W F
      → Outcome Failure (List (Column W) × Cells W F)
  unfolding read_function
  read_functions rescale have_gradient [] marks i columns s = ok (columns, s)
  read_functions rescale have_gradient (kind ∷ kinds) marks i [] s = exit outside
  read_functions rescale have_gradient (kind ∷ kinds) marks i (column ∷ columns) s =
      read_function rescale have_gradient kind (marks i) column s >>= (λ r.
        read_functions rescale have_gradient kinds marks (i + 1) columns r.1
        >>= (λ rest. ok (r.0 ∷ rest.0, rest.1)))

  pub read_pot_table4 :
      Build
      → (rescale have_gradient : Bool) → (ntypes num_pots : ℕ) → (invar_pot gradient : List ℤ) → F
      → Outcome Failure (Tables W)
  unfolding read_info read_functions functions
  read_pot_table4 b rescale have_gradient ntypes num_pots invar_pot gradient file =
      read_info num_pots 2 file >>= (λ r.
        read_functions rescale have_gradient (functions b ntypes)
          (marks_of ntypes invar_pot gradient) 0 r.0 (empty_cells c r.1)
        >>= (λ s. ok (tables_of c s.0 s.1)))
