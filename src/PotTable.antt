-- ===== src/PotTable.antt =====
-- `read_pot_table3` of potential_input_f3.c: the tables of a potential file with equidistant sampling
-- points. The calls of `fscanf` are the argument `c`. The arrays of `pot_table_t` that have an entry for
-- each function are one list of columns. The code does not refuse a negative number of points: it goes on
-- and writes in front of and behind its arrays; here such a file ends with `negative_count`, which is no
-- error of the code. MEAMf, with which the file does not compile, is left out.
pub mod Layout
pub mod Reading
pub mod Number
pub mod Complete
mod Examples
pub mod Distances
use potfit.Base.{
  ℕ, zero, suc, ◌+◌, ◌-◌, ◌*◌, ◌/◌, ◌%◌, Bool, true, false, not, ◌&&◌, ◌||◌, List, [], ◌∷◌, ◌++◌,
  Option, none, some, if◌then◌else◌, ltb, ◌==◌, get_or, replicate, Outcome, ok, exit, ◌>>=◌, ◌>>◌,
  exit_if,
}
use potfit.Base.Int.{ℤ, pos, negsuc, eq_ℤ}
use potfit.Base.Double.{Double, gt, zero_double, ◌⊕◌, ◌⊖◌, ◌⊗◌, ◌⊘◌}
use potfit.Build.{Build, embedded}
use potfit.PairIndex.{paircol}

-- The entries of `pot_table_t` for one function, and `nvals`.
pub record Column (W : Type 0) : Type 0 where
  pub begin : W
  pub end : W
  pub step : W
  pub invstep : W
  pub first : ℕ
  pub last : ℕ
  pub nvals : ℕ

-- `none` where `fscanf` converts less than is asked for; `scan_pair` may convert the first number only.
pub record Fscanf (W F : Type 0) : Type 0 where
  pub scan_info : F → Option (W × W × ℤ × F)
  pub scan_two : F → Option (W × W × F)
  pub scan_one : F → Option (W × F)
  pub scan_count : F → Option (ℤ × F)
  pub scan_pair : F → Option (W × Option W × F)

-- `negative_count` is outside the model: the code takes a negative `nvals` as it is and goes on.
pub data Failure : Type 0 where
  premature_end : Failure
  negative_count : Failure
  insufficient_points : Failure
  not_monotonous : Failure
  outside : Failure

-- The loops over the functions: what a function of each has for missing gradients, and which of its
-- values may change.
pub data Kind : Type 0 where
  pair_function : Kind
  transfer : Kind
  embedding : Kind
  transfer_s : Kind
  embedding_s : Kind
  dipole : Kind
  quadrupole : Kind
  second_pair : Kind
  angular : Kind

-- The loops of EAM, ADP and MEAM, with those of TBEAM.
abbrev pub embedded_functions : Build → ℕ → List Kind
embedded_functions b ntypes =
    replicate ntypes transfer
    ++ (replicate ntypes embedding
        ++ (if b.tbeam then replicate ntypes transfer_s ++ replicate ntypes embedding_s else []))

-- The loops of ADP only, and those of MEAM only.
abbrev pub adp_functions : ℕ → List Kind
adp_functions ntypes = replicate (paircol ntypes) dipole ++ replicate (paircol ntypes) quadrupole

abbrev pub meam_functions : ℕ → List Kind
meam_functions ntypes = replicate (paircol ntypes) second_pair ++ replicate ntypes angular

-- The functions in the order of the file, one loop behind the other.
pub functions : Build → ℕ → List Kind
functions b ntypes =
    replicate (paircol ntypes) pair_function
    ++ (if embedded b then embedded_functions b ntypes else [])
    ++ (if b.adp then adp_functions ntypes else [])
    ++ (if b.meam then meam_functions ntypes else [])

-- `gradient[i] >> 1` and `gradient[i] % 2` as conditions.
abbrev pub left_bit : ℤ → Bool
left_bit (pos n) = ltb 0 (n / 2)
left_bit (negsuc n) = true

abbrev pub right_bit : ℤ → Bool
right_bit (pos n) = ltb 0 (n % 2)
right_bit (negsuc n) = ltb 0 ((n + 1) % 2)

-- `(!g_pot.invar_pot[i]) && ...`, the condition of a value to be free.
pub free_value : Kind → (fixed clamped : Bool) → (j nvals : ℕ) → Bool
free_value embedding fixed clamped j nvals = not fixed
free_value embedding_s fixed clamped j nvals = not fixed
free_value angular fixed clamped j nvals = not fixed
free_value second_pair fixed clamped j nvals =
    not fixed && (ltb (j + 1) nvals && (not (j == 0) || not clamped))
free_value pair_function fixed clamped j nvals = not fixed && ltb (j + 1) nvals
free_value transfer fixed clamped j nvals = not fixed && ltb (j + 1) nvals
free_value transfer_s fixed clamped j nvals = not fixed && ltb (j + 1) nvals
free_value dipole fixed clamped j nvals = not fixed && ltb (j + 1) nvals
free_value quadrupole fixed clamped j nvals = not fixed && ltb (j + 1) nvals

-- The variables of the input loop: the cells up to `val` and `l`, the entries of `idx` up to `k`.
pub record Cells (W F : Type 0) : Type 0 where
  pub table : List W
  pub xcoord : List W
  pub idx : List ℕ
  pub l : ℕ
  pub file : F

-- What is known of a function: `invar_pot[i]`, `gradient[i]`, and `i == paircol + 2 * ntypes`.
pub record Marks : Type 0 where
  pub fixed : Bool
  pub gradient : ℤ
  pub clamped : Bool

abbrev pub marks_of : ℕ → List ℤ → List ℤ → ℕ → Marks
marks_of ntypes invar_pot gradient i = record {
  fixed = not (eq_ℤ (get_or invar_pot i (pos 0)) (pos 0));
  gradient = get_or gradient i (pos 0);
  clamped = i == paircol ntypes + 2 * ntypes;
}

pub record Tables (W : Type 0) : Type 0 where
  pub columns : List (Column W)
  pub len : ℕ
  pub table : List W
  pub xcoord : List W
  pub idx : List ℕ

module _ {W F : Type 0} ⦃d : Double W⦄ (c : Fscanf W F) where
  -- The entries for a function.
  abbrev pub column_of : ℕ → W → W → ℕ → Column W
  column_of first b e nvals =
      let step = (e ⊖ b) ⊘ (d.lit nvals 1 ⊖ d.lit 1 1) in
      record {
        begin = b;
        end = e;
        step = step;
        invstep = d.lit 1 1 ⊘ step;
        first = first;
        last = first + nvals - 1;
        nvals = nvals;
      }

  -- The info block, from the function on whose first value has the cell `first`.
  pub read_info : ℕ → ℕ → F → Outcome Failure (List (Column W) × F)
  read_info zero first file = ok ([], file)
  read_info (suc left) first file = elim (c.scan_info file) [
    | none ↦ exit premature_end
    | some (b, e, negsuc below, file') ↦ exit negative_count
    | some (b, e, pos nvals, file') ↦
        read_info left (first + nvals - 1 + 3) file'
        >>= (λ r. ok (column_of first b e nvals ∷ r.0, r.1))
  ]

  -- `pt->len` behind the info block.
  pub table_length : List (Column W) → ℕ
  table_length [] = 0
  table_length (a ∷ []) = a.first + a.nvals
  table_length (a ∷ b ∷ columns) = table_length (b ∷ columns)

  abbrev large : W
  large = d.lit 1000000000000000000000000000000 1

  -- The two cells in front of a function without gradients in the file.
  pub no_gradient : Kind → W × W
  no_gradient embedding = (large, large)
  no_gradient embedding_s = (large, large)
  no_gradient quadrupole = (large, large)
  no_gradient angular = (zero_double, zero_double)
  no_gradient pair_function = (large, zero_double)
  no_gradient transfer = (large, zero_double)
  no_gradient transfer_s = (large, zero_double)
  no_gradient dipole = (large, zero_double)
  no_gradient second_pair = (large, zero_double)

  -- `if (free) idx[k++] = l++; else l++;` for a cell with its value and its abscissa.
  pub push : Bool → W → W → Cells W F → Cells W F
  push free value x s = record s {
    table = s.table ++ (value ∷ []);
    xcoord = s.xcoord ++ (x ∷ []);
    idx = if free then s.idx ++ (s.l ∷ []) else s.idx;
    l = s.l + 1;
  }

  -- The loop over the values of a function, from `j` on. The abscissas of the gradients stay 0.
  pub read_values : Kind → Marks → Column W → (left j : ℕ) → Cells W F → Outcome Failure (Cells W F)
  unfolding push free_value
  read_values kind m column zero j s = ok s
  read_values kind m column (suc left) j s = elim (c.scan_one s.file) [
    | none ↦ exit premature_end
    | some (value, file') ↦ read_values kind m column left (j + 1) (
        push (free_value kind m.fixed m.clamped j column.nvals) value
          (column.begin ⊕ (d.lit j 1 ⊗ column.step)) (record s { file = file' }))
  ]

  abbrev pub read_gradient : Bool → Kind → F → Outcome Failure (W × W × F)
  read_gradient have_gradient kind file =
      if have_gradient
      then elim (c.scan_two file) [ none ↦ exit premature_end | some r ↦ ok r ]
      else ok ((no_gradient kind).0, (no_gradient kind).1, file)

  -- `begin[i] > 1.0 || end[i] < 1.0` for an embedding function of a binary without RESCALE.
  abbrev pub lacks_one : Bool → Kind → Column W → Bool
  lacks_one rescale embedding column =
      not rescale && (gt column.begin (d.lit 1 1) || d.lt column.end (d.lit 1 1))
  lacks_one rescale _ column = false

  pub with_gradient : Marks → W → W → Cells W F → Cells W F
  unfolding push
  with_gradient m a b s =
      push (not m.fixed && right_bit m.gradient) b zero_double
        (push (not m.fixed && left_bit m.gradient) a zero_double s)

  -- The body of a loop over functions.
  pub read_function :
      (rescale have_gradient : Bool)
      → Kind
      → Marks
      → Column W
      → Cells W F
      → Outcome Failure (Cells W F)
  unfolding read_values with_gradient no_gradient
  read_function rescale have_gradient kind m column s =
      exit_if (lacks_one rescale kind column) insufficient_points
      >> read_gradient have_gradient kind s.file
      >>= (λ r.
          read_values kind m column column.nvals 0
            (with_gradient m r.0 r.1 (record s { file = r.2 })))

  -- All functions, with their columns.
  pub read_functions :
      (rescale have_gradient : Bool)
      → List Kind
      → (ℕ → Marks)
      → ℕ
      → List (Column W)
      → Cells W F
      → Outcome Failure (Cells W F)
  unfolding read_function
  read_functions rescale have_gradient [] marks i columns s = ok s
  read_functions rescale have_gradient (kind ∷ kinds) marks i [] s = exit outside
  read_functions rescale have_gradient (kind ∷ kinds) marks i (column ∷ columns) s =
      read_function rescale have_gradient kind (marks i) column s
      >>= (λ t. read_functions rescale have_gradient kinds marks (i + 1) columns t)

  abbrev pub empty_cells : F → Cells W F
  empty_cells file = record { table = []; xcoord = []; idx = []; l = 0; file = file }

  abbrev pub tables_of : List (Column W) → Cells W F → Tables W
  tables_of columns s = record {
    columns = columns;
    len = table_length columns;
    table = s.table;
    xcoord = s.xcoord;
    idx = s.idx;
  }

  pub read_pot_table3 :
      Build
      → (rescale have_gradient : Bool) → (ntypes num_pots : ℕ) → (invar_pot gradient : List ℤ) → F
      → Outcome Failure (Tables W)
  unfolding read_info read_functions table_length functions
  read_pot_table3 b rescale have_gradient ntypes num_pots invar_pot gradient file =
      read_info num_pots 2 file >>= (λ r.
        read_functions rescale have_gradient (functions b ntypes)
          (marks_of ntypes invar_pot gradient) 0 r.0 (empty_cells r.1)
        >>= (λ s. ok (tables_of r.0 s)))
