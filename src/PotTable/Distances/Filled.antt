-- ===== src/PotTable/Distances/Filled.antt =====
-- The tables that `read_pot_table4` returns are filled, and the abscissas of every function ascend.
use potfit.Base.{
  ℕ, zero, suc, ◌+◌, ◌-◌, ◌≤◌, ◌≡◌, refl, sym, ap, ◌∙◌, Bool, List, [], ◌∷◌, none, some, length, ok,
  ◌>>=◌, through, All, arith,
}
use potfit.Base.Int.{ℤ, pos, negsuc}
use potfit.Base.Double.{Double, zero_double}
use potfit.Base.Snoc.{Below, Increasing}
use potfit.Build.{Build}
use potfit.PotTable.{Column, Fscanf, Cells, Tables, marks_of, table_length, empty_cells, tables_of}
use potfit.PotTable.Layout.{IsChained}
use potfit.PotTable.Complete.{end_of_table, empty-IsFilled}
use potfit.PotTable.Distances.Monotonous.{Ascends, IsRead, read_functions-IsRead}
use potfit.PotTable.Distances.{column_of, read_info, read_functions, functions, read_pot_table4}

module _ {W F : Type 0} ⦃d : Double W⦄ (c : Fscanf W F) where
  read_info-IsChained :
      (n first : ℕ) (file file' : F) (columns : List (Column W))
      → 2 ≤ first
      → read_info c n first file ≡ ok (columns, file')
      → IsChained c first columns × (length columns ≡ n)
  unfolding read_info
  read_info-IsChained zero first file file' columns h e =
      let same : [] ≡ columns = cc in rw (← same) (tt, refl)
  read_info-IsChained (suc n) first file file' columns h e =
      elim (c.scan_count file)
          as (λ r. c.scan_count file ≡ r → IsChained c first columns × (length columns ≡ suc n)) [
            | none ↦ λ er. cc (rw (er, read_info) at e)
            | some (negsuc below, file1) ↦ λ er. cc (rw (er, read_info) at e)
            | some (pos nvals, file1) ↦ λ er.
                let (r, er', same) =
                  through (read_info c n (first + nvals - 1 + 3) file1)
                    (λ r. ok (column_of c first nvals ∷ r.0, r.1)) (columns, file')
                    (rw (er, read_info) at e) in
                let (chained, size) =
                  read_info-IsChained n (first + nvals - 1 + 3) file1 r.1 r.0 (omega arith) er' in
                let next : first + nvals - 1 + 3 ≡ first + nvals + 2 = omega arith in
                let same' : column_of c first nvals ∷ r.0 ≡ columns = cc in
                rw (← same') ((refl, omega arith, rw next at chained), ap suc size)
          ]
        refl

  -- The tables as a whole.
  pub record IsMonotonous (num_pots : ℕ) (t : Tables W) : Type 0 where
    pub size : length t.columns ≡ num_pots
    pub chained : IsChained c 2 t.columns
    pub cells : length t.table ≡ t.len
    pub abscissas : length t.xcoord ≡ t.len
    pub inside : Below t.len t.idx
    pub ascending : Increasing t.idx
    pub ordered :
        All (λ column. Ascends c t.xcoord 0 column.first column.nvals zero_double) t.columns

  IsMonotonous-at : (n : ℕ) (t t' : Tables W) → t ≡ t' → IsMonotonous n t → IsMonotonous n t'
  IsMonotonous-at n t t' e h = rw (← e) h

  tables-IsMonotonous :
      (n : ℕ) (columns : List (Column W)) (s : Cells W F) {file : F}
      → length columns ≡ n
      → IsRead c (empty_cells c file) columns s
      → IsMonotonous n (tables_of c columns s)
  tables-IsMonotonous n columns s size k =
      let len : s.l ≡ table_length c columns =
        omega (arith, k.total, end_of_table c columns k.chained) in
      record {
        size = size;
        chained = k.chained;
        cells = k.filled.cells ∙ len;
        abscissas = k.filled.abscissas ∙ len;
        inside = rw len at k.filled.inside;
        ascending = k.filled.ascending;
        ordered = k.ordered;
      }

  -- For a file in which no number of values is negative: if the loops are over as many functions as the
  -- header announces, and `read_pot_table4` returns, the columns lie one behind the other from cell 2
  -- on, with two cells in front of each; the values and the abscissas that were read fill exactly the
  -- `len` cells of the arrays; the entries of `idx` ascend and are cells; and no abscissa of a function
  -- is at most the one before it.
  pub read_pot_table4-IsMonotonous :
      (b : Build) (rescale have_gradient : Bool) (ntypes num_pots : ℕ) (invar_pot gradient : List ℤ)
      (file : F) (t : Tables W)
      → length (functions b ntypes) ≡ num_pots
      → read_pot_table4 c b rescale have_gradient ntypes num_pots invar_pot gradient file ≡ ok t
      → IsMonotonous num_pots t
  unfolding read_pot_table4
  read_pot_table4-IsMonotonous b rescale have_gradient ntypes num_pots invar_pot gradient file t h
        e =
      let marks = marks_of ntypes invar_pot gradient in
      let (r, er, e1) =
        through (read_info c num_pots 2 file)
          (λ r.
            read_functions c rescale have_gradient (functions b ntypes) marks 0 r.0
              (empty_cells c r.1)
            >>= (λ s. ok (tables_of c s.0 s.1)))
          t e in
      let (s, es, e2) =
        through
          (read_functions c rescale have_gradient (functions b ntypes) marks 0 r.0
            (empty_cells c r.1))
          (λ s. ok (tables_of c s.0 s.1)) t e1 in
      let (chained, size) = read_info-IsChained num_pots 2 file r.1 r.0 (omega arith) er in
      let (read, size') =
        read_functions-IsRead c rescale have_gradient (functions b ntypes) marks 0 r.0 s.0
          (empty_cells c r.1) s.1 (h ∙ sym size) chained (empty-IsFilled c) es in
      let same : tables_of c s.0 s.1 ≡ t = cc in
      IsMonotonous-at num_pots (tables_of c s.0 s.1) t same
        (tables-IsMonotonous num_pots s.0 s.1 (size' ∙ size) read)
