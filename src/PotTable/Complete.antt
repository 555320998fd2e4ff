-- ===== src/PotTable/Complete.antt =====
-- The tables that `read_pot_table3` returns are filled, and no more than filled.
use potfit.Base.{
  ℕ, ◌+◌, ◌<◌, ◌≡◌, refl, sym, ◌∙◌, Bool, List, [], ◌∷◌, some, get_elem?, length, ok, ◌>>=◌,
  through, All, arith,
}
use potfit.Base.Int.{ℤ}
use potfit.Base.Double.{Double, ◌⊕◌, ◌⊗◌}
use potfit.Base.Snoc.{Below, Increasing}
use potfit.Build.{Build}
use potfit.PotentialHeader.{npots}
use potfit.PotTable.Layout.{IsChained, end_cell, read_info-IsChained, table_length-end_cell}
use potfit.PotTable.Reading.{IsFilled, IsExtended, HasAbscissas, abscissa, read_function-IsGrown}
use potfit.PotTable.{
  Column, Fscanf, Kind, Marks, Cells, Tables, marks_of, functions, read_info, table_length,
  read_function, read_functions, read_pot_table3, tables_of, empty_cells,
}
use potfit.PotTable.Number.{IsTableBuild, functions-npots}

module _ {W F : Type 0} ⦃d : Double W⦄ (c : Fscanf W F) where
  -- The abscissas of a function stand in its cells.
  abbrev IsPlaced : Cells W F → Column W → Type 0
  IsPlaced s column =
      (j : ℕ)
      → j < column.nvals
      → get_elem? s.xcoord (column.first + j) ≡ some (column.begin ⊕ (d.lit j 1 ⊗ column.step))

  HasAbscissas-IsPlaced :
      (t : Cells W F) (a : Column W) (l : ℕ)
      → a.first ≡ l
      → HasAbscissas c a l 0 a.nvals t
      → IsPlaced t a
  HasAbscissas-IsPlaced t a l e has j lt =
      let el : l + j ≡ a.first + j = omega arith in
      let ej : 0 + j ≡ j = omega arith in rw (el, ej) at (has j lt)

  read_functions-IsPlaced :
      (rescale have_gradient : Bool) (kinds : List Kind) (marks : ℕ → Marks) (i : ℕ)
      (columns : List (Column W)) (s t : Cells W F)
      → length kinds ≡ length columns
      → IsChained c (s.l + 2) columns
      → IsFilled c s
      → read_functions c rescale have_gradient kinds marks i columns s ≡ ok t
      → IsFilled c t
        × (t.l + 2 ≡ end_cell c (s.l + 2) columns)
        × IsExtended c s t
        × All (IsPlaced t) columns
  unfolding read_functions
  read_functions-IsPlaced rescale have_gradient [] marks i [] s t h k filled e =
      let same : s ≡ t = cc in rw (← same) (filled, refl, λ j x hx. hx, tt)
  read_functions-IsPlaced rescale have_gradient [] marks i (a ∷ columns) s t h k filled e =
      absurd (omega arith)
  read_functions-IsPlaced rescale have_gradient (kind ∷ kinds) marks i [] s t h k filled e =
      absurd (omega arith)
  read_functions-IsPlaced rescale have_gradient (kind ∷ kinds) marks i (a ∷ columns) s t h
        (first, last, ks) filled e =
      let (u, eu, e') =
        through (read_function c rescale have_gradient kind (marks i) a s)
          (λ u. read_functions c rescale have_gradient kinds marks (i + 1) columns u) t e in
      let (g, has) = read_function-IsGrown c rescale have_gradient kind (marks i) a s u filled eu in
      let next : s.l + 2 + a.nvals + 2 ≡ u.l + 2 = omega (arith, g.grown) in
      let (filled', size, kept, placed) =
        read_functions-IsPlaced rescale have_gradient kinds marks (i + 1) columns u t (omega arith)
          (rw next at ks) g.filled e' in
      (
        filled',
        rw next size,
        λ j x hx. kept j x (g.extended j x hx),
        (
          λ j lt.
              kept (a.first + j) (abscissa c a j)
                (HasAbscissas-IsPlaced u a (s.l + 2) first has j lt),
          placed,
        ),
      )

  -- The tables as a whole.
  pub record IsComplete (num_pots : ℕ) (t : Tables W) : Type 0 where
    pub size : length t.columns ≡ num_pots
    pub chained : IsChained c 2 t.columns
    pub cells : length t.table ≡ t.len
    pub abscissas : length t.xcoord ≡ t.len
    pub inside : Below t.len t.idx
    pub ascending : Increasing t.idx
    pub placed :
        All
          (λ column.
            (j : ℕ)
            → j < column.nvals
            → get_elem? t.xcoord (column.first + j)
              ≡ some (column.begin ⊕ (d.lit j 1 ⊗ column.step)))
          t.columns

  pub empty-IsFilled : {file : F} → IsFilled c (empty_cells c file)
  empty-IsFilled = record {
    cells = refl;
    abscissas = refl;
    inside = λ i a h. cc;
    ascending = λ i j a b lt h k. cc;
  }

  pub end_of_table :
      (columns : List (Column W))
      → IsChained c 2 columns
      → table_length c columns + 2 ≡ end_cell c 2 columns
  unfolding table_length
  end_of_table [] k = refl
  end_of_table (a ∷ columns) k = table_length-end_cell c 2 a columns k

  -- In a binary for tables, for as many functions as the header announces, and for a file in which no
  -- number of values is negative: if `read_pot_table3` returns, the columns lie one behind the other
  -- from cell 2 on, with two cells in front of each; the values and the abscissas that were read fill
  -- exactly the `len` cells of the arrays; the entries of `idx` ascend and are cells; and the cell of the
  -- j-th value of a function has the abscissa `begin + j * step`.
  pub read_pot_table3-IsComplete :
      (b : Build) (rescale have_gradient : Bool) (ntypes : ℕ) (invar_pot gradient : List ℤ)
      (file : F) (t : Tables W)
      → IsTableBuild b
      → read_pot_table3 c b rescale have_gradient ntypes (npots b ntypes) invar_pot gradient file
        ≡ ok t
      → IsComplete (npots b ntypes) t
  unfolding read_pot_table3
  read_pot_table3-IsComplete b rescale have_gradient ntypes invar_pot gradient file t h e =
      let marks = marks_of ntypes invar_pot gradient in
      let n = npots b ntypes in
      let (r, er, e1) =
        through (read_info c n 2 file)
          (λ r.
            read_functions c rescale have_gradient (functions b ntypes) marks 0 r.0
              (empty_cells c r.1)
            >>= (λ s. ok (tables_of c r.0 s)))
          t e in
      let (s, es, e2) =
        through
          (read_functions c rescale have_gradient (functions b ntypes) marks 0 r.0
            (empty_cells c r.1))
          (λ s. ok (tables_of c r.0 s)) t e1 in
      let (chained, size) = read_info-IsChained c n 2 file r.1 r.0 (omega arith) er in
      let (filled, total, kept, placed) =
        read_functions-IsPlaced rescale have_gradient (functions b ntypes) marks 0 r.0
          (empty_cells c r.1) s (functions-npots b ntypes h ∙ sym size) chained empty-IsFilled es in
      let len : s.l ≡ table_length c r.0 = omega (arith, total, end_of_table r.0 chained) in
      let same : tables_of c r.0 s ≡ t = cc in
      rw (← same) record {
        size = size;
        chained = chained;
        cells = filled.cells ∙ len;
        abscissas = filled.abscissas ∙ len;
        inside = rw len at filled.inside;
        ascending = filled.ascending;
        placed = placed;
      }
