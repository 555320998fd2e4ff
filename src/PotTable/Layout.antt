-- ===== src/PotTable/Layout.antt =====
-- The places that the info block gives to the functions.
use potfit.Base.{
  ℕ, zero, suc, ◌+◌, ◌-◌, ◌≤◌, ◌≡◌, refl, ap, List, [], ◌∷◌, none, some, length, ok, through, arith,
}
use potfit.Base.Int.{pos, negsuc}
use potfit.Base.Double.{Double}
use potfit.PotTable.{Column, Fscanf, column_of, read_info, table_length}

module _ {W F : Type 0} ⦃d : Double W⦄ (c : Fscanf W F) where
  -- Every function has two cells for its gradients and then its values, and begins where the one
  -- before it ends; the first value of the first has the cell `first`.
  abbrev pub IsChained : ℕ → List (Column W) → Type 0
  IsChained first [] = Unit
  IsChained first (a ∷ columns) =
      (a.first ≡ first) × (a.last + 1 ≡ a.first + a.nvals) × IsChained (first + a.nvals + 2) columns

  -- The cell behind all functions, and two more.
  abbrev pub end_cell : ℕ → List (Column W) → ℕ
  end_cell first [] = first
  end_cell first (a ∷ columns) = end_cell (first + a.nvals + 2) columns

  pub read_info-IsChained :
      (n first : ℕ) (file file' : F) (columns : List (Column W))
      → 2 ≤ first
      → read_info c n first file ≡ ok (columns, file')
      → IsChained first columns × (length columns ≡ n)
  unfolding read_info
  read_info-IsChained zero first file file' columns h e =
      let same : [] ≡ columns = cc in rw (← same) (tt, refl)
  read_info-IsChained (suc n) first file file' columns h e =
      elim (c.scan_info file)
          as (λ r. c.scan_info file ≡ r → IsChained first columns × (length columns ≡ suc n)) [
            | none ↦ λ er. cc (rw (er, read_info) at e)
            | some (b, e', negsuc below, file1) ↦ λ er. cc (rw (er, read_info) at e)
            | some (b, e', pos nvals, file1) ↦ λ er.
                let column = column_of c first b e' nvals in
                let (r, er', same) =
                  through (read_info c n (first + nvals - 1 + 3) file1)
                    (λ r. ok (column ∷ r.0, r.1)) (columns, file') (rw (er, read_info) at e) in
                let (chained, size) =
                  read_info-IsChained n (first + nvals - 1 + 3) file1 r.1 r.0 (omega arith) er' in
                let next : first + nvals - 1 + 3 ≡ first + nvals + 2 = omega arith in
                let same' : column ∷ r.0 ≡ columns = cc in
                rw (← same') ((refl, omega arith, rw next at chained), ap suc size)
          ]
        refl

  pub table_length-end_cell :
      (first : ℕ) (a : Column W) (columns : List (Column W))
      → IsChained first (a ∷ columns)
      → table_length c (a ∷ columns) + 2 ≡ end_cell first (a ∷ columns)
  unfolding table_length
  table_length-end_cell first a [] (e, k, ks) = rw e refl
  table_length-end_cell first a (b ∷ columns) (e, k, ks) =
      table_length-end_cell (first + a.nvals + 2) b columns ks
