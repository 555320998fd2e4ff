-- ===== src/PotTable/Reading.antt =====
-- What the input loop fills, cell by cell.
use potfit.Base.{
  ℕ, zero, suc, ◌+◌, ◌<◌, ◌≡◌, refl, Bool, true, false, not, ◌&&◌, [], ◌∷◌, none, some, get_elem?,
  length, length-append, ok, ◌>>◌, exit_if, through, arith,
}
use potfit.Base.Double.{Double, zero_double, ◌⊕◌, ◌⊗◌}
use potfit.Base.Snoc.{
  get_elem?-snoc_old, get_elem?-snoc_new, Below, Increasing, Below-snoc, Below-suc, Increasing-snoc,
}
use potfit.PotTable.{
  Column, Fscanf, Kind, Marks, Cells, left_bit, right_bit, free_value, push, read_values,
  read_gradient, lacks_one, with_gradient, read_function, insufficient_points,
}

module _ {W F : Type 0} ⦃d : Double W⦄ (c : Fscanf W F) where
  -- `l` counts the cells of both arrays, and `idx` names free cells in order.
  pub record IsFilled (s : Cells W F) : Type 0 where
    pub cells : length s.table ≡ s.l
    pub abscissas : length s.xcoord ≡ s.l
    pub inside : Below s.l s.idx
    pub ascending : Increasing s.idx

  -- The abscissas of `s` are those of `t`, as far as they go.
  abbrev pub IsExtended : Cells W F → Cells W F → Type 0
  IsExtended s t = (k : ℕ) (x : W) → get_elem? s.xcoord k ≡ some x → get_elem? t.xcoord k ≡ some x

  pub push-IsFilled :
      (free : Bool) (value x : W) (s : Cells W F) → IsFilled s → IsFilled (push c free value x s)
  unfolding push
  push-IsFilled true value x s k = record {
    cells = omega (arith, length-append s.table (value ∷ []), k.cells);
    abscissas = omega (arith, length-append s.xcoord (x ∷ []), k.abscissas);
    inside = Below-snoc s.l s.idx k.inside;
    ascending = Increasing-snoc s.l s.idx k.inside k.ascending;
  }
  push-IsFilled false value x s k = record {
    cells = omega (arith, length-append s.table (value ∷ []), k.cells);
    abscissas = omega (arith, length-append s.xcoord (x ∷ []), k.abscissas);
    inside = Below-suc s.l s.idx k.inside;
    ascending = k.ascending;
  }

  pub push-IsExtended :
      (free : Bool) (value x : W) (s : Cells W F) → IsExtended s (push c free value x s)
  unfolding push
  push-IsExtended free value x s k y h = get_elem?-snoc_old s.xcoord x k h

  pub push-cell :
      (free : Bool) (value x : W) (s : Cells W F)
      → IsFilled s
      → get_elem? (push c free value x s).xcoord s.l ≡ some x
  unfolding push
  push-cell free value x s k = rw (← k.abscissas) (get_elem?-snoc_new s.xcoord x)

  -- What a loop over `count` cells makes of `s`.
  pub record IsGrown (count : ℕ) (s t : Cells W F) : Type 0 where
    pub filled : IsFilled t
    pub grown : t.l ≡ s.l + count
    pub extended : IsExtended s t

  abbrev pub abscissa : Column W → ℕ → W
  abscissa column j = column.begin ⊕ (d.lit j 1 ⊗ column.step)

  -- The values of a function from `j` on stand from `l` on.
  abbrev pub HasAbscissas : Column W → (l j count : ℕ) → Cells W F → Type 0
  HasAbscissas column l j count t =
      (i : ℕ) → i < count → get_elem? t.xcoord (l + i) ≡ some (abscissa column (j + i))

  pub push_count : (free : Bool) (value x : W) (s : Cells W F) → (push c free value x s).l ≡ s.l + 1
  unfolding push
  push_count free value x s = refl

  HasAbscissas-cons :
      (column : Column W) (l j count : ℕ) (t : Cells W F)
      → get_elem? t.xcoord l ≡ some (abscissa column j)
      → HasAbscissas column (l + 1) (j + 1) count t
      → HasAbscissas column l j (suc count) t
  HasAbscissas-cons column l j count t h has zero lt =
      let el : l ≡ l + 0 = omega arith in let ej : j ≡ j + 0 = omega arith in rw (el, ej) at h
  HasAbscissas-cons column l j count t h has (suc i) lt =
      let el : l + 1 + i ≡ l + suc i = omega arith in
      let ej : j + 1 + i ≡ j + suc i = omega arith in rw (el, ej) at (has i (omega arith))

  read_values-IsGrown :
      (kind : Kind) (m : Marks) (column : Column W) (left j : ℕ) (s t : Cells W F)
      → IsFilled s
      → read_values c kind m column left j s ≡ ok t
      → IsGrown left s t × HasAbscissas column s.l j left t
  unfolding read_values
  read_values-IsGrown kind m column zero j s t k e =
      let same : s ≡ t = cc in
      rw (← same) (
        record { filled = k; grown = omega arith; extended = λ i x h. h },
        λ i h. absurd (omega arith),
      )
  read_values-IsGrown kind m column (suc left) j s t k e =
      elim (c.scan_one s.file)
          as (λ r.
            c.scan_one s.file ≡ r
            → IsGrown (suc left) s t × HasAbscissas column s.l j (suc left) t) [
              | none ↦ λ er. cc (rw (er, read_values) at e)
              | some (value, file') ↦ λ er.
                  let s₁ : Cells W F = record s { file = file' } in
                  let k₁ : IsFilled s₁ = record {
                    cells = k.cells;
                    abscissas = k.abscissas;
                    inside = k.inside;
                    ascending = k.ascending;
                  } in
                  let free = free_value kind m.fixed m.clamped j column.nvals in
                  let u = push c free value (abscissa column j) s₁ in
                  let (g, has) =
                    read_values-IsGrown kind m column left (j + 1) u t
                      (push-IsFilled free value (abscissa column j) s₁ k₁)
                      (rw (er, read_values) at e) in
                  let lu : u.l ≡ s.l + 1 = push_count free value (abscissa column j) s₁ in
                  (
                    record {
                      filled = g.filled;
                      grown = omega (arith, g.grown, lu);
                      extended = λ i x h.
                          g.extended i x (push-IsExtended free value (abscissa column j) s₁ i x h);
                    },
                    HasAbscissas-cons column s.l j left t
                        (g.extended s.l (abscissa column j)
                          (push-cell free value (abscissa column j) s₁ k₁))
                        (rw lu at has),
                  )
            ]
        refl

  pub with_gradient-IsGrown :
      (m : Marks) (a b : W) (s : Cells W F) → IsFilled s → IsGrown 2 s (with_gradient c m a b s)
  unfolding with_gradient
  with_gradient-IsGrown m a b s k =
      let free = not m.fixed && left_bit m.gradient in
      let free' = not m.fixed && right_bit m.gradient in
      let u = push c free a zero_double s in
      record {
        filled = push-IsFilled free' b zero_double u (push-IsFilled free a zero_double s k);
        grown = omega (arith, push_count free a zero_double s, push_count free' b zero_double u);
        extended = λ i x h.
            push-IsExtended free' b zero_double u i x (push-IsExtended free a zero_double s i x h);
      }

  pub IsGrown-trans :
      (n n' : ℕ) (s t u : Cells W F) → IsGrown n s t → IsGrown n' t u → IsGrown (n + n') s u
  IsGrown-trans n n' s t u g g' = record {
    filled = g'.filled;
    grown = omega (arith, g.grown, g'.grown);
    extended = λ i x h. g'.extended i x (g.extended i x h);
  }

  pub read_function-IsGrown :
      (rescale have_gradient : Bool) (kind : Kind) (m : Marks) (column : Column W) (s t : Cells W F)
      → IsFilled s
      → read_function c rescale have_gradient kind m column s ≡ ok t
      → IsGrown (2 + column.nvals) s t × HasAbscissas column (s.l + 2) 0 column.nvals t
  unfolding read_function
  read_function-IsGrown rescale have_gradient kind m column s t k e =
      let (r, er, e') =
        through
          (exit_if (lacks_one c rescale kind column) insufficient_points
            >> read_gradient c have_gradient kind s.file)
          (λ r.
            read_values c kind m column column.nvals 0
              (with_gradient c m r.0 r.1 (record s { file = r.2 })))
          t e in
      let s₁ : Cells W F = record s { file = r.2 } in
      let k₁ : IsFilled s₁ = record {
        cells = k.cells;
        abscissas = k.abscissas;
        inside = k.inside;
        ascending = k.ascending;
      } in
      let g : IsGrown 2 s₁ (with_gradient c m r.0 r.1 s₁) = with_gradient-IsGrown m r.0 r.1 s₁ k₁ in
      let (g', has) =
        read_values-IsGrown kind m column column.nvals 0 (with_gradient c m r.0 r.1 s₁) t g.filled
          e' in
      let both : IsGrown (2 + column.nvals) s₁ t =
        IsGrown-trans 2 column.nvals s₁ (with_gradient c m r.0 r.1 s₁) t g g' in
      (
        record { filled = both.filled; grown = both.grown; extended = both.extended },
        rw g.grown at has,
      )
