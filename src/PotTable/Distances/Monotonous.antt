-- ===== src/PotTable/Distances/Monotonous.antt =====
-- What the input loops of `read_pot_table4` fill, and that the abscissas of every function ascend.
use potfit.Base.{
  ℕ, zero, suc, ◌+◌, ◌<◌, ◌≡◌, refl, sym, ap, ◌∙◌, Bool, false, ◌&&◌, List, [], ◌∷◌, none, some,
  get_elem?, length, ltb, Outcome, ok, ◌>>=◌, ◌>>◌, exit_if, through, passed, All, arith,
}
use potfit.Base.Double.{Double, zero_double}
use potfit.PotTable.{
  Column, Fscanf, Failure, insufficient_points, not_monotonous, Kind, Marks, Cells, push,
  with_gradient,
}
use potfit.PotTable.Layout.{IsChained, end_cell}
use potfit.PotTable.Reading.{
  IsFilled, IsExtended, IsGrown, push-IsFilled, push-IsExtended, push-cell, push_count,
  with_gradient-IsGrown, IsGrown-trans,
}
use potfit.PotTable.Distances.{
  accepted, free_value, read_gradient, read_values, finished, lacks_one, read_function,
  read_functions,
}

module _ {W F : Type 0} ⦃d : Double W⦄ (c : Fscanf W F) where
  -- The abscissas from cell `l` on are there, `count` of them, and each but the 0th is above the one
  -- before it, the j-th above `previous`.
  abbrev pub Ascends : List W → (j l count : ℕ) → W → Type 0
  Ascends xcoord j l zero previous = Unit
  Ascends xcoord j l (suc count) previous =
      (x : W) × (get_elem? xcoord l ≡ some x)
      × (0 < j → d.le x previous ≡ false)
      × Ascends xcoord (j + 1) (l + 1) count x

  Ascends-kept :
      (s t : Cells W F) (j l count : ℕ) (previous : W)
      → IsExtended c s t
      → Ascends s.xcoord j l count previous
      → Ascends t.xcoord j l count previous
  Ascends-kept s t j l zero previous h a = tt
  Ascends-kept s t j l (suc count) previous h (x, e, above, rest) =
      (x, h l x e, above, Ascends-kept s t (j + 1) (l + 1) count x h rest)

  tested : (j : ℕ) (b : Bool) → (ltb 0 j && b) ≡ false → 0 < j → b ≡ false
  tested j b h lt = ground arith

  read_values-Ascends :
      (kind : Kind) (m : Marks) (column : Column W) (left j : ℕ) (previous : W) (s t : Cells W F)
      → IsFilled c s
      → read_values c kind m column left j previous s ≡ ok t
      → IsGrown c left s t × Ascends t.xcoord j s.l left previous
  unfolding read_values
  read_values-Ascends kind m column zero j previous s t k e =
      let same : s ≡ t = cc in
      rw (← same) (record { filled = k; grown = omega arith; extended = λ i x h. h }, tt)
  read_values-Ascends kind m column (suc left) j previous s t k e =
      elim (c.scan_pair s.file)
          as (λ r.
            c.scan_pair s.file ≡ r
            → IsGrown c (suc left) s t × Ascends t.xcoord j s.l (suc left) previous) [
              | none ↦ λ er. cc (rw (er, read_values) at e)
              | some (x, v, file') ↦ λ er.
                  elim (accepted c kind v)
                      as (λ w.
                        accepted c kind v ≡ w
                        → IsGrown c (suc left) s t × Ascends t.xcoord j s.l (suc left) previous) [
                          | none ↦ λ ew. cc (rw (er, ew, read_values) at e)
                          | some value ↦ λ ew.
                              let s₁ : Cells W F = record s { file = file' } in
                              let k₁ : IsFilled c s₁ = record {
                                cells = k.cells;
                                abscissas = k.abscissas;
                                inside = k.inside;
                                ascending = k.ascending;
                              } in
                              let free = free_value kind m.fixed j column.nvals in
                              let u = push c free value x s₁ in
                              let (fine, e') =
                                passed (ltb 0 j && d.le x previous) not_monotonous
                                  (rw (er, ew, read_values) at e) in
                              let (g, rest) =
                                read_values-Ascends kind m column left (j + 1) x u t
                                  (push-IsFilled c free value x s₁ k₁) e' in
                              let lu : u.l ≡ s.l + 1 = push_count c free value x s₁ in
                              (
                                record {
                                  filled = g.filled;
                                  grown = omega (arith, g.grown, lu);
                                  extended = λ i y h.
                                      g.extended i y (push-IsExtended c free value x s₁ i y h);
                                },
                                (
                                  x,
                                  g.extended s.l x (push-cell c free value x s₁ k₁),
                                  tested j (d.le x previous) fine,
                                  rw lu at rest,
                                ),
                              )
                        ]
                    refl
            ]
        refl

  read_function-Ascends :
      (rescale have_gradient : Bool) (kind : Kind) (m : Marks) (column column' : Column W)
      (s t : Cells W F)
      → IsFilled c s
      → read_function c rescale have_gradient kind m column s ≡ ok (column', t)
      → IsGrown c (2 + column.nvals) s t
        × Ascends t.xcoord 0 (s.l + 2) column.nvals zero_double
        × (column' ≡ finished c column t.xcoord)
  unfolding read_function
  read_function-Ascends rescale have_gradient kind m column column' s t k e =
      let values : W × W × F → Outcome Failure (Cells W F) = λ r.
        read_values c kind m column column.nvals 0 zero_double
          (with_gradient c m r.0 r.1 (record s { file = r.2 })) in
      let close : Cells W F → Outcome Failure (Column W × Cells W F) = λ t.
        exit_if (lacks_one c rescale kind (finished c column t.xcoord)) insufficient_points
        >> ok (finished c column t.xcoord, t) in
      let (r, er, e1) =
        through (read_gradient c have_gradient kind s.file) (λ r. values r >>= close) (column', t)
          e in
      let (u, eu, e2) = through (values r) close (column', t) e1 in
      let (_, e3) =
        passed (lacks_one c rescale kind (finished c column u.xcoord)) insufficient_points e2 in
      let same : u ≡ t = cc in
      let s₁ : Cells W F = record s { file = r.2 } in
      let k₁ : IsFilled c s₁ = record {
        cells = k.cells;
        abscissas = k.abscissas;
        inside = k.inside;
        ascending = k.ascending;
      } in
      let g : IsGrown c 2 s₁ (with_gradient c m r.0 r.1 s₁) =
        with_gradient-IsGrown c m r.0 r.1 s₁ k₁ in
      let (g', a) =
        read_values-Ascends kind m column column.nvals 0 zero_double (with_gradient c m r.0 r.1 s₁)
          u g.filled eu in
      let both = IsGrown-trans c 2 column.nvals s₁ (with_gradient c m r.0 r.1 s₁) u g g' in
      rw (← same) (
        record { filled = both.filled; grown = both.grown; extended = both.extended },
        rw g.grown at a,
        cc,
      )

  -- The abscissas of a column ascend.
  abbrev IsOrdered : List W → Column W → Type 0
  IsOrdered xcoord column = Ascends xcoord 0 column.first column.nvals zero_double

  -- What the loops over functions make of the columns and cells.
  pub record IsRead (s : Cells W F) (columns : List (Column W)) (t : Cells W F) : Type 0 where
    pub filled : IsFilled c t
    pub total : t.l + 2 ≡ end_cell c (s.l + 2) columns
    pub extended : IsExtended c s t
    pub chained : IsChained c (s.l + 2) columns
    pub ordered : All (IsOrdered t.xcoord) columns

  IsRead-at :
      (s : Cells W F) (columns columns' : List (Column W)) (t t' : Cells W F)
      → columns ≡ columns'
      → t ≡ t'
      → IsRead s columns t
      → IsRead s columns' t'
  IsRead-at s columns columns' t t' e e' h = rw (← e, ← e') h

  IsRead-cons :
      (s u t : Cells W F) (a : Column W) (rest : List (Column W))
      → IsGrown c (2 + a.nvals) s u
      → Ascends u.xcoord 0 (s.l + 2) a.nvals zero_double
      → a.first ≡ s.l + 2
      → a.last + 1 ≡ a.first + a.nvals
      → IsRead u rest t
      → IsRead s (finished c a u.xcoord ∷ rest) t
  IsRead-cons s u t a rest g ascends first last later =
      let next : s.l + 2 + a.nvals + 2 ≡ u.l + 2 = omega (arith, g.grown) in
      record {
        filled = later.filled;
        total = rw next later.total;
        extended = λ j x hx. later.extended j x (g.extended j x hx);
        chained = (first, last, rw next later.chained);
        ordered = (
          Ascends-kept u t 0 a.first a.nvals zero_double later.extended
              (let back : s.l + 2 ≡ a.first = sym first in rw back at ascends),
          later.ordered,
        );
      }

  pub read_functions-IsRead :
      (rescale have_gradient : Bool) (kinds : List Kind) (marks : ℕ → Marks) (i : ℕ)
      (columns columns' : List (Column W)) (s t : Cells W F)
      → length kinds ≡ length columns
      → IsChained c (s.l + 2) columns
      → IsFilled c s
      → read_functions c rescale have_gradient kinds marks i columns s ≡ ok (columns', t)
      → IsRead s columns' t × (length columns' ≡ length columns)
  unfolding read_functions
  read_functions-IsRead rescale have_gradient [] marks i [] columns' s t h k filled e =
      let none_left : [] ≡ columns' = cc in
      let same : s ≡ t = cc in
      rw (← none_left, ← same)
        (
          record {
            filled = filled;
            total = refl;
            extended = λ j x hx. hx;
            chained = tt;
            ordered = tt;
          },
          refl,
        )
  read_functions-IsRead rescale have_gradient [] marks i (a ∷ columns) columns' s t h k filled e =
      absurd (omega arith)
  read_functions-IsRead rescale have_gradient (kind ∷ kinds) marks i [] columns' s t h k filled e =
      absurd (omega arith)
  read_functions-IsRead rescale have_gradient (kind ∷ kinds) marks i (a ∷ columns) columns' s t h
        (first, last, ks) filled e =
      let (r, er, e1) =
        through (read_function c rescale have_gradient kind (marks i) a s)
          (λ r.
            read_functions c rescale have_gradient kinds marks (i + 1) columns r.1
            >>= (λ rest. ok (r.0 ∷ rest.0, rest.1)))
          (columns', t) e in
      let (rest, erest, e2) =
        through (read_functions c rescale have_gradient kinds marks (i + 1) columns r.1)
          (λ rest. ok (r.0 ∷ rest.0, rest.1)) (columns', t) e1 in
      let (g, ascends, closed) =
        read_function-Ascends rescale have_gradient kind (marks i) a r.0 s r.1 filled er in
      let next : s.l + 2 + a.nvals + 2 ≡ r.1.l + 2 = omega (arith, g.grown) in
      let (later, size) =
        read_functions-IsRead rescale have_gradient kinds marks (i + 1) columns rest.0 r.1 rest.1
          (omega arith) (rw next at ks) g.filled erest in
      let same_columns : finished c a r.1.xcoord ∷ rest.0 ≡ columns' = cc in
      let same : rest.1 ≡ t = cc in
      let read = IsRead-cons s r.1 rest.1 a rest.0 g ascends first last later in
      (
        IsRead-at s _ columns' rest.1 t same_columns same read,
        ap length (sym same_columns) ∙ ap suc size,
      )
