-- ===== src/Chempot/Sorting.antt =====
-- The sort of the composition nodes ends, with the nodes in ascending order.
use mathlib.Core.List.{Permᴰ}
use mathlib.Core.List.Permᴰ.{nil, cons, swap, trans}
use potfit.Base.{Bool-cases}
use potfit.Base.{
  ℕ, zero, suc, ◌+◌, ◌≤◌, ◌<◌, ◌≡◌, refl, ap, inl, inr, Bool, true, false, List, [], ◌∷◌, some,
  length, arith,
}
use potfit.Base.Double.{Double, gt}
use potfit.Chempot.{Row, pairs, pass_from, pass, passes, sort_chem_pot_2d}

abbrev bit : Bool → ℕ
bit true = 1
bit false = 0

module _ {W : Type 0} ⦃d : Double W⦄ where
  -- How many rows have a node below `x`.
  below : W → List (Row W) → ℕ
  below x [] = 0
  below x (b ∷ rows) = bit (gt x b.node) + below x rows

  -- The pairs of rows in the wrong order.
  inversions : List (Row W) → ℕ
  unfolding below
  inversions [] = 0
  inversions (a ∷ rows) = below a.node rows + inversions rows

  -- Each node is not above the next.
  pub IsAscending : List (Row W) → Type 0
  IsAscending [] = Unit
  IsAscending (a ∷ []) = Unit
  IsAscending (a ∷ b ∷ rows) = (gt a.node b.node ≡ false) × IsAscending (b ∷ rows)

  record IsPass (rows out : List (Row W)) (swapped : Bool) : Type 0 where
    counted : (x : W) → below x out ≡ below x rows
    fewer : inversions out + bit swapped ≤ inversions rows
    permuted : Permᴰ rows out
    ended : swapped ≡ false → IsAscending out
    same : swapped ≡ false → out ≡ rows

  module _ (asym : (a b : W) → d.lt a b ≡ true → d.lt b a ≡ false) where
    pass_from-IsPass :
        (a : Row W) (rows : List (Row W))
        → IsPass (a ∷ rows) (pass_from a rows).0 (pass_from a rows).1
    unfolding pass_from inversions below IsAscending
    pass_from-IsPass a [] = record {
      counted = λ x. refl;
      fewer = omega arith;
      permuted = cons refl nil;
      ended = λ e. tt;
      same = λ e. refl;
    }
    pass_from-IsPass a (b ∷ rows) = elim (Bool-cases (gt a.node b.node)) [
      | inl above ↦
          let h = pass_from-IsPass a rows in
          let back = asym b.node a.node above in
          rw (above, pass_from)
            (record {
              counted = λ x. omega (arith, h.counted x);
              fewer = omega (arith, h.fewer, h.counted b.node, ap bit above, ap bit back);
              permuted = trans (swap refl refl) (cons refl h.permuted);
              ended = λ e. cc;
              same = λ e. cc;
            })
      | inr under ↦
          let h = pass_from-IsPass b rows in
          rw (under, pass_from)
            (record {
              counted = λ x. omega (arith, h.counted x);
              fewer = omega (arith, h.fewer, h.counted a.node);
              permuted = cons refl h.permuted;
              ended = λ e. (let k = h.ended e in rw (h.same e) (under, rw (h.same e) at k));
              same = λ e. ap (λ r. a ∷ r) (h.same e);
            })
    ]

    pass-IsPass : (rows : List (Row W)) → IsPass rows (pass rows).0 (pass rows).1
    unfolding pass IsAscending
    pass-IsPass [] = record {
      counted = λ x. refl;
      fewer = omega arith;
      permuted = nil;
      ended = λ e. tt;
      same = λ e. refl;
    }
    pass-IsPass (a ∷ rows) = pass_from-IsPass a rows

    passes-IsSorted :
        (fuel : ℕ) (rows : List (Row W))
        → inversions rows < fuel
        → (sorted : List (Row W)) × (passes fuel rows ≡ some sorted)
          × IsAscending sorted
          × Permᴰ rows sorted
    unfolding passes
    passes-IsSorted zero rows lt = absurd (omega arith)
    passes-IsSorted (suc fuel) rows lt =
        let h = pass-IsPass rows in
        elim (Bool-cases ((pass rows).1)) [
          | inl more ↦
              let (sorted, e, up, k) =
                passes-IsSorted fuel (pass rows).0 (omega (arith, h.fewer, ap bit more)) in
              (sorted, rw (more, passes) e, up, trans h.permuted k)
          | inr done ↦ ((pass rows).0, rw (done, passes) refl, h.ended done, h.permuted)
        ]

  below_bound : (x : W) (rows : List (Row W)) → below x rows ≤ length rows
  unfolding below
  below_bound x [] = omega arith
  below_bound x (b ∷ rows) = elim (gt x b.node) as (λ t. bit t + below x rows ≤ suc (length rows)) [
    | true ↦ omega (arith, below_bound x rows)
    | false ↦ omega (arith, below_bound x rows)
  ]

  inversions_bound : (rows : List (Row W)) → inversions rows ≤ pairs (length rows)
  unfolding inversions pairs
  inversions_bound [] = omega arith
  inversions_bound (a ∷ rows) = omega (arith, below_bound a.node rows, inversions_bound rows)

  -- If of two nodes at most one is below the other: the sort ends within a pass for each pair of rows
  -- and one more, with the same rows, and no node above the next.
  pub sort_chem_pot_2d-IsSorted :
      (asym : (a b : W) → d.lt a b ≡ true → d.lt b a ≡ false) (rows : List (Row W))
      → (sorted : List (Row W)) × (sort_chem_pot_2d rows ≡ some sorted)
        × IsAscending sorted
        × Permᴰ rows sorted
  unfolding sort_chem_pot_2d IsAscending
  sort_chem_pot_2d-IsSorted asym [] = ([], refl, tt, nil)
  sort_chem_pot_2d-IsSorted asym (a ∷ rows) =
      passes-IsSorted asym (suc (pairs (length (a ∷ rows)))) (a ∷ rows)
        (omega (arith, inversions_bound (a ∷ rows)))
