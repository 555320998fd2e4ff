-- ===== src/Evo/Quicksort.antt =====
-- What holds of every run of `partition` and `quicksort`, and where the sort fails.
use potfit.Base.{
  ℕ, zero, suc, ◌+◌, ◌-◌, ◌/◌, ◌≤◌, ◌<◌, ◌≡◌, refl, some, arith, inl, inr, get_elem?, length,
  some_of_lt-length, ◌∙◌, [], ◌∷◌, ltb, Bool-cases, swap,
}
use potfit.Base.Double.{Double}
use potfit.Evo.{Pool, swap_both, moves, partition_loop, partition, quicksort}
use potfit.Evo.Partition.{
  IsPool, IsReordered, IsReordered-trans, IsReordered-refl, swap_both-IsReordered, AtMost, Above,
  swap_both_cells,
}
use potfit.Evo.Placing.{IsPartition, final, final-IsPartition, final-Above, final-AtMost}

module _ {W P : Type 0} ⦃d : Double W⦄ where
  module _ (p : Pool W P) (low high index : ℕ) (is_pool : IsPool p) (lt : low < high)
      (inside : high < length p.cost) (hi : index ≤ high) {v : W}
      (pv : get_elem? p.cost index ≡ some v) where
    exchanged : get_elem? (swap_both p index high).cost high ≡ some v
    exchanged = (swap_both_cells p index high (omega arith) inside).1 ∙ pv

    reordered : IsReordered p (swap_both p index high)
    reordered = swap_both-IsReordered p index high is_pool

    partition-eq-final :
        partition p low high index
        ≡ final (swap_both p index high) v low high reordered.is_pool lt exchanged
    unfolding partition
    partition-eq-final = rw pv refl

    placed : IsPartition (swap_both p index high) low high v (partition p low high index)
    placed =
        rw partition-eq-final
          (final-IsPartition (swap_both p index high) v low high reordered.is_pool lt exchanged)

    -- For `low < high` inside the arrays and a pivot of the segment, `partition` only reorders the
    -- individuals with their costs; it returns an index of the segment where the pivot's cost stands,
    -- and every cost left of that index is at most the pivot's.
    pub partition_sound : IsPartition p low high v (partition p low high index)
    partition_sound = record {
      reordered = IsReordered-trans reordered placed.reordered;
      low_le = placed.low_le;
      le_high = placed.le_high;
      pivot = placed.pivot;
      left_small = placed.left_small;
    }

    -- If the cost that the exchange with the pivot brings to `low` is above the pivot's, the costs
    -- right of the returned index are all above the pivot's.
    pub partition_separates :
        Above v (swap_both p index high) low
        → (k : ℕ) → (partition p low high index).1 < k
        → k ≤ high
        → Above v (partition p low high index).0 k
    partition_separates big =
        rw partition-eq-final
          (final-Above (swap_both p index high) v low high reordered.is_pool lt exchanged big)

    -- If that cost is at most the pivot's, the loop passes it over: a cost that is at most the
    -- pivot's stays right of the returned index.
    pub partition_passes_over :
        AtMost v (swap_both p index high) low
        → (k : ℕ) × ((partition p low high index).1 < k)
          × (k ≤ high)
          × AtMost v (partition p low high index).0 k
    partition_passes_over small =
        rw partition-eq-final
          (final-AtMost (swap_both p index high) v low high reordered.is_pool lt exchanged small)

  -- With more fuel than the segment is long, `quicksort` returns, and the pool that it returns has
  -- the individuals of the first, each with its cost, in some order.
  pub quicksort_total :
      (fuel : ℕ) (p : Pool W P) (low high : ℕ)
      → IsPool p
      → high < length p.cost
      → high - low < fuel
      → (r : Pool W P) × (quicksort fuel p low high ≡ some r) × IsReordered p r
  unfolding quicksort
  quicksort_total zero p low high is_pool inside h = absurd (omega arith)
  quicksort_total (suc fuel) p low high is_pool inside h = elim (Bool-cases (ltb low high)) [
    | inr e ↦ (p, rw (e, quicksort) refl, IsReordered-refl p is_pool)
    | inl e ↦
        let lt : low < high = ground arith in
        let index : ℕ = (low + high) / 2 in
        let (v, pv) = some_of_lt-length p.cost index (omega arith) in
        let first = partition_sound p low high index is_pool lt inside (omega arith) pv in
        let q : Pool W P = (partition p low high index).0 in
        let m : ℕ = (partition p low high index).1 in
        let (r, er, left) =
          quicksort_total fuel q low (m - 1) first.reordered.is_pool
            (omega (arith, first.reordered.same_length, first.le_high))
            (omega (arith, first.low_le, first.le_high)) in
        let (last, et, right) =
          quicksort_total fuel r (m + 1) high left.is_pool
            (omega (arith, first.reordered.same_length, left.same_length))
            (omega (arith, first.low_le)) in
        (
          last,
          rw (e, er, quicksort) et,
          IsReordered-trans first.reordered (IsReordered-trans left right),
        )
  ]

  -- A segment of two is left as it is, whatever its costs: `quicksort` never sorts it.
  pub quicksort_two :
      (a b : W) (x y : P)
      → quicksort 2 (record { cost = a ∷ b ∷ []; population = x ∷ y ∷ [] }) 0 1
        ≡ some (record { cost = a ∷ b ∷ []; population = x ∷ y ∷ [] })
  unfolding quicksort partition partition_loop moves swap_both swap
  quicksort_two a b x y = ground arith
