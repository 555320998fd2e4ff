-- ===== src/Evo/Placing.antt =====
-- A whole `partition` run: the loop, and the exchange that puts the pivot into its place.
use potfit.Base.{ℕ, ◌≤◌, ◌<◌, ◌≡◌, some, arith, inl, inr, get_elem?, lt-length_of_some, ◌≢◌, ◌∙◌}
use native.Mathlib.Decide.{ℕ_discrete}
use potfit.Base.Double.{Double}
use potfit.Evo.{Pool, swap_both}
use potfit.Evo.Partition.{
  IsPool, IsReordered, IsReordered-trans, swap_both-IsReordered, AtMost, Above, swap_both_cells,
}
use potfit.Evo.Pivot.{Inv, outcome, loop-Inv, loop-Skipped, loop-Split}

module _ {W P : Type 0} ⦃d : Double W⦄ where
  -- What one partition of the segment from `low` to `high` guarantees, with the pivot's cost `v`.
  pub record IsPartition (p : Pool W P) (low high : ℕ) (v : W) (r : Pool W P × ℕ) : Type 0 where
    pub reordered : IsReordered p r.0
    pub low_le : low ≤ r.1
    pub le_high : r.1 ≤ high
    pub pivot : get_elem? r.0.cost r.1 ≡ some v
    pub left_small : (k : ℕ) → low ≤ k → k < r.1 → AtMost v r.0 k

  module _ (start : Pool W P) (v : W) (low high : ℕ) (is_pool : IsPool start) (lt : low < high)
      (pivot : get_elem? start.cost high ≡ some v) where
    abbrev pub looped : Pool W P × ℕ
    looped = outcome start v low high is_pool lt pivot

    -- The loop, and the exchange that puts the pivot in its place.
    abbrev pub final : Pool W P × ℕ
    final = (swap_both looped.0 looped.1 high, looped.1)

    inv : Inv start v low high is_pool lt pivot high looped.1 looped.0
    inv = loop-Inv start v low high is_pool lt pivot

    final_cells :
        (get_elem? final.0.cost looped.1 ≡ some v)
        × (get_elem? final.0.cost high ≡ get_elem? looped.0.cost looped.1)
        × ((k : ℕ) → looped.1 ≢ k → high ≢ k → get_elem? final.0.cost k ≡ get_elem? looped.0.cost k)
    final_cells =
        let inside = lt-length_of_some looped.0.cost high inv.pivot_kept in
        let cells = swap_both_cells looped.0 looped.1 high (omega (arith, inv.le_i)) inside in
        (cells.0 ∙ inv.pivot_kept, cells.1, cells.2)

    pub final-IsPartition : IsPartition start low high v final
    final-IsPartition = record {
      reordered =
          IsReordered-trans inv.reordered
            (swap_both-IsReordered looped.0 looped.1 high inv.reordered.is_pool);
      low_le = inv.low_le;
      le_high = inv.le_i;
      pivot = final_cells.0;
      left_small = λ k lo up.
          let (w, ew, le) = inv.left_small k lo up in
          (w, final_cells.2 k (omega arith) (omega (arith, inv.le_i)) ∙ ew, le);
    }

    pub final-Above : Above v start low → (k : ℕ) → looped.1 < k → k ≤ high → Above v final.0 k
    final-Above big k lo up =
        let s = loop-Split start v low high is_pool lt pivot big in
        elim s.rest [
          | inl (e, _) ↦ absurd (omega arith)
          | inr (less, all) ↦ elim (ℕ_discrete high k) [
            | yes e ↦
                let (w, ew, nle) = all looped.1 (omega arith) less in (w, cc final_cells.1, nle)
            | no ne ↦
                let (w, ew, nle) = all k (omega arith) (omega arith) in
                (w, final_cells.2 k (omega arith) ne ∙ ew, nle)
          ]
        ]

    pub final-AtMost :
        AtMost v start low → (k : ℕ) × (looped.1 < k) × (k ≤ high) × AtMost v final.0 k
    final-AtMost small =
        let s = loop-Skipped start v low high is_pool lt pivot small in
        elim s.kept [
          | inl (e, _) ↦ absurd (omega arith)
          | inr (k, lo, up, (w, ew, le)) ↦ elim (ℕ_discrete looped.1 k) [
            | yes e ↦ (high, omega arith, omega arith, (w, cc final_cells.1, le))
            | no ne ↦ (k, omega arith, omega arith, (w, final_cells.2 k ne (omega arith) ∙ ew, le))
          ]
        ]
