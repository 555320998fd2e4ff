-- ===== src/Evo/Pivot.antt =====
-- Where `partition` puts the pivot, and what stands on either side of it.
use potfit.Base.{
  ℕ, ◌+◌, ◌-◌, ◌≤◌, ◌<◌, ◌≡◌, refl, true, false, some, arith, ◌⊎◌, inl, inr, get_elem?, length, ◌≢◌,
  lt-length_of_some, ◌∙◌,
}
use native.Mathlib.Decide.{ℕ_discrete}
use potfit.Base.Double.{Double}
use potfit.Evo.{Pool, swap_both, moves, partition_loop}
use potfit.Evo.Partition.{
  IsPool, IsReordered, IsReordered-trans, swap_both-IsReordered, partition_loop_inv, AtMost, Above,
  moves→AtMost, miss→Above, swap_both_cells, IsReordered-refl,
}

module _ {W P : Type 0} ⦃d : Double W⦄ where
  -- `partition` after its first exchange: `start` is that pool, with the pivot's cost `v` at `high`.
  module _ (start : Pool W P) (v : W) (low high : ℕ) (is_pool : IsPool start) (lt : low < high)
      (pivot : get_elem? start.cost high ≡ some v) where
    in_range : high < length start.cost
    in_range = lt-length_of_some start.cost high pivot

    pub record Inv (i c : ℕ) (q : Pool W P) : Type 0 where
      pub reordered : IsReordered start q
      pub low_le : low ≤ c
      pub le_i : c ≤ i
      pub pivot_kept : get_elem? q.cost high ≡ some v
      pub left_small : (k : ℕ) → low ≤ k → k < c → AtMost v q k

    module _ (i c : ℕ) (q : Pool W P) (hi : i < high) (inv : Inv i c q) where
      open inv use {reordered, low_le, le_i, pivot_kept, left_small}

      abbrev moved : Pool W P
      moved = swap_both q i c

      cells :
          (get_elem? moved.cost i ≡ get_elem? q.cost c)
          × (get_elem? moved.cost c ≡ get_elem? q.cost i)
          × ((k : ℕ) → i ≢ k → c ≢ k → get_elem? moved.cost k ≡ get_elem? q.cost k)
      cells =
          swap_both_cells q i c (omega (arith, in_range, reordered.same_length))
            (omega (arith, in_range, reordered.same_length))

      small_after : moves q i c v ≡ true → (k : ℕ) → low ≤ k → k < c + 1 → AtMost v moved k
      small_after m k lo up = elim (ℕ_discrete c k) [
        | yes e ↦ let (w, ew, le) = (moves→AtMost q i c v m).0 in (w, cc (cells.1), le)
        | no ne ↦
            let (w, ew, le) = left_small k lo (omega arith) in
            (w, cells.2 k (omega arith) ne ∙ ew, le)
      ]

      hit : moves q i c v ≡ true → Inv (i + 1) (c + 1) moved
      hit m = record {
        reordered = IsReordered-trans reordered (swap_both-IsReordered q i c reordered.is_pool);
        low_le = omega arith;
        le_i = omega arith;
        pivot_kept = cells.2 high (omega arith) (omega arith) ∙ pivot_kept;
        left_small = small_after m;
      }

      miss : Inv (i + 1) c q
      miss = record {
        reordered = reordered;
        low_le = low_le;
        le_i = omega arith;
        pivot_kept = pivot_kept;
        left_small = left_small;
      }

    begin : Inv low low start
    begin = record {
      reordered = IsReordered-refl start is_pool;
      low_le = omega arith;
      le_i = omega arith;
      pivot_kept = pivot;
      left_small = λ k lo up. absurd (omega arith);
    }

    abbrev pub outcome : Pool W P × ℕ
    outcome = partition_loop (high - low) low low v start

    pub loop-Inv : Inv high outcome.1 outcome.0
    loop-Inv =
        partition_loop_inv v high Inv (λ i c q hi m inv. hit i c q hi inv m)
          (λ i c q hi m inv. miss i c q hi inv) (high - low) low low start (omega arith) begin

    -- The first element is passed over: it is at most `v`, and no round counts it.
    pub record Skipped (i c : ℕ) (q : Pool W P) : Type 0 where
      pub inv : Inv i c q
      pub kept : ((i ≡ low) × AtMost v q low) ⊎ ((k : ℕ) × (c ≤ k) × (k < i) × AtMost v q k)

    module _ (i c : ℕ) (q : Pool W P) (hi : i < high) (s : Skipped i c q) where
      open s use {inv, kept}

      hit-Skipped : moves q i c v ≡ true → Skipped (i + 1) (c + 1) (swap_both q i c)
      hit-Skipped m = record {
        inv = hit i c q hi inv m;
        kept = elim kept [
          | inl (e, small) ↦
              absurd ((moves→AtMost q i c v m).1 (omega (arith, inv.low_le, inv.le_i)))
          | inr (k, lo, up, (w, ew, le)) ↦ elim (ℕ_discrete c k) [
            | yes e ↦ inr (i, omega arith, omega arith, (w, cc (cells i c q hi inv).0, le))
            | no ne ↦ inr (
              k,
              omega arith,
              omega arith,
              (w, (cells i c q hi inv).2 k (omega arith) ne ∙ ew, le),
            )
          ]
        ];
      }

      miss-Skipped : Skipped (i + 1) c q
      miss-Skipped = record {
        inv = miss i c q hi inv;
        kept = elim kept [
          | inl (e, small) ↦ inr (low, omega (arith, inv.low_le, inv.le_i), omega arith, small)
          | inr (k, lo, up, small) ↦ inr (k, lo, omega arith, small)
        ];
      }

    pub loop-Skipped : AtMost v start low → Skipped high outcome.1 outcome.0
    loop-Skipped small =
        partition_loop_inv v high Skipped (λ i c q hi m s. hit-Skipped i c q hi s m)
          (λ i c q hi m s. miss-Skipped i c q hi s) (high - low) low low start (omega arith)
          (record { inv = begin; kept = inl (refl, small) })

    -- If the first element is above `v`, what is not counted is above `v`.
    pub record Split (i c : ℕ) (q : Pool W P) : Type 0 where
      pub inv : Inv i c q
      pub rest : ((i ≡ low) × Above v q low) ⊎ ((c < i) × ((k : ℕ) → c ≤ k → k < i → Above v q k))

    module _ (i c : ℕ) (q : Pool W P) (hi : i < high) (s : Split i c q) where
      open s use {inv, rest}

      hit-Split : moves q i c v ≡ true → Split (i + 1) (c + 1) (swap_both q i c)
      hit-Split m = record {
        inv = hit i c q hi inv m;
        rest = elim rest [
          | inl (e, big) ↦ absurd ((moves→AtMost q i c v m).1 (omega (arith, inv.low_le, inv.le_i)))
          | inr (less, all) ↦ inr (
            omega arith,
            λ k lo up. elim (ℕ_discrete i k) [
              | yes e ↦
                  let (w, ew, nle) = all c (omega arith) less in (w, cc (cells i c q hi inv).0, nle)
              | no ne ↦
                  let (w, ew, nle) = all k (omega arith) (omega arith) in
                  (w, (cells i c q hi inv).2 k ne (omega arith) ∙ ew, nle)
            ],
          )
        ];
      }

      miss-Split : moves q i c v ≡ false → Split (i + 1) c q
      miss-Split m = record {
        inv = miss i c q hi inv;
        rest = elim rest [
          | inl (e, big) ↦ inr (
            omega (arith, inv.le_i),
            λ k lo up. let e' : k ≡ low = omega (arith, inv.low_le) in rw e' big,
          )
          | inr (less, all) ↦ inr (
            omega arith,
            λ k lo up. elim (ℕ_discrete i k) [
              | yes e ↦ rw (← e) (
                  miss→Above q i c v (omega (arith, in_range, inv.reordered.same_length)) m
                    (omega arith))
              | no ne ↦ all k lo (omega arith)
            ],
          )
        ];
      }

    pub loop-Split : Above v start low → Split high outcome.1 outcome.0
    loop-Split big =
        partition_loop_inv v high Split (λ i c q hi m s. hit-Split i c q hi s m)
          (λ i c q hi m s. miss-Split i c q hi s m) (high - low) low low start (omega arith)
          (record { inv = begin; rest = inl (refl, big) })
