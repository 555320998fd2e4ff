-- ===== src/Evo.antt =====
-- The sort of the opposition-based differential evolution (diff_evo.c): `swap_population`,
-- `partition` and `quicksort` on an array of costs and the array of the individuals beside it.
-- C's `newIndex - 1` is -1 where `newIndex` is 0; here it is 0, and `low < high` fails for both.
pub mod Partition
pub mod Pivot
pub mod Placing
pub mod Quicksort
mod Examples
use potfit.Base.{
  ℕ, zero, suc, ◌+◌, ◌-◌, ◌/◌, Bool, true, false, not, ◌&&◌, List, Option, none, some,
  if◌then◌else◌, ltb, ◌==◌, get_elem?, swap,
}
use potfit.Base.Double.{Double}

-- The costs, and the individuals as rows.
pub record Pool (W P : Type 0) : Type 0 where
  pub cost : List W
  pub population : List P

module _ {W P : Type 0} ⦃d : Double W⦄ where
  -- `SWAP(cost[i], cost[j], temp); swap_population(population[i], population[j]);`
  pub swap_both : Pool W P → ℕ → ℕ → Pool W P
  swap_both p i j = record { cost = swap p.cost i j; population = swap p.population i j }

  -- `cost[i] <= ind_val && i != current_index`
  pub moves : Pool W P → ℕ → ℕ → W → Bool
  moves p i current ind_val = elim (get_elem? p.cost i) [
    | none ↦ false
    | some c ↦ d.le c ind_val && not (i == current)
  ]

  -- The loop of `partition`, with `left` rounds to go; the result has `current_index`.
  pub partition_loop : (left i current : ℕ) → W → Pool W P → Pool W P × ℕ
  partition_loop zero i current ind_val p = (p, current)
  partition_loop (suc left) i current ind_val p =
      let hit = moves p i current ind_val in
      partition_loop left (i + 1) (if hit then current + 1 else current) ind_val
        (if hit then swap_both p i current else p)

  pub partition_at : Pool W P → ℕ → ℕ → ℕ → Option W → Pool W P × ℕ
  partition_at p low high index none = (p, low)
  partition_at p low high index (some ind_val) =
      let (q, current) = partition_loop (high - low) low low ind_val (swap_both p index high) in
      (swap_both q current high, current)

  pub partition : Pool W P → ℕ → ℕ → ℕ → Pool W P × ℕ
  unfolding partition_at
  partition p low high index = partition_at p low high index (get_elem? p.cost index)

  -- `none`: the fuel ran out.
  pub quicksort : ℕ → Pool W P → ℕ → ℕ → Option (Pool W P)
  quicksort zero p low high = none
  quicksort (suc fuel) p low high = elim (ltb low high) [
    | false ↦ some p
    | true ↦
        let (q, new_index) = partition p low high ((low + high) / 2) in
        elim (quicksort fuel q low (new_index - 1)) [
          | none ↦ none
          | some r ↦ quicksort fuel r (new_index + 1) high
        ]
  ]
