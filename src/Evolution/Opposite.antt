-- ===== src/Evolution/Opposite.antt =====
-- `opposite_check` of diff_evo.c: the better half of the population and its opposite.
pub mod Members
use potfit.Base.{
  ℕ, suc, ◌+◌, ◌-◌, ◌*◌, Bool, List, [], ◌∷◌, ◌++◌, map, if◌then◌else◌, Option, none, some, set,
  take,
}
use potfit.Base.Double.{Double, gt, ◌⊕◌, ◌⊖◌}
use potfit.Base.Loop.{for_below}
use potfit.Optimizer.{Problem, cell, at}
use potfit.Evo.{Pool, quicksort}
use potfit.Evolution.Population.{Individual}

module _ {W : Type 0} ⦃d : Double W⦄ (p : Problem W) (calc_forces : List W → W) where
  -- NP, with D = ndimtot + 2.
  abbrev pub np : ℕ
  np = 15 * (p.ndimtot + 2)

  -- `cost[i] = calc_forces(pop[i], forces, 0)`
  abbrev pub valued : List (Individual W) → Pool W (Individual W)
  valued pop = record { cost = map (λ x. calc_forces x.params) pop; population = pop }

  -- `minp[j]` and `maxp[j]`, from `10e30` and `-10e30` on.
  pub smallest : ℕ → W → List (Individual W) → W
  smallest j least [] = least
  smallest j least (x ∷ xs) =
      let v = at x.params (cell p j) in smallest j (if d.lt v least then v else least) xs

  pub largest : ℕ → W → List (Individual W) → W
  largest j most [] = most
  largest j most (x ∷ xs) =
      let v = at x.params (cell p j) in largest j (if gt v most then v else most) xs

  abbrev huge : W
  huge = d.lit 10000000000000000000000000000000 1

  -- `min + max` for a parameter.
  pub range_sum : Bool → List (Individual W) → ℕ → W
  unfolding smallest largest
  range_sum do_init pop j =
      if do_init
      then at p.pmin j ⊕ at p.pmax j
      else smallest j huge pop ⊕ largest j (d.neg huge) pop

  pub opposite : (ℕ → W) → Individual W → Individual W
  opposite sum x = record x {
    params = for_below p.ndim (λ j ps. set ps (cell p j) (sum j ⊖ at x.params (cell p j))) x.params;
  }

  -- `tot_P` and `tot_cost`.
  pub both : Bool → Pool W (Individual W) → Pool W (Individual W)
  unfolding range_sum opposite
  both do_init pool =
      let others = map (opposite (range_sum do_init pool.population)) pool.population in
      record {
        cost = pool.cost ++ map (λ x. calc_forces x.params) others;
        population = pool.population ++ others;
      }

  -- `none`: the sort does not end, which does not happen.
  pub opposite_check : Bool → Pool W (Individual W) → Option (Pool W (Individual W))
  unfolding both
  opposite_check do_init pool = elim (quicksort (2 * np) (both do_init pool) 0 (2 * np - 1)) [
    | none ↦ none
    | some q ↦ some (record { cost = take np q.cost; population = take np q.population })
  ]
