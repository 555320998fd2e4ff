-- ===== src/Evolution/Opposite/Members.antt =====
-- Every individual keeps its own cost, and the number of individuals stays NP.
use potfit.Base.{
  ℕ, ◌+◌, ◌-◌, ◌*◌, ◌≡◌, refl, sym, ◌∙◌, Bool, List, [], ◌∷◌, map, length, length-append,
  length-map, length-take, take, some, All, All-append, zip, arith,
}
use potfit.Base.Double.{Double}
use potfit.Base.Zip.{All-Perm, All-take, zip-take, zip-append}
use potfit.Optimizer.{Problem}
use potfit.Evo.{Pool}
use potfit.Evo.Quicksort.{quicksort_total}
use potfit.Evolution.Population.{Individual}
use potfit.Evolution.Opposite.{np, valued, range_sum, opposite, both, opposite_check}

module _ {W : Type 0} ⦃d : Double W⦄ (is_set : IsSet W) (p : Problem W)
    (calc_forces : List W → W) where
  -- A cost that belongs to its individual.
  abbrev pub IsValued : W × Individual W → Type 0
  IsValued m = m.0 ≡ calc_forces m.1.params

  -- A population of `n`, each with its cost.
  pub record IsSound (n : ℕ) (q : Pool W (Individual W)) : Type 0 where
    pub costs : length q.cost ≡ n
    pub individuals : length q.population ≡ n
    pub valued_each : All IsValued (zip q.cost q.population)

  pub All-IsValued :
      (pop : List (Individual W)) → All IsValued (zip (map (λ x. calc_forces x.params) pop) pop)
  All-IsValued [] = tt
  All-IsValued (x ∷ xs) = (refl, All-IsValued xs)

  pub valued-IsSound : (pop : List (Individual W)) → IsSound (length pop) (valued p calc_forces pop)
  valued-IsSound pop = record {
    costs = length-map pop (λ x. calc_forces x.params);
    individuals = refl;
    valued_each = All-IsValued pop;
  }

  both-IsSound :
      (n : ℕ) (do_init : Bool) (q : Pool W (Individual W))
      → IsSound n q
      → IsSound (n + n) (both p calc_forces do_init q)
  unfolding both
  both-IsSound n do_init q s =
      let others =
        map (opposite p calc_forces (range_sum p calc_forces do_init q.population)) q.population in
      let size : length others ≡ n = length-map q.population _ ∙ s.individuals in
      record {
        costs = omega (
          arith,
          length-append q.cost (map (λ x. calc_forces x.params) others),
          length-map others (λ x. calc_forces x.params),
          s.costs,
          size,
        );
        individuals = omega (arith, length-append q.population others, s.individuals, size);
        valued_each =
            rw
              (zip-append q.cost (map (λ x. calc_forces x.params) others) q.population others
                (s.costs ∙ sym s.individuals))
              (All-append IsValued (zip q.cost q.population) _ s.valued_each (All-IsValued others));
      }

  taken-IsSound :
      (n : ℕ) (q : Pool W (Individual W))
      → IsSound (n + n) q
      → IsSound n (record { cost = take n q.cost; population = take n q.population })
  taken-IsSound n q s = record {
    costs = omega (arith, length-take n q.cost, s.costs);
    individuals = omega (arith, length-take n q.population, s.individuals);
    valued_each = rw (zip-take n q.cost q.population) (All-take IsValued n _ s.valued_each);
  }

  -- The opposite check returns NP individuals, each with its cost.
  pub opposite_check-IsSound :
      (do_init : Bool) (q : Pool W (Individual W))
      → IsSound (np p calc_forces) q
      → (r : Pool W (Individual W)) × (opposite_check p calc_forces do_init q ≡ some r)
        × IsSound (np p calc_forces) r
  unfolding opposite_check
  opposite_check-IsSound do_init q s =
      let n = np p calc_forces in
      let b = both p calc_forces do_init q in
      let sb : IsSound (n + n) b = both-IsSound n do_init q s in
      let (r, e, reordered) =
        quicksort_total (2 * n) b 0 (2 * n - 1) (sb.individuals ∙ sym sb.costs)
          (omega (arith, sb.costs)) (omega arith) in
      let sr : IsSound (n + n) r = record {
        costs = reordered.same_length ∙ sb.costs;
        individuals = reordered.is_pool ∙ reordered.same_length ∙ sb.costs;
        valued_each = All-Perm IsValued (λ m. is_set _ _) _ _ reordered.same_members sb.valued_each;
      } in
      (
        record { cost = take n r.cost; population = take n r.population },
        rw (e, opposite_check) refl,
        taken-IsSound n r sr,
      )
