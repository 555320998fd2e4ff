-- ===== src/Evolution/Runs.antt =====
-- The runs of the differential evolution.
use potfit.Base.{
  ℕ, ◌≡◌, refl, sym, ◌∙◌, Bool, true, false, List, [], ◌∷◌, length, if◌then◌else◌, some, All, zip,
  arith, Bool-cases, inl, inr, ◌⊎◌,
}
use potfit.Base.Double.{Double}
use potfit.Base.Order.{IsTransitive, IsTotal, Down, Down-trans}
use potfit.Optimizer.{Problem, World, MathLibrary}
use potfit.Evo.{Pool}
use potfit.Evolution.Population.{Individual, random_population, length-random_population}
use potfit.Evolution.Opposite.{np, valued}
use potfit.Evolution.Opposite.Members.{IsValued, IsSound, valued-IsSound, opposite_check-IsSound}
use potfit.Evolution.Tracking.{IsBest, IsConsistent, generation-IsConsistent}
use potfit.Evolution.{
  Search, State, generation, tally, init_population, checked_if, start, ceiling, Reach, first, next,
}

module _ {W G : Type 0} ⦃d : Double W⦄ (is_set : IsSet W) (o : IsTransitive d) (t : IsTotal d)
    (world : World W G) (pick : ℕ → List ℕ → G → ℕ × G) (m : MathLibrary W) (p : Problem W)
    (calc_forces : List W → W) where
  abbrev Best : W → Search W G → Type 0
  Best = IsBest is_set o world pick m p calc_forces

  tally_step : (c : W) (s : Search W G) → Down o (if d.lt c s.min_cost then c else s.min_cost) c
  tally_step c s = elim (Bool-cases (d.lt c s.min_cost)) [
    | inl e ↦ rw e (inl refl)
    | inr e ↦ rw e (inr (t.le_of_not-lt c s.min_cost e))
  ]

  tally-Down :
      (c : W) (s : Search W G) → Down o (if d.lt c s.min_cost then c else s.min_cost) s.min_cost
  tally-Down c s = elim (Bool-cases (d.lt c s.min_cost)) [
    | inl e ↦ rw e (inr (o.le_of_lt c s.min_cost e))
    | inr e ↦ rw e (inl refl)
  ]

  abbrev counted : W → Individual W → Search W G → Search W G
  counted c x s =
      let smaller = d.lt c s.min_cost in
      record s {
        best = if smaller then x else s.best;
        min_cost = if smaller then c else s.min_cost;
        max_cost = if d.lt s.max_cost c then c else s.max_cost;
      }

  counted_cost :
      (c : W) (x : Individual W) (s : Search W G)
      → c ≡ calc_forces x.params
      → (s.min_cost ≡ ceiling world pick m p calc_forces) ⊎ (s.min_cost ≡ calc_forces s.best.params)
      → ((counted c x s).min_cost ≡ ceiling world pick m p calc_forces)
        ⊎ ((counted c x s).min_cost ≡ calc_forces (counted c x s).best.params)
  counted_cost c x s h k = elim (Bool-cases (d.lt c s.min_cost)) [
    | inl e ↦ rw e (inr h)
    | inr e ↦ rw e k
  ]

  -- The first minimum is below all costs of the first population.
  record IsLeast (cs : List W) (f₀ : W) (s : Search W G) : Type 0 where
    best_cost :
        (s.min_cost ≡ ceiling world pick m p calc_forces) ⊎ (s.min_cost ≡ calc_forces s.best.params)
    below : Down o s.min_cost f₀
    least : All (λ c. Down o s.min_cost c) cs

  tally-IsLeast :
      (cs : List W) (xs : List (Individual W)) (s : Search W G)
      → length cs ≡ length xs
      → All (IsValued is_set p calc_forces) (zip cs xs)
      → (s.min_cost ≡ ceiling world pick m p calc_forces) ⊎ (s.min_cost ≡ calc_forces s.best.params)
      → IsLeast cs s.min_cost (tally world pick m p calc_forces cs xs s)
  unfolding tally
  tally-IsLeast [] xs s e h k = record { best_cost = k; below = inl refl; least = tt }
  tally-IsLeast (c ∷ cs) [] s e h k = absurd (omega arith)
  tally-IsLeast (c ∷ cs) (x ∷ xs) s e (hx, hs) k =
      let rest = tally-IsLeast cs xs (counted c x s) (omega arith) hs (counted_cost c x s hx k) in
      record {
        best_cost = rest.best_cost;
        below = Down-trans o _ _ s.min_cost rest.below (tally-Down c s);
        least = (Down-trans o _ _ c rest.below (tally_step c s), rest.least);
      }

  checked_if-IsSound :
      (apot : Bool) (q : Pool W (Individual W))
      → IsSound is_set p calc_forces (np p calc_forces) q
      → (r : Pool W (Individual W)) × (checked_if world pick m p calc_forces apot q ≡ some r)
        × IsSound is_set p calc_forces (np p calc_forces) r
  unfolding checked_if
  checked_if-IsSound true q s = opposite_check-IsSound is_set p calc_forces true q s
  checked_if-IsSound false q s = (q, refl, s)

  init_population-IsSound :
      (xi : List W) (g : G)
      → (r : Pool W (Individual W) × G) × (init_population world pick m p calc_forces xi g ≡ some r)
        × IsSound is_set p calc_forces (np p calc_forces) r.0
  unfolding init_population
  init_population-IsSound xi g =
      let n = np p calc_forces in
      let pop = (random_population world p n xi g).0 in
      let s : IsSound is_set p calc_forces n (valued p calc_forces pop) =
        rw (length-random_population world p n xi g) at (valued-IsSound is_set p calc_forces pop) in
      let (r, e, k) = checked_if-IsSound p.apot (valued p calc_forces pop) s in
      ((r, (random_population world p n xi g).1), rw (e, init_population) refl, k)

  module _ (threshold : W) (xi : List W) (g : G) where
    record IsTraced (s : State W G) : Type 0 where
      pool₀ : Pool W (Individual W)
      g₀ : G
      begun : init_population world pick m p calc_forces xi g ≡ some (pool₀, g₀)
      first_cost : W
      first_least : All (λ c. Down o first_cost c) pool₀.cost
      consistent : IsConsistent is_set o world pick m p calc_forces first_cost s

    start-IsTraced :
        (pool : Pool W (Individual W)) (g' : G)
        → init_population world pick m p calc_forces xi g ≡ some (pool, g')
        → IsTraced (start world pick m p calc_forces xi pool g')
    start-IsTraced pool g' e =
        let (r, er, sound) = init_population-IsSound xi g in
        let same : r.0 ≡ pool = cc in
        let k : IsSound is_set p calc_forces (np p calc_forces) pool = rw same at sound in
        let least =
          tally-IsLeast pool.cost pool.population _ (k.costs ∙ sym k.individuals) k.valued_each
            (inl refl) in
        record {
          pool₀ = pool;
          g₀ = g';
          begun = e;
          first_cost = (start world pick m p calc_forces xi pool g').search.min_cost;
          first_least = least.least;
          consistent = record {
            sound = k;
            best = record { best_cost = least.best_cost; not_above = inl refl };
          };
        }

    Reach-IsTraced :
        (s : State W G) → Reach world pick m p calc_forces threshold xi g s → IsTraced s
    Reach-IsTraced s (first {pool} {g'} e) = start-IsTraced pool g' e
    Reach-IsTraced u (next {s} r go e) =
        let k = Reach-IsTraced s r in
        let (u', e', c) =
          generation-IsConsistent is_set o world pick m p calc_forces k.first_cost s k.consistent in
        let same : u' ≡ u = cc in
        record {
          pool₀ = k.pool₀;
          g₀ = k.g₀;
          begun = k.begun;
          first_cost = k.first_cost;
          first_least = k.first_least;
          consistent = rw same at c;
        }

    -- What holds of a state of a run that began with some first population.
    pub record IsEvolved (s : State W G) : Type 0 where
      pub pool₀ : Pool W (Individual W)
      pub g₀ : G
      pub begun : init_population world pick m p calc_forces xi g ≡ some (pool₀, g₀)
      pub sound : IsSound is_set p calc_forces (np p calc_forces) s.pool
      pub best_cost :
          (s.search.min_cost ≡ ceiling world pick m p calc_forces)
          ⊎ (s.search.min_cost ≡ calc_forces s.search.best.params)
      pub lower : All (λ c. Down o s.search.min_cost c) pool₀.cost

    All-lower :
        (a b : W) (cs : List W) → Down o a b → All (λ c. Down o b c) cs → All (λ c. Down o a c) cs
    All-lower a b [] h k = tt
    All-lower a b (c ∷ cs) h (k, ks) = (Down-trans o a b c h k, All-lower a b cs h ks)

    -- On numbers, in every state that the main loop reaches, whatever the random numbers: the
    -- population has NP individuals, each with its cost; `min_cost` is the cost of `best`, or still
    -- `10e10`; and it is at most every cost of the first population.
    pub Reach-IsEvolved :
        (s : State W G) → Reach world pick m p calc_forces threshold xi g s → IsEvolved s
    Reach-IsEvolved s r =
        let k = Reach-IsTraced s r in
        record {
          pool₀ = k.pool₀;
          g₀ = k.g₀;
          begun = k.begun;
          sound = k.consistent.sound;
          best_cost = k.consistent.best.best_cost;
          lower =
              All-lower s.search.min_cost k.first_cost k.pool₀.cost k.consistent.best.not_above
                k.first_least;
        }

    -- On numbers, and where the loops that draw an individual end with `pick`: there is a first state, and
    -- every state that is reached has the state behind the next round.
    pub Reach-progress :
        ((s : State W G) × Reach world pick m p calc_forces threshold xi g s)
        × ((s : State W G)
            → Reach world pick m p calc_forces threshold xi g s
            → (u : State W G) × (generation world pick m p calc_forces s ≡ some u))
    Reach-progress = (
      let (r, e, k) = init_population-IsSound xi g in
          (start world pick m p calc_forces xi r.0 r.1, first e),
      λ s r.
          let k = Reach-IsTraced s r in
          let (u, e, c) =
            generation-IsConsistent is_set o world pick m p calc_forces k.first_cost s
              k.consistent in
          (u, e),
    )
