-- ===== src/Evolution/Tracking.antt =====
-- `best` and `min_cost` belong together, and `min_cost` does not rise.
use potfit.Base.{
  ℕ, zero, suc, ◌+◌, ◌≡◌, refl, ap, Bool, true, false, List, [], ◌∷◌, some, arith, Bool-cases, inl,
  inr, ◌⊎◌,
}
use potfit.Base.Double.{Double, zero_double}
use potfit.Base.Order.{IsTransitive, Down, Down-le}
use potfit.Optimizer.{Problem, World, MathLibrary}
use potfit.Evo.{Pool}
use potfit.Evolution.Population.{Individual}
use potfit.Evolution.Opposite.{np}
use potfit.Evolution.Opposite.Members.{IsValued, IsSound, opposite_check-IsSound}
use potfit.Evolution.{
  Search, State, make_trial, choose, select, select_from, jump, jumped, jump_if, check_flagfile,
  generation, ceiling,
}

module _ {W G : Type 0} ⦃d : Double W⦄ (is_set : IsSet W) (o : IsTransitive d) (world : World W G)
    (pick : ℕ → List ℕ → G → ℕ × G) (m : MathLibrary W) (p : Problem W)
    (calc_forces : List W → W) where
  abbrev size : ℕ
  size = np p calc_forces

  -- The smallest cost is that of the best individual, or nothing was found below the start value; and
  -- it is at most `f₀`.
  pub record IsBest (f₀ : W) (s : Search W G) : Type 0 where
    pub best_cost :
        (s.min_cost ≡ ceiling world pick m p calc_forces) ⊎ (s.min_cost ≡ calc_forces s.best.params)
    pub not_above : Down o s.min_cost f₀

  choose-IsValued :
      (x trial : Individual W) (c : W)
      → c ≡ calc_forces x.params
      → IsValued is_set p calc_forces
          (choose world pick m p calc_forces trial (calc_forces trial.params) c x)
  unfolding choose
  choose-IsValued x trial c h = elim (Bool-cases (d.le (calc_forces trial.params) c)) [
    | inl e ↦ rw (e, choose) refl
    | inr e ↦ rw (e, choose) h
  ]

  select-IsValued :
      (pop : List (Individual W)) (i : ℕ) (c : W) (x : Individual W) (s : Search W G)
      → c ≡ calc_forces x.params
      → IsValued is_set p calc_forces (select world pick m p calc_forces pop i c x s).0
  unfolding select
  select-IsValued pop i c x s h =
      choose-IsValued x (make_trial world pick m p calc_forces pop i x s).0 c h

  select-IsBest :
      (f₀ : W) (pop : List (Individual W)) (i : ℕ) (c : W) (x : Individual W) (s : Search W G)
      → IsBest f₀ s
      → IsBest f₀ (select world pick m p calc_forces pop i c x s).1
  unfolding select
  select-IsBest f₀ pop i c x s b =
      let trial = (make_trial world pick m p calc_forces pop i x s).0 in
      elim (Bool-cases (d.lt (calc_forces trial.params) s.min_cost)) [
        | inl e ↦ record {
          best_cost = rw (e, select) (inr refl);
          not_above = rw (e, select) (Down-le o _ s.min_cost f₀ (o.le_of_lt _ _ e) b.not_above);
        }
        | inr e ↦ record {
          best_cost = rw (e, select) b.best_cost;
          not_above = rw (e, select) b.not_above;
        }
      ]

  select_from-keeps :
      (f₀ : W) (pop : List (Individual W)) (i n : ℕ) (cs : List W) (xs : List (Individual W))
      (s : Search W G)
      → IsSound is_set p calc_forces n (record { cost = cs; population = xs })
      → IsBest f₀ s
      → (let r = select_from world pick m p calc_forces pop i cs xs s in
          IsSound is_set p calc_forces n r.0 × IsBest f₀ r.1)
  unfolding select_from
  select_from-keeps f₀ pop i n [] [] s sound b = (sound, b)
  select_from-keeps f₀ pop i n [] (x ∷ xs) s sound b =
      absurd (omega (arith, sound.costs, sound.individuals))
  select_from-keeps f₀ pop i n (c ∷ cs) [] s sound b =
      absurd (omega (arith, sound.costs, sound.individuals))
  select_from-keeps f₀ pop i zero (c ∷ cs) (x ∷ xs) s sound b = absurd (omega (arith, sound.costs))
  select_from-keeps f₀ pop i (suc n) (c ∷ cs) (x ∷ xs) s sound b =
      let s' = (select world pick m p calc_forces pop i c x s).1 in
      let (rest, b') =
        select_from-keeps f₀ pop (i + 1) n cs xs s'
          record {
            costs = omega (arith, sound.costs);
            individuals = omega (arith, sound.individuals);
            valued_each = sound.valued_each.1;
          }
          (select-IsBest f₀ pop i c x s b) in
      (
        record {
          costs = ap suc rest.costs;
          individuals = ap suc rest.individuals;
          valued_each = (select-IsValued pop i c x s sound.valued_each.0, rest.valued_each);
        },
        b',
      )

  -- What holds at the head of the main loop.
  pub record IsConsistent (f₀ : W) (t : State W G) : Type 0 where
    pub sound : IsSound is_set p calc_forces size t.pool
    pub best : IsBest f₀ t.search

  jump-IsConsistent :
      (f₀ : W) (q : Pool W (Individual W)) (t : State W G) (s : Search W G)
      → IsSound is_set p calc_forces size q
      → IsBest f₀ s
      → (u : State W G) × (jump world pick m p calc_forces q t s ≡ some u) × IsConsistent f₀ u
  unfolding jump
  jump-IsConsistent f₀ q t s sound b = elim (Bool-cases (d.lt (world.eqdist s.g).0 t.jump_rate)) [
    | inl e ↦
        let (r, er, sr) = opposite_check-IsSound is_set p calc_forces false q sound in
        (
          jumped world pick m p calc_forces t (record s { g = (world.eqdist s.g).1 }) r,
          rw (e, er, jump) refl,
          record { sound = sr; best = record { best_cost = b.best_cost; not_above = b.not_above } },
        )
    | inr e ↦ (
      record t { pool = q; search = record s { g = (world.eqdist s.g).1 } },
      rw (e, jump) refl,
      record { sound = sound; best = record { best_cost = b.best_cost; not_above = b.not_above } },
    )
  ]

  jump_if-IsConsistent :
      (f₀ : W) (apot : Bool) (q : Pool W (Individual W)) (t : State W G) (s : Search W G)
      → IsSound is_set p calc_forces size q
      → IsBest f₀ s
      → (u : State W G) × (jump_if world pick m p calc_forces apot q t s ≡ some u)
        × IsConsistent f₀ u
  unfolding jump_if
  jump_if-IsConsistent f₀ true q t s sound b = jump-IsConsistent f₀ q t s sound b
  jump_if-IsConsistent f₀ false q t s sound b = (
    record t { pool = q; search = s },
    refl,
    record { sound = sound; best = record { best_cost = b.best_cost; not_above = b.not_above } },
  )

  -- A round of the main loop comes to its end.
  pub generation-IsConsistent :
      (f₀ : W) (t : State W G)
      → IsConsistent f₀ t
      → (u : State W G) × (generation world pick m p calc_forces t ≡ some u) × IsConsistent f₀ u
  unfolding generation
  generation-IsConsistent f₀ t k =
      let s₀ : Search W G = record t.search { max_cost = zero_double } in
      let r =
        select_from world pick m p calc_forces t.pool.population 0 t.pool.cost t.pool.population
          s₀ in
      let (sound, b) =
        select_from-keeps f₀ t.pool.population 0 size t.pool.cost t.pool.population s₀ k.sound
          record { best_cost = k.best.best_cost; not_above = k.best.not_above } in
      let (u, eu, ku) = jump_if-IsConsistent f₀ p.apot r.0 t r.1 sound b in
      (
        check_flagfile world pick m p calc_forces u,
        rw (eu, generation) refl,
        record {
          sound = ku.sound;
          best = record { best_cost = ku.best.best_cost; not_above = ku.best.not_above };
        },
      )
