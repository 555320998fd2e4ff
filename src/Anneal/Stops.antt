-- ===== src/Anneal/Stops.antt =====
-- The annealing loop ends by itself: `loop_counter` grows, and the loop ends at KMAX.
use potfit.Base.{
  ℕ, zero, suc, ◌+◌, ◌*◌, ◌≤◌, ◌<◌, ◌≡◌, refl, ◌∙◌, Bool, true, false, ◌&&◌, List, ltb, some,
  replicate, ok, Bool-cases, inl, inr, arith,
}
use potfit.Base.Double.{Double, zero_double}
use potfit.Base.Loop.{for_below, for_below-keeps}
use potfit.Optimizer.{Problem, World, MathLibrary}
use potfit.Anneal.Moves.{randomize_parameter}
use potfit.Anneal.{
  State, Start, accept_downhill, accept_uphill, attempt, adjust, steps, at_temperature, cool,
  anneal, initial, anneal_from, get_annealing_temperature, run_simulated_annealing,
}

module _ {W G : Type 0} ⦃d : Double W⦄ (world : World W G) (m : MathLibrary W) (p : Problem W)
    (calc_forces : List W → W) where
  attempt-counter :
      (h : ℕ) (s : State W G) → (attempt world m p calc_forces h s).loop_counter ≡ s.loop_counter
  unfolding attempt accept_downhill accept_uphill
  attempt-counter h s =
      elim (Bool-cases (d.le (calc_forces (randomize_parameter world m p h s.xi s.v s.g).xi) s.f)) [
        | inl c ↦ rw (c, attempt) refl
        | inr c ↦ rw (c, attempt) refl
      ]

  steps-counter : (s : State W G) → (steps world m p calc_forces s).loop_counter ≡ s.loop_counter
  unfolding steps adjust
  steps-counter s =
      for_below-keeps (λ t. t.loop_counter ≡ s.loop_counter) p.ndim (adjust world m p calc_forces) _
        (for_below-keeps (λ t. t.loop_counter ≡ s.loop_counter) 20
          (λ j. for_below p.ndim (attempt world m p calc_forces)) s refl
          (λ j u _ k.
            for_below-keeps (λ t. t.loop_counter ≡ s.loop_counter) p.ndim
              (attempt world m p calc_forces) u k (λ h v _ e. attempt-counter h v ∙ e)))
        (λ n u _ k. k)

  -- The two ways on from a sweep, and from a temperature.
  at_temperature_on :
      (left : ℕ) (s : State W G)
      → (world.flagfile (steps world m p calc_forces s).g).0 ≡ false
      → at_temperature world m p calc_forces (suc left) s
        ≡ at_temperature world m p calc_forces left (record (steps world m p calc_forces s) {
          g = (world.flagfile (steps world m p calc_forces s).g).1;
        })
  unfolding at_temperature
  at_temperature_on left s c = rw (c, at_temperature) refl

  at_temperature_stopped :
      (left : ℕ) (s : State W G)
      → (world.flagfile (steps world m p calc_forces s).g).0 ≡ true
      → (at_temperature world m p calc_forces (suc left) s).loop_counter ≡ 1001
  unfolding at_temperature
  at_temperature_stopped left s c = rw (c, at_temperature) refl

  at_zero :
      (s : State W G) → s.loop_counter ≤ (at_temperature world m p calc_forces zero s).loop_counter
  unfolding at_temperature
  at_zero s = omega arith

  at_temperature-counter :
      (left : ℕ) (s : State W G)
      → s.loop_counter ≤ 1000
      → s.loop_counter ≤ (at_temperature world m p calc_forces left s).loop_counter
  at_temperature-counter zero s h = at_zero s
  at_temperature-counter (suc left) s h =
      elim (Bool-cases (world.flagfile (steps world m p calc_forces s).g).0) [
        | inl c ↦ omega (arith, at_temperature_stopped left s c)
        | inr c ↦
            let u : State W G = record (steps world m p calc_forces s) {
              g = (world.flagfile (steps world m p calc_forces s).g).1;
            } in
            let same : u.loop_counter ≡ s.loop_counter = steps-counter s in
            let later : u.loop_counter
                ≤ (at_temperature world m p calc_forces left u).loop_counter =
              at_temperature-counter left u (omega arith) in
            rw (at_temperature_on left s c) (omega (arith, same, later))
      ]

  abbrev next_state : State W G → State W G
  next_state s = cool world m p calc_forces (at_temperature world m p calc_forces (3 * p.ndim) s)

  next_state-counter :
      (s : State W G) → s.loop_counter ≤ 1000 → s.loop_counter + 1 ≤ (next_state s).loop_counter
  unfolding cool
  next_state-counter s h = omega (arith, at_temperature-counter (3 * p.ndim) s h)

  anneal_on :
      (fuel : ℕ) (s : State W G)
      → (ltb (next_state s).loop_counter 1000 && (next_state s).loop_again) ≡ true
      → anneal world m p calc_forces (suc fuel) s ≡ anneal world m p calc_forces fuel (next_state s)
  unfolding anneal
  anneal_on fuel s c = rw (c, anneal) refl

  anneal_done :
      (fuel : ℕ) (s : State W G)
      → (ltb (next_state s).loop_counter 1000 && (next_state s).loop_again) ≡ false
      → anneal world m p calc_forces (suc fuel) s ≡ some (next_state s)
  unfolding anneal
  anneal_done fuel s c = rw (c, anneal) refl

  below : (n : ℕ) (again : Bool) → (ltb n 1000 && again) ≡ true → n < 1000
  below n again h = ground arith

  anneal_stops :
      (fuel : ℕ) (s : State W G)
      → s.loop_counter < 1000
      → 1000 ≤ s.loop_counter + fuel
      → (t : State W G) × (anneal world m p calc_forces fuel s ≡ some t)
  anneal_stops zero s h k = absurd (omega arith)
  anneal_stops (suc fuel) s h k =
      let u = next_state s in
      let grown : s.loop_counter + 1 ≤ u.loop_counter = next_state-counter s (omega arith) in
      elim (Bool-cases (ltb u.loop_counter 1000 && u.loop_again)) [
        | inl c ↦
            let (t, e) = anneal_stops fuel u (below u.loop_counter u.loop_again c) (omega arith) in
            (t, anneal_on fuel s c ∙ e)
        | inr c ↦ (u, anneal_done fuel s c)
      ]

  -- The annealing ends: for a temperature of zero or behind at most KMAX temperatures.
  anneal_from-returns :
      (xi : List W) (f temp : W) (v : List W) (g : G)
      → (r : List W × G) × (anneal_from world m p calc_forces xi f temp v g ≡ ok r)
  unfolding anneal_from
  anneal_from-returns xi f temp v g = elim (Bool-cases (d.eq temp zero_double)) [
    | inl c ↦ rw (c, anneal_from) ((xi, g), refl)
    | inr c ↦
        let (t, e) =
          anneal_stops 1000 (initial world m p calc_forces xi f temp v g) (omega arith)
            (omega arith) in
        rw (c, e, anneal_from) ((t.xi_opt, t.g), refl)
  ]

  -- If a start temperature is found, the annealing returns parameters, whatever the random numbers and
  -- the flagfile.
  pub run_simulated_annealing_returns :
      (start : Start W) (xi : List W) (g : G) (temp : W) (v : List W) (g' : G)
      → get_annealing_temperature world m p calc_forces start xi
          (calc_forces xi)
          (replicate p.ndim (d.lit 1 10))
          g
        ≡ ok (temp, v, g')
      → (r : List W × G) × (run_simulated_annealing world m p calc_forces start xi g ≡ ok r)
  unfolding run_simulated_annealing
  run_simulated_annealing_returns start xi g temp v g' e =
      rw (e, run_simulated_annealing) (anneal_from-returns xi (calc_forces xi) temp v g')
