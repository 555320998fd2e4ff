-- ===== src/Anneal/Moves/Rounds.antt =====
-- The rounds that `randomize_tab` allows its loop are enough: behind them no cell is in reach.
use potfit.Base.{
  ℕ, zero, suc, ◌+◌, ◌-◌, ◌≤◌, ◌<◌, ◌≡◌, refl, Bool, false, ◌&&◌, List, leb, get_or, Bool-cases,
  inl, inr, arith,
}
use potfit.Base.Double.{Double, ◌⊗◌}
use potfit.Optimizer.{Problem, World, MathLibrary, cell}
use potfit.Anneal.Moves.{right, left, spread}

not_below : (a b : ℕ) (c : Bool) → b < a → (leb a b && c) ≡ false
not_below a b c h = ground arith

module _ {W G : Type 0} ⦃d : Double W⦄ (world : World W G) (m : MathLibrary W) (p : Problem W)
    (n pot : ℕ) (width height : W) where
  right_beyond : (i : ℕ) (x : W) (xi : List W) → p.ndim < n + i → right world m p n pot i x xi ≡ xi
  unfolding right
  right_beyond i x xi h =
      rw (not_below (n + i) p.ndim (leb (cell p (n + i)) (get_or p.last pot 0)) h) refl

  left_beyond : (i : ℕ) (x : W) (xi : List W) → n < i → left world m p n pot i x xi ≡ xi
  unfolding left
  left_beyond i x xi h = rw (not_below i n (leb (get_or p.first pot 0) (cell p (n - i))) h) refl

  spread_beyond :
      (fuel i : ℕ) (xi : List W)
      → p.ndim + n < i
      → spread world m p fuel i n pot width height xi ≡ xi
  unfolding spread
  spread_beyond zero i xi h = refl
  spread_beyond (suc fuel) i xi h = elim (Bool-cases (d.le (d.lit i 1) (d.lit 4 1 ⊗ width))) [
    | inl c ↦
        rw
          (
            c,
            spread,
            right_beyond i _ xi (omega arith),
            left_beyond i _ xi (omega arith),
            spread_beyond fuel (suc i) xi (omega arith),
          )
          refl
    | inr c ↦ rw (c, spread) refl
  ]

  -- More rounds than those up to the sum of ndim and n give the same parameters.
  pub spread_enough :
      (fuel more i : ℕ) (xi : List W)
      → fuel ≤ more
      → p.ndim + n < i + fuel
      → spread world m p more i n pot width height xi
        ≡ spread world m p fuel i n pot width height xi
  unfolding spread
  spread_enough zero more i xi k h = spread_beyond more i xi (omega arith)
  spread_enough (suc fuel) zero i xi k h = absurd (omega arith)
  spread_enough (suc fuel) (suc more) i xi k h =
      elim (Bool-cases (d.le (d.lit i 1) (d.lit 4 1 ⊗ width))) [
        | inl c ↦ rw (c, spread) (spread_enough fuel more (suc i) _ (omega arith) (omega arith))
        | inr c ↦ rw (c, spread) refl
      ]
