-- ===== src/Anneal/Moves/Kept.antt =====
-- What a move may change: the cells of the free parameters and, for a table, the cell behind the last
-- one in `idx`.
use potfit.Base.{
  ℕ, zero, suc, ◌+◌, ◌-◌, ◌≤◌, ◌≡◌, ◌≢◌, refl, ap, ◌∙◌, Bool, true, false, ◌&&◌, List, [], ◌∷◌, leb,
  get_or, get_elem?, set, get_elem?-set_ne, Bool-cases, inl, inr, arith, leb→le,
}
use potfit.Base.Double.{Double, zero_double, ◌⊗◌}
use potfit.Optimizer.{Problem, World, MathLibrary, cell, at}
use potfit.Anneal.Moves.{randomize_apot, right, left, spread, randomize_tab, randomize_parameter}

module _ {ℓ} {A : Type ℓ} where
  -- To write the value that the list has there already.
  set_again : (xs : List A) (i : ℕ) (a b : A) → set xs i (get_or (set xs i a) i b) ≡ set xs i a
  set_again [] i a b = refl
  set_again (x ∷ xs) zero a b = refl
  set_again (x ∷ xs) (suc i) a b = ap (λ ys. x ∷ ys) (set_again xs i a b)

and_true : (a b : Bool) → (a && b) ≡ true → (a ≡ true) × (b ≡ true)
and_true true b h = (refl, h)
and_true false b h = cc

module _ {W : Type 0} (p : Problem W) where
  -- Not a cell of `idx[0]`, ..., `idx[ndim]`.
  abbrev pub IsFixed : ℕ → Type 0
  IsFixed i = (k : ℕ) → k ≤ p.ndim → get_or p.idx k 0 ≢ i

  abbrev pub IsKept : List W → List W → Type 0
  IsKept xs ys = (i : ℕ) → IsFixed i → get_elem? ys i ≡ get_elem? xs i

  set-IsKept :
      (xs ys : List W) (k : ℕ) (x : W)
      → k ≤ p.ndim
      → IsKept xs ys
      → IsKept xs (set ys (get_or p.idx k 0) x)
  set-IsKept xs ys k x h kept i fixed = get_elem?-set_ne ys x (fixed k h) ∙ kept i fixed

module _ {W G : Type 0} ⦃d : Double W⦄ (world : World W G) (m : MathLibrary W) (p : Problem W) where
  right-IsKept :
      (xs ys : List W) (n pot i : ℕ) (x : W)
      → IsKept p xs ys
      → IsKept p xs (right world m p n pot i x ys)
  unfolding right
  right-IsKept xs ys n pot i x kept =
      elim (Bool-cases (leb (n + i) p.ndim && leb (cell p (n + i)) (get_or p.last pot 0))) [
        | inl c ↦
            rw (c, right)
              (set-IsKept p xs ys (n + i) _ (leb→le (n + i) p.ndim (and_true _ _ c).0) kept)
        | inr c ↦ rw (c, right) kept
      ]

  left-IsKept :
      (xs ys : List W) (n pot i : ℕ) (x : W)
      → n ≤ p.ndim
      → IsKept p xs ys
      → IsKept p xs (left world m p n pot i x ys)
  unfolding left
  left-IsKept xs ys n pot i x h kept =
      elim (Bool-cases (leb i n && leb (get_or p.first pot 0) (cell p (n - i)))) [
        | inl c ↦ rw (c, left) (set-IsKept p xs ys (n - i) _ (omega arith) kept)
        | inr c ↦ rw (c, left) kept
      ]

  spread-IsKept :
      (fuel i n pot : ℕ) (width height : W) (xs ys : List W)
      → n ≤ p.ndim
      → IsKept p xs ys
      → IsKept p xs (spread world m p fuel i n pot width height ys)
  unfolding spread
  spread-IsKept zero i n pot width height xs ys h kept = kept
  spread-IsKept (suc fuel) i n pot width height xs ys h kept =
      elim (Bool-cases (d.le (d.lit i 1) (d.lit 4 1 ⊗ width))) [
        | inl c ↦
            rw (c, spread)
              (spread-IsKept fuel (suc i) n pot width height xs _ h
                (left-IsKept xs _ n pot i _ h (right-IsKept xs ys n pot i _ kept)))
        | inr c ↦ rw (c, spread) kept
      ]

  pub randomize_parameter-IsKept :
      (n : ℕ) (xs ys v : List W) (g : G)
      → n ≤ p.ndim
      → IsKept p xs ys
      → IsKept p xs (randomize_parameter world m p n ys v g).xi
  unfolding randomize_parameter randomize_apot randomize_tab
  randomize_parameter-IsKept n xs ys v g h kept = elim (Bool-cases p.apot) [
    | inl c ↦ rw (c, randomize_parameter) (set-IsKept p xs ys n _ h kept)
    | inr c ↦ rw (c, randomize_parameter) (spread-IsKept (p.ndim + n + 1) 0 n _ _ _ xs ys h kept)
  ]

  -- In a binary for analytic potentials, the copy of the one cell is the copy of the whole vector.
  pub copied_cell :
      (n : ℕ) (xi v : List W) (g : G)
      → p.apot ≡ true
      → (let move = randomize_parameter world m p n xi v g in
          set xi (cell p n) (at move.xi (cell p n)))
        ≡ (randomize_parameter world m p n xi v g).xi
  unfolding randomize_parameter randomize_apot
  copied_cell n xi v g e = rw (e, randomize_parameter) (set_again xi (cell p n) _ zero_double)
