-- ===== src/Cutoffs/Bounds.antt =====
-- On numbers, the cutoffs are symmetric and lie between the two extremes.
use potfit.Base.{
  ℕ, zero, suc, ◌+◌, ◌<◌, ◌≤◌, ◌≡◌, refl, ◌∙◌, true, false, arith, Bool-cases, inl, inr, ◌⊎◌,
}
use native.Mathlib.Decide.{ℕ_discrete}
use potfit.Base.Double.{Double}
use potfit.Build.{Build, embedded}
use potfit.PairIndex.{pair_index, paircol, pair_index_comm}
use potfit.Cutoffs.{max, min, rmin, rcut, rcutmin, rcutmax, over_rows, over_columns, with_transfer}

-- What holds of `<` on doubles that are numbers, zeros of both signs included.
pub record IsOrdered {W : Type 0} (d : Double W) : Type 0 where
  pub asymmetric : (a b : W) → d.lt a b ≡ true → d.lt b a ≡ false
  pub weak : (a b c : W) → d.lt a c ≡ true → d.lt b c ≡ false → d.lt a b ≡ true

module _ {W : Type 0} ⦃d : Double W⦄ (o : IsOrdered d) where
  abbrev pub Below : W → W → Type 0
  Below a b = d.lt b a ≡ false

  -- Equal as C compares them.
  abbrev pub Same : W → W → Type 0
  Same a b = Below a b × Below b a

  Below-refl : (a : W) → Below a a
  Below-refl a = elim (Bool-cases (d.lt a a)) [ inl t ↦ o.asymmetric a a t | inr f ↦ f ]

  Below-trans : (a b c : W) → Below a b → Below b c → Below a c
  Below-trans a b c h k = elim (Bool-cases (d.lt c a)) [ inr f ↦ f | inl t ↦ cc (o.weak c b a t h) ]

  max_left : (a b : W) → Below a (max a b)
  max_left a b = elim (Bool-cases (d.lt b a)) [ inl t ↦ rw t (Below-refl a) | inr f ↦ rw f f ]

  max_right : (a b : W) → Below b (max a b)
  max_right a b = elim (Bool-cases (d.lt b a)) [
    | inl t ↦ rw t (o.asymmetric b a t)
    | inr f ↦ rw f (Below-refl b)
  ]

  max_least : (a b c : W) → Below a c → Below b c → Below (max a b) c
  max_least a b c h k = elim (Bool-cases (d.lt b a)) [ inl t ↦ rw t h | inr f ↦ rw f k ]

  min_left : (a b : W) → Below (min a b) a
  min_left a b = elim (Bool-cases (d.lt a b)) [ inl t ↦ rw t (Below-refl a) | inr f ↦ rw f f ]

  min_right : (a b : W) → Below (min a b) b
  min_right a b = elim (Bool-cases (d.lt a b)) [
    | inl t ↦ rw t (o.asymmetric a b t)
    | inr f ↦ rw f (Below-refl b)
  ]

  -- Both orders of the two comparisons with the transfer functions give the larger of the three.
  max_swap : (w x y : W) → Below (max (max w x) y) (max (max w y) x)
  max_swap w x y =
      let wy : Below (max w y) (max (max w y) x) = max_left (max w y) x in
      max_least (max w x) y _
        (max_least w x _ (Below-trans w (max w y) _ (max_left w y) wy) (max_right (max w y) x))
        (Below-trans y (max w y) _ (max_right w y) wy)

  max_mono : (a a' c : W) → Below a a' → Below (max a c) (max a' c)
  max_mono a a' c h =
      max_least a c (max a' c) (Below-trans a a' (max a' c) h (max_left a' c)) (max_right a' c)

  module _ (b : Build) (n : ℕ) (begin end : ℕ → W) (dp_cut : W) where
    transfer_swap :
        (column : ℕ → W) (w : W) (i j : ℕ)
        → Below
            (with_transfer b n begin end dp_cut column w i j)
            (with_transfer b n begin end dp_cut column w j i)
    transfer_swap column w i j = elim (Bool-cases (embedded b)) [
      | inl t ↦ rw t (max_swap w (column (paircol n + i)) (column (paircol n + j)))
      | inr f ↦ rw f (Below-refl w)
    ]

    rcut_swap : (i j : ℕ) → Below (rcut b n begin end dp_cut i j) (rcut b n begin end dp_cut j i)
    unfolding rcut
    rcut_swap i j =
        let swapped : Below (with_transfer b n begin end dp_cut end (end (pair_index n i j)) i j)
            (with_transfer b n begin end dp_cut end (end (pair_index n j i)) j i) =
          rw (pair_index_comm n j i) (transfer_swap end (end (pair_index n i j)) i j) in
        elim (Bool-cases b.coulomb) [
          | inl t ↦ rw (t, rcut) (max_mono _ _ dp_cut swapped)
          | inr f ↦ rw (f, rcut) swapped
        ]

    rmin_swap : (i j : ℕ) → Below (rmin b n begin end dp_cut i j) (rmin b n begin end dp_cut j i)
    unfolding rmin
    rmin_swap i j = rw (pair_index_comm n j i) (transfer_swap begin (begin (pair_index n i j)) i j)

    -- On numbers (no NaN, so that `<` is an order): the cutoffs and the minimal distances do not depend
    -- on the order of the two types.
    pub cutoffs_symmetric :
        (i j : ℕ)
        → Same (rcut b n begin end dp_cut i j) (rcut b n begin end dp_cut j i)
          × Same (rmin b n begin end dp_cut i j) (rmin b n begin end dp_cut j i)
    cutoffs_symmetric i j = ((rcut_swap i j, rcut_swap j i), (rmin_swap i j, rmin_swap j i))

    module _ (R : W → W → Type 0) (R_refl : (a : W) → R a a)
        (R_trans : (x y z : W) → R x y → R y z → R x z) (step : W → ℕ → ℕ → W) (r : ℕ → ℕ → W)
        (grows : (m : W) (i j : ℕ) → R m (step m i j))
        (covers : (m : W) (i j : ℕ) → R (r i j) (step m i j))
        (picks : (m : W) (i j : ℕ) → (step m i j ≡ m) ⊎ (step m i j ≡ r i j)) where
      columns_grow : (i k : ℕ) (w : W) → R w (over_columns b n begin end dp_cut i k step w)
      unfolding over_columns
      columns_grow i zero w = R_refl w
      columns_grow i (suc k) w = R_trans _ _ _ (columns_grow i k w) (grows _ k i)

      columns_cover :
          (i k : ℕ) (w : W) (j : ℕ)
          → j < k
          → R (r j i) (over_columns b n begin end dp_cut i k step w)
      unfolding over_columns
      columns_cover i zero w j h = absurd (omega arith)
      columns_cover i (suc k) w j h = elim (ℕ_discrete j k) [
        | yes e ↦ rw e (covers _ k i)
        | no ne ↦ R_trans _ _ _ (columns_cover i k w j (omega arith)) (grows _ k i)
      ]

      rows_grow : (k : ℕ) (w : W) → R w (over_rows b n begin end dp_cut k step w)
      unfolding over_rows
      rows_grow zero w = R_refl w
      rows_grow (suc k) w = R_trans _ _ _ (rows_grow k w) (columns_grow k n _)

      rows_cover :
          (k : ℕ) (w : W) (i j : ℕ)
          → i < k
          → j < n
          → R (r j i) (over_rows b n begin end dp_cut k step w)
      unfolding over_rows
      rows_cover zero w i j hi hj = absurd (omega arith)
      rows_cover (suc k) w i j hi hj = elim (ℕ_discrete i k) [
        | yes e ↦ rw e (columns_cover k n _ j hj)
        | no ne ↦ R_trans _ _ _ (rows_cover k w i j (omega arith) hj) (columns_grow k n _)
      ]

      abbrev Cell : W → Type 0
      Cell v = (i : ℕ) × (j : ℕ) × (i < n) × (j < n) × (v ≡ r i j)

      columns_pick :
          (i k : ℕ) (w : W)
          → i < n
          → k ≤ n
          → (over_columns b n begin end dp_cut i k step w ≡ w)
            ⊎ Cell (over_columns b n begin end dp_cut i k step w)
      unfolding over_columns
      columns_pick i zero w hi hk = inl refl
      columns_pick i (suc k) w hi hk =
          elim (picks (over_columns b n begin end dp_cut i k step w) k i) [
            | inr e ↦ inr (k, i, omega arith, hi, e)
            | inl e ↦ elim (columns_pick i k w hi (omega arith)) [
              | inl e' ↦ inl (e ∙ e')
              | inr (x, y, hx, hy, e') ↦ inr (x, y, hx, hy, e ∙ e')
            ]
          ]

      rows_pick :
          (k : ℕ) (w : W)
          → k ≤ n
          → (over_rows b n begin end dp_cut k step w ≡ w)
            ⊎ Cell (over_rows b n begin end dp_cut k step w)
      unfolding over_rows
      rows_pick zero w hk = inl refl
      rows_pick (suc k) w hk =
          elim (columns_pick k n (over_rows b n begin end dp_cut k step w) (omega arith)
            (omega arith)) [
              | inr cell ↦ inr cell
              | inl e ↦ elim (rows_pick k w (omega arith)) [
                | inl e' ↦ inl (e ∙ e')
                | inr (x, y, hx, hy, e') ↦ inr (x, y, hx, hy, e ∙ e')
              ]
            ]

    max_picks : (a c : W) → (max a c ≡ a) ⊎ (max a c ≡ c)
    max_picks a c = elim (Bool-cases (d.lt c a)) [
      | inl t ↦ inl (rw t refl)
      | inr f ↦ inr (rw f refl)
    ]

    min_picks : (a c : W) → (min a c ≡ a) ⊎ (min a c ≡ c)
    min_picks a c = elim (Bool-cases (d.lt a c)) [
      | inl t ↦ inl (rw t refl)
      | inr f ↦ inr (rw f refl)
    ]

    -- On numbers (no NaN, so that `<` is an order): the cutoff of any two types is at most `rcutmax` and
    -- at least `rcutmin`, and each of these two is one of the cutoffs or its value before the call.
    pub rcutmin-rcutmax :
        (w : W)
        → ((i j : ℕ)
            → i < n
            → j < n
            → Below (rcut b n begin end dp_cut i j) (rcutmax b n begin end dp_cut w)
              × Below (rcutmin b n begin end dp_cut w) (rcut b n begin end dp_cut i j))
          × ((rcutmax b n begin end dp_cut w ≡ w)
              ⊎ ((i : ℕ) × (j : ℕ) × (i < n)
                  × (j < n)
                  × (rcutmax b n begin end dp_cut w ≡ rcut b n begin end dp_cut i j)))
          × ((rcutmin b n begin end dp_cut w ≡ w)
              ⊎ ((i : ℕ) × (j : ℕ) × (i < n)
                  × (j < n)
                  × (rcutmin b n begin end dp_cut w ≡ rcut b n begin end dp_cut i j)))
    unfolding rcutmin rcutmax
    rcutmin-rcutmax w =
        let r : ℕ → ℕ → W = rcut b n begin end dp_cut in
        let largest : W → ℕ → ℕ → W = λ m i j. max m (r i j) in
        let smallest : W → ℕ → ℕ → W = λ m i j. min m (r i j) in
        (
          λ i j hi hj. (
            rows_cover Below Below-refl Below-trans largest r (λ m i j. max_left m (r i j))
                (λ m i j. max_right m (r i j)) (λ m i j. max_picks m (r i j)) n w j i hj hi,
            rows_cover (λ x y. Below y x) Below-refl (λ x y z h k. Below-trans z y x k h) smallest r
                (λ m i j. min_left m (r i j)) (λ m i j. min_right m (r i j))
                (λ m i j. min_picks m (r i j)) n w j i hj hi,
          ),
          rows_pick Below Below-refl Below-trans largest r (λ m i j. max_left m (r i j))
              (λ m i j. max_right m (r i j)) (λ m i j. max_picks m (r i j)) n w (omega arith),
          rows_pick (λ x y. Below y x) Below-refl (λ x y z h k. Below-trans z y x k h) smallest r
              (λ m i j. min_left m (r i j)) (λ m i j. min_right m (r i j))
              (λ m i j. min_picks m (r i j)) n w (omega arith),
        )
