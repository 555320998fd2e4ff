-- ===== src/Powell/Gram.antt =====
-- The matrix of the linear equations is the product of `gamma` with itself, from the start and behind
-- every update of a column.
use potfit.Base.{
  ℕ, suc, ◌+◌, ◌-◌, ◌<◌, ◌≡◌, ◌≢◌, refl, sym, ap, ◌∙◌, ◌⊎◌, inl, inr, arith, Bool, List,
  if◌then◌else◌, true, false,
}
use native.Mathlib.Decide.{ℕ_discrete}
use potfit.Base.Double.{Double, zero_double, ◌⊕◌, ◌⊖◌, ◌⊗◌, ◌⊘◌}
use potfit.Base.Loop.{for_below, for_below-keeps, for_below-counts, for_below_ext}
use potfit.Optimizer.{Problem}
use potfit.Powell.Matrix.{
  Matrix, put, put_both, put_entry, put_other, put_both_cases, put_entry_cases,
}
use potfit.Powell.{
  Solution, product_of, right_side, init_row, lineqsys_init, lineqsys_update, sum_below,
  fill_column, normalized, gamma_update,
}

module _ {W : Type 0} ⦃dbl : Double W⦄ (pr : Problem W) (mdim : ℕ)
    (calc_forces : List W → W × (ℕ → W)) (solve : Matrix W → (ℕ → W) → Solution W)
    (mul_comm : (a b : W) → dbl.mul a b ≡ dbl.mul b a) where
  abbrev pub product : Matrix W → ℕ → ℕ → W
  product = product_of pr mdim calc_forces solve

  abbrev pub side : Matrix W → (ℕ → W) → ℕ → W
  side = right_side pr mdim calc_forces solve

  product_comm : (gamma : Matrix W) (i k : ℕ) → product gamma i k ≡ product gamma k i
  product_comm gamma i k =
      for_below_ext mdim _ _ zero_double
        (λ j t lt. ap (λ x. t ⊕ x) (mul_comm (gamma j i) (gamma j k)))

  -- The system of equations for `gamma` and the deviations.
  pub record IsSystem (n : ℕ) (gamma : Matrix W) (forces : ℕ → W) (a : Matrix W) (p : ℕ → W)
      : Type 0 where
    pub matrix : (r c : ℕ) → r < n → c < n → a r c ≡ product gamma r c
    pub side_of : (r : ℕ) → r < n → p r ≡ side gamma forces r

  fill_side :
      (n : ℕ) (gamma : Matrix W) (forces : ℕ → W) (p : ℕ → W) (r : ℕ)
      → r < n
      → for_below n (λ i q. put_entry q i (side gamma forces i)) p r ≡ side gamma forces r
  fill_side n gamma forces p =
      for_below-counts (λ k q. (r : ℕ) → r < k → q r ≡ side gamma forces r) n
        (λ i q. put_entry q i (side gamma forces i)) p (λ r lt. absurd (omega arith))
        (λ i q _ h r lt.
          put_entry_cases q i (side gamma forces i) r (side gamma forces r)
            (λ e. ap (side gamma forces) (sym e)) (λ ne. h r (omega (arith, ne))))

  -- Cells of the first `i` rows and columns, and of row and column `i` up to `k`.
  abbrev Reached : ℕ → ℕ → ℕ → ℕ → Type 0
  Reached i k r c = ((r < i) ⊎ (c < i)) ⊎ (((r ≡ i) × (c < k)) ⊎ ((c ≡ i) × (r < k)))

  abbrev Right : ℕ → Matrix W → ℕ → ℕ → Matrix W → Type 0
  Right n gamma i k a = (r c : ℕ) → r < n → c < n → Reached i k r c → a r c ≡ product gamma r c

  lt_of_ne : (c k : ℕ) → c < k + 1 → c ≢ k → c < k
  lt_of_ne c k h ne = omega (arith, ne)

  put-Right :
      (n : ℕ) (gamma : Matrix W) (i k : ℕ) (a : Matrix W)
      → Right n gamma i k a
      → Right n gamma i (k + 1) (put_both a i k (product gamma i k))
  put-Right n gamma i k a h r c lr lc reached =
      put_both_cases a (product gamma) i k (product gamma i k) r c refl (product_comm gamma i k)
        (λ n1 n2. h r c lr lc (elim reached [
          | inl x ↦ inl x
          | inr (inl (e, lt)) ↦ inr (inl (e, lt_of_ne c k lt (λ x. n1 (e, x))))
          | inr (inr (e, lt)) ↦ inr (inr (e, lt_of_ne r k lt (λ x. n2 (x, e))))
        ]))

  -- Before row `i`, with its diagonal cell, and behind the row.
  row_before :
      (n : ℕ) (gamma : Matrix W) (i : ℕ) (a : Matrix W) → Right n gamma i 0 a → Right n gamma i i a
  row_before n gamma i a h r c lr lc reached = h r c lr lc (elim reached [
    | inl x ↦ inl x
    | inr (inl (e, lt)) ↦ inl (inr lt)
    | inr (inr (e, lt)) ↦ inl (inl lt)
  ])

  lt_or_eq : (r i : ℕ) → r < suc i → (r < i) ⊎ (r ≡ i)
  lt_or_eq r i h = ground arith

  row_behind :
      (n : ℕ) (gamma : Matrix W) (i : ℕ) (a : Matrix W)
      → Right n gamma i n a
      → Right n gamma (suc i) 0 a
  row_behind n gamma i a h r c lr lc reached = h r c lr lc (elim reached [
    | inl (inl lt) ↦ elim (lt_or_eq r i lt) [ inl x ↦ inl (inl x) | inr e ↦ inr (inl (e, lc)) ]
    | inl (inr lt) ↦ elim (lt_or_eq c i lt) [ inl x ↦ inl (inr x) | inr e ↦ inr (inr (e, lr)) ]
    | inr (inl (e, lt)) ↦ absurd (omega arith)
    | inr (inr (e, lt)) ↦ absurd (omega arith)
  ])

  nothing : (r c : ℕ) → Reached 0 0 r c → ⊥
  nothing r c (inl (inl lt)) = omega arith
  nothing r c (inl (inr lt)) = omega arith
  nothing r c (inr (inl (e, lt))) = omega arith
  nothing r c (inr (inr (e, lt))) = omega arith

  init_row-Right :
      (n : ℕ) (gamma : Matrix W) (i : ℕ) (a : Matrix W)
      → i < n
      → Right n gamma i 0 a
      → Right n gamma (suc i) 0 (init_row pr mdim calc_forces solve n gamma i a)
  unfolding init_row
  init_row-Right n gamma i a lt h =
      let b = put_both a i i (product gamma i i) in
      let f : ℕ → Matrix W → Matrix W =
        λ t x. put_both x i (i + 1 + t) (product gamma i (i + 1 + t)) in
      let row : Right n gamma i (i + 1 + (n - (i + 1))) (for_below (n - (i + 1)) f b) =
        for_below-counts (λ t x. Right n gamma i (i + 1 + t) x) (n - (i + 1)) f b
          (let e : i + 1 ≡ i + 1 + 0 = omega arith in
            rw e at (put-Right n gamma i i a (row_before n gamma i a h)))
          (λ t x _ k.
            let e : i + 1 + t + 1 ≡ i + 1 + suc t = omega arith in
            rw e at (put-Right n gamma i (i + 1 + t) x k)) in
      let end : i + 1 + (n - (i + 1)) ≡ n = omega arith in
      row_behind n gamma i (for_below (n - (i + 1)) f b)
        (λ r c lr lc reached. row r c lr lc (rw end reached))

  -- `lineqsys_init` fills the whole system, whatever stood there.
  pub lineqsys_init-IsSystem :
      (n : ℕ) (gamma a : Matrix W) (forces p : ℕ → W)
      → (let r = lineqsys_init pr mdim calc_forces solve gamma a forces p n in
          IsSystem n gamma forces r.0 r.1)
  unfolding lineqsys_init
  lineqsys_init-IsSystem n gamma a forces p =
      let f = init_row pr mdim calc_forces solve n gamma in
      let all : Right n gamma n 0 (for_below n f a) =
        for_below-counts (λ i x. Right n gamma i 0 x) n f a
          (λ r c lr lc reached. absurd (nothing r c reached))
          (λ i x lt k. init_row-Right n gamma i x lt k) in
      record {
        matrix = λ r c lr lc. all r c lr lc (inl (inl lr));
        side_of = fill_side n gamma forces p;
      }

  -- The matrix of old products, with row and column `i` of `gamma` up to `k`.
  abbrev Renewed : ℕ → ℕ → ℕ → ℕ → Type 0
  Renewed i k r c = ((r ≢ i) × (c ≢ i)) ⊎ (((r ≡ i) × (c < k)) ⊎ ((c ≡ i) × (r < k)))

  renew :
      (n : ℕ) (gamma : Matrix W) (i k : ℕ) (a : Matrix W)
      → ((r c : ℕ) → r < n → c < n → Renewed i k r c → a r c ≡ product gamma r c)
      → (r c : ℕ) → r < n
      → c < n
      → Renewed i (suc k) r c
      → put_both a i k (product gamma i k) r c ≡ product gamma r c
  renew n gamma i k a h r c lr lc reached =
      put_both_cases a (product gamma) i k (product gamma i k) r c refl (product_comm gamma i k)
        (λ n1 n2. h r c lr lc (elim reached [
          | inl x ↦ inl x
          | inr (inl (e, lt)) ↦ inr (inl (e, lt_of_ne c k (omega arith) (λ x. n1 (e, x))))
          | inr (inr (e, lt)) ↦ inr (inr (e, lt_of_ne r k (omega arith) (λ x. n2 (x, e))))
        ]))

  Renewed-all : (n i r c : ℕ) → r < n → c < n → Renewed i n r c
  Renewed-all n i r c lr lc = elim (ℕ_discrete r i) [
    | yes e ↦ inr (inl (e, lc))
    | no ne ↦ elim (ℕ_discrete c i) [ yes e ↦ inr (inr (e, lr)) | no ne' ↦ inl (ne, ne') ]
  ]

  -- The product of two columns that are as they were.
  product-same :
      (gamma old : Matrix W) (i : ℕ)
      → ((r c : ℕ) → c ≢ i → gamma r c ≡ old r c)
      → (r c : ℕ) → r ≢ i
      → c ≢ i
      → product old r c ≡ product gamma r c
  product-same gamma old i same r c nr nc =
      for_below_ext mdim _ _ zero_double (λ j t lt. rw (same j r nr, same j c nc) refl)

  -- With a commutative product: if `gamma` differs from the one of a system of equations in column `i`
  -- at most, the update of row and column `i` leaves the matrix and the right side that
  -- `lineqsys_init` would compute from this `gamma` and these deviations.
  pub lineqsys_update-IsSystem :
      (n : ℕ) (gamma old a : Matrix W) (forces forces' p p' : ℕ → W) (i : ℕ)
      → ((r c : ℕ) → c ≢ i → gamma r c ≡ old r c)
      → IsSystem n old forces' a p
      → (let r = lineqsys_update pr mdim calc_forces solve gamma a forces p' i n in
          IsSystem n gamma forces r.0 r.1)
  unfolding lineqsys_update
  lineqsys_update-IsSystem n gamma old a forces forces' p p' i same k =
      let all =
        for_below-counts
          (λ t x. (r c : ℕ) → r < n → c < n → Renewed i t r c → x r c ≡ product gamma r c) n
          (λ t x. put_both x i t (product gamma i t)) a
          (λ r c lr lc reached. elim reached [
            | inl (nr, nc) ↦ k.matrix r c lr lc ∙ product-same gamma old i same r c nr nc
            | inr (inl (e, lt)) ↦ absurd (omega arith)
            | inr (inr (e, lt)) ↦ absurd (omega arith)
          ])
          (λ t x _ h. renew n gamma i t x h) in
      record {
        matrix = λ r c lr lc. all r c lr lc (Renewed-all n i r c lr lc);
        side_of = fill_side n gamma forces p';
      }

  fill_column-other :
      (gamma old : Matrix W) (j : ℕ) (f : ℕ → W → W)
      → ((r c : ℕ) → c ≢ j → gamma r c ≡ old r c)
      → (r c : ℕ) → c ≢ j
      → fill_column pr mdim calc_forces solve gamma j f r c ≡ old r c
  unfolding fill_column
  fill_column-other gamma old j f h =
      for_below-keeps (λ g. (r c : ℕ) → c ≢ j → g r c ≡ old r c) mdim
        (λ i g. put g i j (f i (g i j))) gamma h
        (λ i g _ k r c ne. put_other g i j (f i (g i j)) r c ne ∙ k r c ne)

  choose_either :
      (fine : Bool) (new kept old : Matrix W) (j : ℕ)
      → ((r c : ℕ) → c ≢ j → new r c ≡ old r c)
      → ((r c : ℕ) → c ≢ j → kept r c ≡ old r c)
      → (r c : ℕ) → c ≢ j
      → (if fine then new else kept) r c ≡ old r c
  choose_either true new kept old j h k = h
  choose_either false new kept old j h k = k

  normalized-other :
      (gamma old : Matrix W) (j : ℕ) (delta : List W)
      → ((r c : ℕ) → c ≢ j → gamma r c ≡ old r c)
      → (r c : ℕ) → c ≢ j
      → (normalized pr mdim calc_forces solve gamma j delta).gamma r c ≡ old r c
  unfolding normalized
  normalized-other gamma old j delta h =
      let temp = dbl.sqrt (sum_below pr mdim calc_forces solve mdim (λ i. gamma i j ⊗ gamma i j)) in
      let scaled : ℕ → W → W = λ i x. x ⊘ temp in
      choose_either _ (fill_column pr mdim calc_forces solve gamma j scaled) gamma old j
        (fill_column-other gamma old j scaled h) h

  -- `gamma_update` changes column `j` only, whether it succeeds or not.
  pub gamma_update-other :
      (gamma : Matrix W) (a b : W) (fa fb : ℕ → W) (delta : List W) (j : ℕ) (fmin : W) (r c : ℕ)
      → c ≢ j
      → (gamma_update pr mdim calc_forces solve gamma a b fa fb delta j fmin).gamma r c ≡ gamma r c
  unfolding gamma_update
  gamma_update-other gamma a b fa fb delta j fmin =
      let slope : ℕ → W → W = λ i old. (fa i ⊖ fb i) ⊘ (a ⊖ b) in
      let mu = sum_below pr mdim calc_forces solve mdim (λ i. slope i (fa i) ⊗ fa i) ⊘ fmin in
      let less : ℕ → W → W = λ i old. old ⊖ (mu ⊗ fa i) in
      let first = fill_column pr mdim calc_forces solve gamma j slope in
      let second = fill_column pr mdim calc_forces solve first j less in
      normalized-other second gamma j delta (
        fill_column-other first gamma j less
          (fill_column-other gamma gamma j slope (λ r c ne. refl)))
