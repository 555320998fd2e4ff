-- ===== src/Powell/Matrix.antt =====
-- The arrays of powell_lsq.c as functions of their indices, and the sums over the deviations.
use potfit.Base.{ℕ, ◌≡◌, ◌≢◌, refl, ◌&&◌, if◌then◌else◌, ◌==◌, ==_iff, Bool-cases, inl, inr, arith}

abbrev pub Matrix : Type 0 → Type 0
Matrix W = ℕ → ℕ → W

module _ {W : Type 0} where
  -- `a[i][k] = v` and `p[k] = v`.
  unfoldable pub put : Matrix W → ℕ → ℕ → W → Matrix W
  put a i k v r c = if (r == i) && (c == k) then v else a r c

  unfoldable pub put_entry : (ℕ → W) → ℕ → W → ℕ → W
  put_entry p k v r = if r == k then v else p r

  put_cases :
      (a : Matrix W) (i k : ℕ) (v : W) (r c : ℕ) (x : W)
      → (r ≡ i → c ≡ k → v ≡ x)
      → (((r ≡ i) × (c ≡ k) → ⊥) → a r c ≡ x)
      → put a i k v r c ≡ x
  unfolding put
  put_cases a i k v r c x h m = elim (Bool-cases (r == i)) [
    | inl e ↦ elim (Bool-cases (c == k)) [
      | inl e' ↦ rw (e, e', put) (h ((==_iff r i).0 e) ((==_iff c k).0 e'))
      | inr e' ↦ rw (e, e', put) (m (λ q. ground arith))
    ]
    | inr e ↦ rw (e, put) (m (λ q. ground arith))
  ]

  pub put_other : (a : Matrix W) (i k : ℕ) (v : W) (r c : ℕ) → c ≢ k → put a i k v r c ≡ a r c
  put_other a i k v r c h = put_cases a i k v r c (a r c) (λ e e'. absurd (h e')) (λ _. refl)

  -- A cell and its mirror image.
  unfoldable pub put_both : Matrix W → ℕ → ℕ → W → Matrix W
  unfolding put
  put_both a i k v = put (put a i k v) k i v

  pub put_both_cases :
      (a g : Matrix W) (i k : ℕ) (v : W) (r c : ℕ)
      → v ≡ g i k
      → v ≡ g k i
      → (((r ≡ i) × (c ≡ k) → ⊥) → ((r ≡ k) × (c ≡ i) → ⊥) → a r c ≡ g r c)
      → put_both a i k v r c ≡ g r c
  unfolding put_both
  put_both_cases a g i k v r c h h' m =
      put_cases (put a i k v) k i v r c (g r c) (λ e e'. rw (e, e') h')
        (λ n. put_cases a i k v r c (g r c) (λ e e'. rw (e, e') h) (λ n'. m n' n))

  pub put_entry_cases :
      (p : ℕ → W) (k : ℕ) (v : W) (r : ℕ) (x : W)
      → (r ≡ k → v ≡ x)
      → (r ≢ k → p r ≡ x)
      → put_entry p k v r ≡ x
  unfolding put_entry
  put_entry_cases p k v r x h m = elim (Bool-cases (r == k)) [
    | inl e ↦ rw (e, put_entry) (h ((==_iff r k).0 e))
    | inr e ↦ rw (e, put_entry) (m (λ q. ground arith))
  ]
