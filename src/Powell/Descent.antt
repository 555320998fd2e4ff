-- ===== src/Powell/Descent.antt =====
-- A round of the inner loop keeps the system of equations, and goes down.
use potfit.Base.{
  ℕ, ◌≡◌, refl, sym, ap, ◌∙◌, Bool, not, ◌&&◌, List, [], ◌∷◌, suc, length, length-set, set, ok,
  exit, Bool-cases, inl, inr, ltb, arith,
}
use potfit.Base.Int.{pos, ltb_ℤ}
use potfit.Base.Double.{Double, gt, zero_double, ◌⊕◌, ◌⊗◌}
use potfit.Base.Order.{IsTransitive, IsTotal, Down, Down-trans}
use potfit.Base.Loop.{for_below-keeps}
use potfit.Optimizer.{Problem, cell}
use potfit.Linmin.{Moved, linmin, along, zip_with}
use potfit.Linmin.Descent.{linmin-IsDescent}
use potfit.Powell.Matrix.{Matrix}
use potfit.Powell.Gram.{IsSystem, lineqsys_update-IsSystem, gamma_update-other}
use potfit.Powell.{
  Solution, State, bottom, gamma_update, direction, component, any_exceeds, replaced, searched,
  with_update, replace_direction, inner_round,
}

module _ {W : Type 0} ⦃dbl : Double W⦄ (o : IsTransitive dbl) (total : IsTotal dbl)
    (mul_comm : (a b : W) → dbl.mul a b ≡ dbl.mul b a) (pr : Problem W) (mdim : ℕ)
    (calc_forces : List W → W × (ℕ → W)) (solve : Matrix W → (ℕ → W) → Solution W) where
  -- The parameters, their value and their deviations belong together, the value is at most `f₀`, and the
  -- system of equations is that of `gamma` and the deviations.
  pub record IsTracked (f₀ : W) (s : State W) : Type 0 where
    pub value : s.f1 ≡ (calc_forces s.xi).0
    pub forces : s.forces_1 ≡ (calc_forces s.xi).1
    pub lower : Down o s.f1 f₀
    pub sizes : length s.xi ≡ length s.delta
    pub system :
        IsSystem pr mdim calc_forces solve mul_comm pr.ndim s.gamma s.forces_1 s.lineqsys s.p

  with_update-IsTracked :
      (f₀ f2 : W) (s : State W) (delta : List W) (r : Moved W (ℕ → W)) (j : ℕ) (fa fb : ℕ → W)
      (fmin : W)
      → r.fx ≡ (calc_forces r.xi).0
      → r.fret1 ≡ (calc_forces r.xi).1
      → Down o r.fx f₀
      → length r.xi ≡ length r.del
      → IsSystem pr mdim calc_forces solve mul_comm pr.ndim s.gamma s.forces_1 s.lineqsys s.p
      → (let t = searched pr mdim calc_forces solve s r in
          IsTracked f₀ (
            with_update pr mdim calc_forces solve t f2 j
              (gamma_update pr mdim calc_forces solve s.gamma r.x1 r.x2 fa fb delta j fmin)))
  unfolding with_update
  with_update-IsTracked f₀ f2 s delta r j fa fb fmin v f l z k = record {
    value = v;
    forces = f;
    lower = l;
    sizes = z;
    system =
        let gamma =
          (gamma_update pr mdim calc_forces solve s.gamma r.x1 r.x2 fa fb delta j fmin).gamma in
        lineqsys_update-IsSystem pr mdim calc_forces solve mul_comm pr.ndim gamma s.gamma s.lineqsys
          r.fret1 s.forces_1 s.p s.p j
          (gamma_update-other pr mdim calc_forces solve mul_comm s.gamma r.x1 r.x2 fa fb delta j
            fmin)
          k;
  }

  -- The rest of the laws of numbers, and the rest of the call.
  module _ (add_zero : (a b : W) → a ⊕ (zero_double ⊗ b) ≡ a) (usemaxch : Bool) (maxchange : List W)
      (old : ℕ → W) where
    along_zero :
        (xi del : List W) → length xi ≡ length del → along calc_forces xi del zero_double ≡ xi
    unfolding along zip_with
    along_zero [] del h = refl
    along_zero (a ∷ xi) [] h = absurd (omega arith)
    along_zero (a ∷ xi) (b ∷ del) h = rw (add_zero a b, along_zero xi del (omega arith)) refl

    length-zip_with :
        (f : W → W → W) (xs ys : List W)
        → length xs ≡ length ys
        → length (zip_with f xs ys) ≡ length ys
    unfolding zip_with
    length-zip_with f [] [] h = refl
    length-zip_with f [] (y ∷ ys) h = absurd (omega arith)
    length-zip_with f (x ∷ xs) [] h = absurd (omega arith)
    length-zip_with f (x ∷ xs) (y ∷ ys) h = ap suc (length-zip_with f xs ys (omega arith))

    length-direction :
        (xi : List W) (d : Matrix W) (q : ℕ → W) (delta : List W)
        → length (direction pr mdim calc_forces solve xi d q delta) ≡ length delta
    unfolding direction
    length-direction xi d q delta =
        for_below-keeps (λ v. length v ≡ length delta) pr.ndim
          (λ i v. set v (cell pr i) (component pr mdim calc_forces solve xi d q i)) delta refl
          (λ i v _ h. length-set v (cell pr i) _ ∙ h)

    replace_direction-IsTracked :
        (f₀ : W) (sol : Solution W) (s t : State W) (delta : List W) (r : Moved W (ℕ → W))
        → r.fx ≡ (calc_forces r.xi).0
        → r.fret1 ≡ (calc_forces r.xi).1
        → Down o r.fx f₀
        → length r.xi ≡ length r.del
        → IsSystem pr mdim calc_forces solve mul_comm pr.ndim s.gamma s.forces_1 s.lineqsys s.p
        → replace_direction pr mdim calc_forces solve sol s delta r ≡ bottom t
        → IsTracked f₀ t
    unfolding replace_direction
    replace_direction-IsTracked f₀ sol s t delta r v f l z k e =
        let j = replaced pr mdim calc_forces solve s.p sol.q in
        let u =
          gamma_update pr mdim calc_forces solve s.gamma r.x1 r.x2 r.fret1 r.fret2 delta j r.fx in
        elim (Bool-cases (gt (sol.ferror ⊕ sol.berror) (dbl.lit 1 1) && ltb 5 s.m)) [
          | inl c ↦ cc (rw (c, replace_direction) at e)
          | inr c ↦ elim (Bool-cases u.singular) [
            | inl c' ↦ cc (rw (c, c', replace_direction) at e)
            | inr c' ↦
                let same : with_update pr mdim calc_forces solve
                      (searched pr mdim calc_forces solve s r) s.f1 j u
                    ≡ t =
                  cc (rw (c, c', replace_direction) at e) in
                rw (← same)
                  (with_update-IsTracked f₀ s.f1 s delta r j r.fret1 r.fret2 r.fx v f l z k)
          ]
        ]

    searched-IsTracked :
        (f₀ : W) (s t : State W) (sol : Solution W) (delta : List W) (r : Moved W (ℕ → W))
        → IsTracked f₀ s
        → length delta ≡ length s.delta
        → linmin calc_forces s.xi delta s.f1 s.forces_1 old ≡ ok r
        → replace_direction pr mdim calc_forces solve sol s delta r ≡ bottom t
        → IsTracked f₀ t
    searched-IsTracked f₀ s t sol delta r k size er e =
        let start : along calc_forces s.xi delta zero_double ≡ s.xi =
          along_zero s.xi delta (k.sizes ∙ sym size) in
        let descent =
          linmin-IsDescent o total mul_comm calc_forces s.xi delta s.f1 s.forces_1 old r
            (
              k.value ∙ ap (λ x. (calc_forces x).0) (sym start),
              k.forces ∙ ap (λ x. (calc_forces x).1) (sym start),
            )
            er in
        let fits : length s.xi ≡ length r.del = k.sizes ∙ sym size ∙ sym descent.size in
        replace_direction-IsTracked f₀ sol s t delta r descent.value descent.forces
          (Down-trans o r.fx s.f1 f₀ descent.lower k.lower)
          (ap length descent.step ∙ length-zip_with (λ a b. a ⊕ b) s.xi r.del fits) k.system e

    -- On numbers with a commutative product and with `a + 0 * b = a`: if a round of the inner loop comes
    -- to its bottom, the value and the deviations belong to the new parameters, the value is not above
    -- what it was not above before, and the matrix and the right side are again those that
    -- `lineqsys_init` would compute from the new `gamma` and the new deviations.
    pub inner_round-IsTracked :
        (f₀ : W) (s t : State W)
        → IsTracked f₀ s
        → inner_round pr mdim calc_forces solve usemaxch maxchange old s ≡ ok (bottom t)
        → IsTracked f₀ t
    unfolding inner_round
    inner_round-IsTracked f₀ s t k e =
        let sol = solve s.lineqsys s.p in
        let delta = direction pr mdim calc_forces solve s.xi s.d sol.q s.delta in
        let search = linmin calc_forces s.xi delta s.f1 s.forces_1 old in
        elim (Bool-cases (ltb_ℤ (pos 0) sol.info && not (ltb_ℤ (pos pr.ndim) sol.info))) [
          | inl c ↦ cc (rw (c, inner_round) at e)
          | inr c ↦
              elim (Bool-cases (any_exceeds pr mdim calc_forces solve usemaxch maxchange delta)) [
                | inl c' ↦ cc (rw (c, c', inner_round) at e)
                | inr c' ↦
                    elim search as (λ r. search ≡ r → IsTracked f₀ t) [
                      | exit reason ↦ λ er. cc (rw (c, c', er, inner_round) at e)
                      | ok r ↦ λ er.
                          let same : replace_direction pr mdim calc_forces solve sol s delta r
                              ≡ bottom t =
                            cc (rw (c, c', er, inner_round) at e) in
                          searched-IsTracked f₀ s t sol delta r k
                            (length-direction s.xi s.d sol.q s.delta) er same
                    ]
                      refl
              ]
        ]
