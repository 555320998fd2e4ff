-- ===== src/Bracket/Descent.antt =====
-- The middle of the bracket is at most the value at the lower end that `bracket` is given.
use potfit.Base.{ℕ, zero, suc, ◌≡◌, refl, ltb, Bool-cases, inl, inr, ◌==◌}
use potfit.Base.Double.{Double}
use potfit.Base.Order.{IsTransitive, IsTotal, Down, Down-le}
use potfit.Bracket.Buffers.{Buffer}
use potfit.Bracket.{
  State, Found, found, Round, success, continue, evaluate_left, evaluate_right, go_left, go_right,
  round, rounds, begin, bracket, result,
}

module _ {W V : Type 0} ⦃d : Double W⦄ (o : IsTransitive d) (calc_forces : W → W × V) where
  abbrev Lower : Round W V → W → Type 0
  Lower r f₀ = elim r [ success ↦ Unit | continue t ↦ Down o t.f_center f₀ ]

  -- The center changes only to an end with a lower value.
  round-Lower : (s : State W V) (f₀ : W) → Down o s.f_center f₀ → Lower (round calc_forces s) f₀
  unfolding round go_left go_right evaluate_left evaluate_right
  round-Lower s f₀ h = elim (Bool-cases (d.lt s.f_center s.f_left)) [
    | inl a ↦ elim (Bool-cases (d.lt s.f_center s.f_right)) [
      | inl b ↦ rw (a, b, round) tt
      | inr b ↦ elim (Bool-cases (d.lt s.f_right s.f_center)) [
        | inl c ↦ rw (a, b, c, round) (Down-le o s.f_right s.f_center f₀ (o.le_of_lt _ _ c) h)
        | inr c ↦ rw (a, b, c, round) h
      ]
    ]
    | inr a ↦ elim (Bool-cases (d.lt s.f_left s.f_center)) [
      | inl b ↦ rw (a, b, round) (Down-le o s.f_left s.f_center f₀ (o.le_of_lt _ _ b) h)
      | inr b ↦ elim (Bool-cases (d.lt s.f_center s.f_right)) [
        | inl c ↦ rw (a, b, c, round) h
        | inr c ↦ elim (Bool-cases (d.lt s.f_right s.f_center)) [
          | inl e ↦ rw (a, b, c, e, round) (Down-le o s.f_right s.f_center f₀ (o.le_of_lt _ _ e) h)
          | inr e ↦ elim (Bool-cases (s.last == 2)) [
            | inl f ↦ rw (a, b, c, e, f, round) h
            | inr f ↦ rw (a, b, c, e, f, round) h
          ]
        ]
      ]
    ]
  ]

  rounds-Down :
      (fuel : ℕ) (s : State W V) (r : Found W V) (f₀ : W)
      → Down o s.f_center f₀
      → rounds calc_forces fuel s ≡ found r
      → Down o r.f_minimum f₀
  unfolding rounds
  rounds-Down zero s r f₀ h e = cc
  rounds-Down (suc fuel) s r f₀ h e =
      elim (round calc_forces s)
          as (λ k. round calc_forces s ≡ k → Lower k f₀ → Down o r.f_minimum f₀) [
            | success ↦ λ ek l.
                let same : result calc_forces s ≡ r = cc (rw (ek, rounds) at e) in rw (← same) h
            | continue t ↦ λ ek l. elim (Bool-cases (ltb t.nb_eval 100)) [
              | inl more ↦ rounds-Down fuel t r f₀ l (rw (ek, more, rounds) at e)
              | inr stop ↦ cc (rw (ek, stop, rounds) at e)
            ]
          ]
        refl (round-Lower s f₀ h)

  -- On numbers, the middle value that `bracket` returns is at most the value at the lower end that it was
  -- given.
  pub bracket-Down :
      (t : IsTotal d) (x_lower x_upper f_lower f_upper : W) (vec : Buffer → V) (r : Found W V)
      → bracket calc_forces x_lower x_upper f_lower f_upper vec ≡ found r
      → Down o r.f_minimum f_lower
  unfolding bracket begin evaluate_left evaluate_right
  bracket-Down t x_lower x_upper f_lower f_upper vec r e =
      rounds-Down 100 (begin calc_forces x_lower x_upper f_lower f_upper vec) r f_lower
        (elim (Bool-cases (d.le f_lower f_upper)) [
          | inl a ↦ rw (a, begin) (inl refl)
          | inr a ↦ rw (a, begin) (inr (t.le_of_not-le f_lower f_upper a))
        ])
        e
