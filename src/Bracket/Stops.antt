-- ===== src/Bracket/Stops.antt =====
-- Every branch of the loop of `bracket` raises `nb_eval`, and so the loop ends.
use potfit.Base.{
  ℕ, zero, suc, ◌+◌, ◌<◌, ◌≤◌, ◌≡◌, ◌≢◌, refl, ltb, arith, Bool-cases, inl, inr, ◌==◌,
}
use potfit.Base.Double.{Double, ge}
use potfit.Bracket.Buffers.{Buffer}
use potfit.Bracket.{
  State, out_of_rounds, Round, success, continue, evaluate_left, evaluate_right, go_left, go_right,
  round, rounds, begin, bracket,
}

module _ {W V : Type 0} ⦃d : Double W⦄ (calc_forces : W → W × V) where
  abbrev Raised : State W V → Round W V → Type 0
  Raised s o = elim o [ success ↦ Unit | continue t ↦ t.nb_eval ≡ s.nb_eval + 1 ]

  -- Each of the branches counts its evaluation.
  round-Raised : (s : State W V) → Raised s (round calc_forces s)
  unfolding round go_left go_right evaluate_left evaluate_right
  round-Raised s = elim (Bool-cases (d.lt s.f_center s.f_left)) [
    | inl a ↦ elim (Bool-cases (d.lt s.f_center s.f_right)) [
      | inl b ↦ rw (a, b, round) tt
      | inr b ↦ elim (Bool-cases (d.lt s.f_right s.f_center)) [
        | inl c ↦ rw (a, b, c, round) refl
        | inr c ↦ rw (a, b, c, round) refl
      ]
    ]
    | inr a ↦ elim (Bool-cases (d.lt s.f_left s.f_center)) [
      | inl b ↦ rw (a, b, round) refl
      | inr b ↦ elim (Bool-cases (d.lt s.f_center s.f_right)) [
        | inl c ↦ rw (a, b, c, round) refl
        | inr c ↦ elim (Bool-cases (d.lt s.f_right s.f_center)) [
          | inl e ↦ rw (a, b, c, e, round) refl
          | inr e ↦ elim (Bool-cases (s.last == 2)) [
            | inl f ↦ rw (a, b, c, e, f, round) refl
            | inr f ↦ rw (a, b, c, e, f, round) refl
          ]
        ]
      ]
    ]
  ]

  begin_counted :
      (x_lower x_upper f_lower f_upper : W) (vec : Buffer → V)
      → (begin calc_forces x_lower x_upper f_lower f_upper vec).nb_eval ≡ 1
  unfolding begin evaluate_left evaluate_right
  begin_counted x_lower x_upper f_lower f_upper vec = elim (Bool-cases (ge f_upper f_lower)) [
    | inl t ↦ rw (t, begin) refl
    | inr f ↦ rw (f, begin) refl
  ]

  rounds_stop :
      (fuel : ℕ) (s : State W V)
      → s.nb_eval < 100
      → 100 ≤ fuel + s.nb_eval
      → rounds calc_forces fuel s ≢ out_of_rounds
  unfolding rounds
  rounds_stop zero s h k e = absurd (omega arith)
  rounds_stop (suc fuel) s h k e =
      elim (round calc_forces s) as (λ o. round calc_forces s ≡ o → Raised s o → ⊥) [
        | success ↦ λ eo up. cc (rw (eo, rounds) at e)
        | continue u ↦ λ eo up. elim (Bool-cases (ltb u.nb_eval 100)) [
          | inl more ↦
              rounds_stop fuel u (ground (arith, more)) (omega arith) (rw (eo, more, rounds) at e)
          | inr stop ↦ cc (rw (eo, stop, rounds) at e)
        ]
      ]
        refl (round-Raised s)

  -- The loop stops by itself, since each of its branches counts its evaluation in `nb_eval`: `bracket`
  -- returns or ends the program within the 100 rounds of its fuel.
  pub bracket_stops :
      (x_lower x_upper f_lower f_upper : W) (vec : Buffer → V)
      → bracket calc_forces x_lower x_upper f_lower f_upper vec ≢ out_of_rounds
  unfolding bracket
  bracket_stops x_lower x_upper f_lower f_upper vec =
      let once = begin_counted x_lower x_upper f_lower f_upper vec in
      rounds_stop 100 (begin calc_forces x_lower x_upper f_lower f_upper vec) (omega (arith, once))
        (omega (arith, once))
