-- ===== src/Bracket/Tracking.antt =====
-- Behind every round the values and the force vectors belong to the points, whatever the exchanges of
-- pointers.
use potfit.Base.{ℕ, zero, suc, ◌≡◌, ◌≢◌, refl, sym, ◌∙◌, true, ltb, Bool-cases, inl, inr, ◌==◌}
use potfit.Base.Double.{Double, ge}
use potfit.Bracket.Buffers.{Buffer, vec1, vec2, write_self, write_ne}
use potfit.Bracket.{
  State, Found, found, Round, success, continue, evaluate_left, evaluate_right, counted, shift_left,
  shift_right, go_left, go_right, round, rounds, begin, center_lower, center_upper, bracket, result,
}

module _ {W V : Type 0} ⦃d : Double W⦄ (calc_forces : W → W × V) where
  -- The value and the force vector of a point.
  abbrev pub IsAt : W → W → V → Type 0
  IsAt x f v = (f ≡ (calc_forces x).0) × (v ≡ (calc_forces x).1)

  abbrev Apart : Buffer → Buffer → Buffer → Type 0
  Apart p q r = (p ≢ q) × (p ≢ r) × (q ≢ r)

  record IsTracked (s : State W V) : Type 0 where
    apart : Apart s.p_left s.p_center s.p_right
    left : IsAt s.x_left s.f_left (s.vec s.p_left)
    center : IsAt s.x_center s.f_center (s.vec s.p_center)
    right : IsAt s.x_right s.f_right (s.vec s.p_right)

  -- The end that is evaluated next need not belong to its point.
  abbrev LeftOpen : State W V → Type 0
  LeftOpen s =
      Apart s.p_left s.p_center s.p_right
      × IsAt s.x_center s.f_center (s.vec s.p_center)
      × IsAt s.x_right s.f_right (s.vec s.p_right)

  abbrev RightOpen : State W V → Type 0
  RightOpen s =
      Apart s.p_left s.p_center s.p_right
      × IsAt s.x_left s.f_left (s.vec s.p_left)
      × IsAt s.x_center s.f_center (s.vec s.p_center)

  evaluate_left-IsTracked :
      (x : W) (s : State W V) → LeftOpen s → IsTracked (evaluate_left calc_forces x s)
  unfolding evaluate_left
  evaluate_left-IsTracked x s (a, center, right) = record {
    apart = a;
    left = (refl, write_self s.vec s.p_left (calc_forces x).1);
    center = (center.0, write_ne s.vec s.p_left s.p_center (calc_forces x).1 a.0 ∙ center.1);
    right = (right.0, write_ne s.vec s.p_left s.p_right (calc_forces x).1 a.1 ∙ right.1);
  }

  evaluate_right-IsTracked :
      (x : W) (s : State W V) → RightOpen s → IsTracked (evaluate_right calc_forces x s)
  unfolding evaluate_right
  evaluate_right-IsTracked x s (a, left, center) = record {
    apart = a;
    left =
        (left.0, write_ne s.vec s.p_right s.p_left (calc_forces x).1 (λ e. a.1 (sym e)) ∙ left.1);
    center = (
      center.0,
      write_ne s.vec s.p_right s.p_center (calc_forces x).1 (λ e. a.2 (sym e)) ∙ center.1,
    );
    right = (refl, write_self s.vec s.p_right (calc_forces x).1);
  }

  go_right-IsTracked : (s : State W V) → IsTracked s → IsTracked (go_right calc_forces s)
  unfolding go_right
  go_right-IsTracked s t =
      evaluate_right-IsTracked _ (counted calc_forces (shift_right calc_forces s))
        ((t.apart.2, (λ e. t.apart.0 (sym e)), (λ e. t.apart.1 (sym e))), t.center, t.right)

  go_left-IsTracked : (s : State W V) → IsTracked s → IsTracked (go_left calc_forces s)
  unfolding go_left
  go_left-IsTracked s t =
      evaluate_left-IsTracked _ (counted calc_forces (shift_left calc_forces s))
        (((λ e. t.apart.1 (sym e)), (λ e. t.apart.2 (sym e)), t.apart.0), t.left, t.center)

  open_left :
      (s : State W V) (k : ℕ) → IsTracked s → LeftOpen (counted calc_forces (record s { last = k }))
  open_left s k t = (t.apart, t.center, t.right)

  open_right :
      (s : State W V) (k : ℕ)
      → IsTracked s
      → RightOpen (counted calc_forces (record s { last = k }))
  open_right s k t = (t.apart, t.left, t.center)

  -- A round that continues keeps the points tracked, and success means that the center is lowest.
  abbrev Kept : State W V → Round W V → Type 0
  Kept s o = elim o [
    | success ↦ (d.lt s.f_center s.f_left ≡ true) × (d.lt s.f_center s.f_right ≡ true)
    | continue t ↦ IsTracked t
  ]

  round-Kept : (s : State W V) → IsTracked s → Kept s (round calc_forces s)
  unfolding round
  round-Kept s t = elim (Bool-cases (d.lt s.f_center s.f_left)) [
    | inl a ↦ elim (Bool-cases (d.lt s.f_center s.f_right)) [
      | inl b ↦ rw (a, b, round) (a, b)
      | inr b ↦ elim (Bool-cases (d.lt s.f_right s.f_center)) [
        | inl c ↦ rw (a, b, c, round) (go_right-IsTracked s t)
        | inr c ↦
            rw (a, b, c, round)
              (evaluate_right-IsTracked _ (counted calc_forces (record s { last = 1 }))
                (open_right s 1 t))
      ]
    ]
    | inr a ↦ elim (Bool-cases (d.lt s.f_left s.f_center)) [
      | inl b ↦ rw (a, b, round) (go_left-IsTracked s t)
      | inr b ↦ elim (Bool-cases (d.lt s.f_center s.f_right)) [
        | inl c ↦
            rw (a, b, c, round)
              (evaluate_left-IsTracked _ (counted calc_forces (record s { last = 2 }))
                (open_left s 2 t))
        | inr c ↦ elim (Bool-cases (d.lt s.f_right s.f_center)) [
          | inl e ↦ rw (a, b, c, e, round) (go_right-IsTracked s t)
          | inr e ↦ elim (Bool-cases (s.last == 2)) [
            | inl f ↦
                rw (a, b, c, e, f, round)
                  (evaluate_left-IsTracked _ (counted calc_forces (record s { last = 1 }))
                    (open_left s 1 t))
            | inr f ↦
                rw (a, b, c, e, f, round)
                  (evaluate_right-IsTracked _ (counted calc_forces (record s { last = 2 }))
                    (open_right s 2 t))
          ]
        ]
      ]
    ]
  ]

  -- What a caller may rely on: three points with their values, the middle one strictly lowest, and the
  -- force vector of the middle one.
  pub record IsMinimum (r : Found W V) : Type 0 where
    pub lower : r.f_lower ≡ (calc_forces r.x_lower).0
    pub upper : r.f_upper ≡ (calc_forces r.x_upper).0
    pub minimum : IsAt r.x_minimum r.f_minimum r.f_vec1
    pub below_lower : d.lt r.f_minimum r.f_lower ≡ true
    pub below_upper : d.lt r.f_minimum r.f_upper ≡ true

  rounds-IsMinimum :
      (fuel : ℕ) (s : State W V) (r : Found W V)
      → IsTracked s
      → rounds calc_forces fuel s ≡ found r
      → IsMinimum r
  unfolding rounds
  rounds-IsMinimum zero s r t e = cc
  rounds-IsMinimum (suc fuel) s r t e =
      elim (round calc_forces s) as (λ o. round calc_forces s ≡ o → Kept s o → IsMinimum r) [
        | success ↦ λ eo k.
            let same : result calc_forces s ≡ r = cc (rw (eo, rounds) at e) in
            rw (← same) record {
              lower = t.left.0;
              upper = t.right.0;
              minimum = t.center;
              below_lower = k.0;
              below_upper = k.1;
            }
        | continue u ↦ λ eo k. elim (Bool-cases (ltb u.nb_eval 100)) [
          | inl more ↦ rounds-IsMinimum fuel u r k (rw (eo, more, rounds) at e)
          | inr stop ↦ cc (rw (eo, stop, rounds) at e)
        ]
      ]
        refl (round-Kept s t)

  module _ (x_lower x_upper f_lower f_upper : W) (vec : Buffer → V)
      (lower : IsAt x_lower f_lower (vec vec1)) (upper : IsAt x_upper f_upper (vec vec2)) where
    begin-IsTracked : IsTracked (begin calc_forces x_lower x_upper f_lower f_upper vec)
    unfolding begin
    begin-IsTracked = elim (Bool-cases (ge f_upper f_lower)) [
      | inl t ↦
          rw (t, begin)
            (evaluate_left-IsTracked _
              (counted calc_forces (center_lower calc_forces x_lower x_upper f_lower f_upper vec))
              (((λ e. cc), (λ e. cc), (λ e. cc)), lower, upper))
      | inr f ↦
          rw (f, begin)
            (evaluate_right-IsTracked _
              (counted calc_forces (center_upper calc_forces x_lower x_upper f_lower f_upper vec))
              (((λ e. cc), (λ e. cc), (λ e. cc)), lower, upper))
    ]

    -- If `bracket` is called with two points, their values and their force vectors in `f_vec1` and
    -- `f_vec2`, and returns, then the three values that it returns belong to the three points, the
    -- middle value is less than the two others, and `f_vec1` holds the forces of the middle point.
    pub bracket-IsMinimum :
        (r : Found W V)
        → bracket calc_forces x_lower x_upper f_lower f_upper vec ≡ found r
        → IsMinimum r
    unfolding bracket
    bracket-IsMinimum r =
        rounds-IsMinimum 100 (begin calc_forces x_lower x_upper f_lower f_upper vec) r
          begin-IsTracked
