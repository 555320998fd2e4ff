-- ===== src/Config/Slots.antt =====
-- `set_neighbor_slot`: where a distance lies in the table of a potential.
use potfit.Base.{
  ℕ, zero, suc, ◌+◌, ◌-◌, ◌/◌, ◌≤◌, ◌<◌, ◌≡◌, ◌≢◌, refl, ◌∙◌, false, length, length-set,
  Option-cases, Option, none, some, if◌then◌else◌, leb, set, Outcome, ok, exit, ◌>>◌, exit_if,
  arith, Bool-cases, inl, inr, passed,
}
use potfit.Base.Double.{Double, gt, zero_double, ◌⊕◌, ◌⊖◌, ◌⊗◌, ◌⊘◌}
use potfit.PotentialHeader.{
  Format, analytic, tabulated_eq_dist, tabulated_non_eq_dist, kim, unknown,
}
use potfit.Splines.{
  PotTable, bisect, splint_ne, splint_grad_ne, splint_comb_ne, splint_dir, splint_grad_dir,
  splint_comb_dir, value_at, gradient_at,
}
use potfit.Splines.Bisection.{bisect_total}
use potfit.Config.{Failure, short_distance, unknown_format, count_mismatch, stuck, Slot, Neighbor}

module _ {W : Type 0} ⦃d : Double W⦄ (pt : PotTable W) (truncate : W → ℕ) where
  -- `(int)(rr * istep)`.
  abbrev pub whole_steps : ℕ → W → ℕ
  whole_steps col r = truncate ((r ⊖ pt.begin col) ⊗ pt.invstep col)

  -- An equidistant table.
  abbrev pub slot_ed : ℕ → W → Slot W
  slot_ed col r = record {
    slot = whole_steps col r + pt.first col;
    shift = ((r ⊖ pt.begin col) ⊖ (d.lit (whole_steps col r) 1 ⊗ pt.step col)) ⊗ pt.invstep col;
    step = pt.step col;
    col = col;
  }

  -- The loop `while (khi - klo > 1)`; `none`: the fuel ran out.
  unfoldable pub bisection : ℕ → W → ℕ → ℕ → Option (ℕ × ℕ)
  bisection zero r klo khi = none
  bisection (suc fuel) r klo khi =
      let slot = (khi + klo) / 2 in
      let above = gt (pt.xcoord slot) r in
      let rest = bisection fuel r (if above then klo else slot) (if above then slot else khi) in
      if leb (khi - klo) 1 then some (klo, khi) else rest

  bisection-bisect :
      (xi : ℕ → W) (fuel : ℕ) (r : W) (klo khi : ℕ)
      → bisection fuel r klo khi ≡ bisect pt xi fuel r klo khi
  unfolding bisection bisect
  bisection-bisect xi zero r klo khi = refl
  bisection-bisect xi (suc fuel) r klo khi =
      let slot = (khi + klo) / 2 in
      let above = gt (pt.xcoord slot) r in
      rw (bisection-bisect xi fuel r (if above then klo else slot) (if above then slot else khi))
        refl

  -- A table of distances, behind the bisection.
  abbrev pub slot_ne : ℕ → W → ℕ × ℕ → Slot W
  slot_ne col r (klo, khi) = record {
    slot = klo;
    shift = (r ⊖ pt.xcoord klo) ⊘ (pt.xcoord khi ⊖ pt.xcoord klo);
    step = pt.xcoord khi ⊖ pt.xcoord klo;
    col = col;
  }

  -- Left of the last index.
  abbrev pub left_of_last : Slot W → Slot W
  left_of_last s =
      if leb (pt.last s.col) s.slot
      then record s { slot = s.slot - 1; shift = s.shift ⊕ d.lit 1 1 }
      else s

  abbrev pub stored : ℕ → Neighbor W → Slot W → Neighbor W
  stored store n s = record n { slots = set n.slots store (left_of_last s) }

  unfoldable pub set_neighbor_slot : Format → ℕ → W → ℕ → Neighbor W → Outcome Failure (Neighbor W)
  unfolding bisection
  set_neighbor_slot analytic col r store n =
      exit_if (d.lt (r ⊖ pt.begin col) zero_double) short_distance
      >> ok (stored store n (slot_ed col r))
  set_neighbor_slot tabulated_eq_dist col r store n =
      exit_if (d.lt (r ⊖ pt.begin col) zero_double) short_distance
      >> ok (stored store n (slot_ed col r))
  set_neighbor_slot tabulated_non_eq_dist col r store n =
      elim (bisection (suc (pt.last col - pt.first col)) r (pt.first col) (pt.last col)) [
        | none ↦ exit stuck
        | some s ↦ ok (stored store n (slot_ne col r s))
      ]
  set_neighbor_slot kim col r store n = ok n
  set_neighbor_slot unknown col r store n = exit unknown_format

  -- On a table of distances with at least two values in the column, the slot is stored, lies left of
  -- the last index, and at it the routines for a known index give what those with a bisection give.
  pub set_neighbor_slot-splint_ne :
      (xi : ℕ → W) (col : ℕ) (r : W) (store : ℕ) (n : Neighbor W)
      → pt.first col < pt.last col
      → let fuel = suc (pt.last col - pt.first col) in
        (s : Slot W) × (pt.first col ≤ s.slot)
        × (s.slot < pt.last col)
        × (s.col ≡ col)
        × (set_neighbor_slot tabulated_non_eq_dist col r store n
            ≡ ok (record n { slots = set n.slots store s }))
        × (splint_ne pt xi fuel col r ≡ some (splint_dir pt xi s.slot s.shift s.step))
        × (splint_grad_ne pt xi fuel col r ≡ some (splint_grad_dir pt xi s.slot s.shift s.step))
        × (splint_comb_ne pt xi fuel col r ≡ some (splint_comb_dir pt xi s.slot s.shift s.step))
  unfolding set_neighbor_slot splint_ne splint_grad_ne splint_comb_ne splint_dir splint_grad_dir
      splint_comb_dir value_at gradient_at
  set_neighbor_slot-splint_ne xi col r store n h =
      let first = pt.first col in
      let last = pt.last col in
      let fuel = suc (last - first) in
      let (k, l, e, s) = bisect_total pt xi r first last fuel h (omega arith) in
      let e' : bisect pt xi fuel r first last ≡ some (k, k + 1) = rw (← s.next) e in
      let e'' : bisection fuel r first last ≡ some (k, k + 1) =
        bisection-bisect xi fuel r first last ∙ e' in
      let below : k < last = omega (arith, s.next, s.le_last) in
      let left : leb last k ≡ false = ground (arith, below) in
      (
        slot_ne col r (k, k + 1),
        s.first_le,
        below,
        refl,
        rw (e'', set_neighbor_slot) (rw left refl),
        rw (e', splint_ne) refl,
        rw (e', splint_grad_ne) refl,
        rw (e', splint_comb_ne) refl,
      )

  -- Only the slots of the neighbor change, and their number stays.
  pub set_neighbor_slot-keeps :
      (format : Format) (col : ℕ) (r : W) (store : ℕ) (n n' : Neighbor W)
      → set_neighbor_slot format col r store n ≡ ok n'
      → (n' ≡ record n { slots = n'.slots }) × (length n'.slots ≡ length n.slots)
  unfolding set_neighbor_slot
  set_neighbor_slot-keeps analytic col r store n n' e =
      let (far, e') = passed (d.lt (r ⊖ pt.begin col) zero_double) short_distance e in
      let same : stored store n (slot_ed col r) ≡ n' = cc in
      rw (← same) (refl, length-set n.slots store _)
  set_neighbor_slot-keeps tabulated_eq_dist col r store n n' e =
      let (far, e') = passed (d.lt (r ⊖ pt.begin col) zero_double) short_distance e in
      let same : stored store n (slot_ed col r) ≡ n' = cc in
      rw (← same) (refl, length-set n.slots store _)
  set_neighbor_slot-keeps tabulated_non_eq_dist col r store n n' e =
      let first = pt.first col in
      let last = pt.last col in
      elim (Option-cases (bisection (suc (last - first)) r first last)) [
        | inl out ↦ cc (rw (out, set_neighbor_slot) at e)
        | inr (s, found) ↦
            let e' = rw (found, set_neighbor_slot) at e in
            let same : stored store n (slot_ne col r s) ≡ n' = cc in
            rw (← same) (refl, length-set n.slots store _)
      ]
  set_neighbor_slot-keeps kim col r store n n' e =
      let same : n ≡ n' = cc in rw (← same) (refl, refl)
  set_neighbor_slot-keeps unknown col r store n n' e = cc

  pub set_neighbor_slot-ne-mismatch :
      (format : Format) (col : ℕ) (r : W) (store : ℕ) (n : Neighbor W)
      → set_neighbor_slot format col r store n ≢ exit count_mismatch
  unfolding set_neighbor_slot
  set_neighbor_slot-ne-mismatch analytic col r store n e =
      elim (Bool-cases (d.lt (r ⊖ pt.begin col) zero_double)) [
        | inl t ↦ cc (rw (t, set_neighbor_slot) at e)
        | inr f ↦ cc (rw (f, set_neighbor_slot) at e)
      ]
  set_neighbor_slot-ne-mismatch tabulated_eq_dist col r store n e =
      elim (Bool-cases (d.lt (r ⊖ pt.begin col) zero_double)) [
        | inl t ↦ cc (rw (t, set_neighbor_slot) at e)
        | inr f ↦ cc (rw (f, set_neighbor_slot) at e)
      ]
  set_neighbor_slot-ne-mismatch tabulated_non_eq_dist col r store n e =
      elim (Option-cases
        (bisection (suc (pt.last col - pt.first col)) r (pt.first col) (pt.last col))) [
          | inl out ↦ cc (rw (out, set_neighbor_slot) at e)
          | inr (s, found) ↦ cc (rw (found, set_neighbor_slot) at e)
        ]
  set_neighbor_slot-ne-mismatch kim col r store n e = cc
  set_neighbor_slot-ne-mismatch unknown col r store n e = cc
