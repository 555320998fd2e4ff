-- ===== src/Splines/Bisection.antt =====
-- The bisection finds the interval of a distance.
use potfit.Base.{
  ℕ, zero, suc, ◌+◌, ◌-◌, ◌/◌, ◌≤◌, ◌<◌, ◌≡◌, refl, true, false, some, leb, arith, Bool-cases, inl,
  inr, ◌⊎◌,
}
use potfit.Base.Double.{Double, gt}
use potfit.Splines.{PotTable, bisect}

module _ {W : Type 0} ⦃d : Double W⦄ (pt : PotTable W) (xi : ℕ → W) where
  -- An interval of neighbours between two indices: the lower end is the first index or not above `r`,
  -- the upper end is the last index or above `r`.
  pub record IsSlot (r : W) (first last klo khi : ℕ) : Type 0 where
    pub next : khi ≡ klo + 1
    pub first_le : first ≤ klo
    pub le_last : khi ≤ last
    pub lower : (klo ≡ first) ⊎ (gt (pt.xcoord klo) r ≡ false)
    pub upper : (khi ≡ last) ⊎ (gt (pt.xcoord khi) r ≡ true)

  module _ (r : W) (first last : ℕ) where
    bisect-IsSlot :
        (fuel klo khi : ℕ)
        → klo < khi
        → khi - klo < fuel
        → first ≤ klo
        → khi ≤ last
        → (klo ≡ first) ⊎ (gt (pt.xcoord klo) r ≡ false)
        → (khi ≡ last) ⊎ (gt (pt.xcoord khi) r ≡ true)
        → (klo' : ℕ) × (khi' : ℕ) × (bisect pt xi fuel r klo khi ≡ some (klo', khi'))
          × IsSlot r first last klo' khi'
    unfolding bisect
    bisect-IsSlot zero klo khi h f fl ll lo up = absurd (omega arith)
    bisect-IsSlot (suc fuel) klo khi h f fl ll lo up = elim (Bool-cases (leb (khi - klo) 1)) [
      | inl stop ↦ (
        klo,
        khi,
        rw (stop, bisect) refl,
        record { next = ground arith; first_le = fl; le_last = ll; lower = lo; upper = up },
      )
      | inr go ↦ elim (Bool-cases (gt (pt.xcoord ((khi + klo) / 2)) r)) [
        | inl above ↦
            let (k, l, e, s) =
              bisect-IsSlot fuel klo ((khi + klo) / 2) (ground arith) (ground arith) fl
                (ground arith) lo (inr above) in
            (k, l, rw (go, above, bisect) e, s)
        | inr below ↦
            let (k, l, e, s) =
              bisect-IsSlot fuel ((khi + klo) / 2) khi (ground arith) (ground arith) (ground arith)
                ll (inr below) up in
            (k, l, rw (go, below, bisect) e, s)
      ]
    ]

    -- For a column of at least two values the bisection ends, with fuel above its length, at two
    -- neighbours of the column. The lower one is not above the distance, unless it is the first of the
    -- column; the upper one is above it, unless it is the last.
    pub bisect_total :
        (fuel : ℕ)
        → first < last
        → last - first < fuel
        → (klo : ℕ) × (khi : ℕ) × (bisect pt xi fuel r first last ≡ some (klo, khi))
          × IsSlot r first last klo khi
    bisect_total fuel h f =
        bisect-IsSlot fuel first last h f (omega arith) (omega arith) (inl refl) (inl refl)
