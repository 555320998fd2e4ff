-- ===== src/Config/Angles/Finding.antt =====
-- Where the angle of two neighbors stands.
use potfit.Base.{
  ℕ, zero, suc, ◌+◌, ◌-◌, ◌<◌, ◌≡◌, ◌≢◌, refl, sym, ap, ◌∙◌, true, false, ◌&&◌, List, [], ◌∷◌, ◌++◌,
  none, some, if◌then◌else◌, ltb, ltb→lt, length, get_elem?, ok, ◌>>=◌, through, passed, arith,
  Bool-cases, inl, inr,
}
use potfit.Base.Double.{Double, gt, ◌⊖◌}
use potfit.Build.{Build}
use potfit.PotentialHeader.{Format}
use potfit.Config.{Neighbor, sprod, cosine_out_of_range}
use potfit.Config.Neighbors.{threebody}
use potfit.Config.Angles.{
  Angle, Row, half_rows, full_rows, without, angle, partners, walk, init_angles, is_equidistant,
}
use potfit.Config.Angles.Rows.{
  get_elem?-append_left, get_elem?-append_right, half_rows-at, without-before, without-behind,
  full_rows-at,
}

-- Where the angle of the neighbors `j` and `k` stands behind the `ijk_start` of `j`.
abbrev pub place : Build → (j k : ℕ) → ℕ
place b j k = if b.tersoff then (if ltb k j then k else k - 1) else k - j - 1

module _ {W : Type 0} ⦃d : Double W⦄ (b : Build) (format : Format) (end : ℕ → W)
    (acos : W → W) where
  partners-at :
      (n : Neighbor W) (ks : List (Neighbor W)) (angles : List (Angle W)) (p : ℕ) {k : Neighbor W}
      → partners b format end acos n ks ≡ ok angles
      → get_elem? ks p ≡ some k
      → get_elem? angles p ≡ some (angle b format end acos n k)
  unfolding partners
  partners-at n [] angles p e h = cc
  partners-at n (m ∷ ks) angles p {k = k} e h =
      let (_, e1) =
        passed
          (is_equidistant format
            && gt (d.fabs (sprod n.dist_r m.dist_r) ⊖ d.lit 1 1) (d.lit 1 10000000000))
          cosine_out_of_range e in
      let (rest, e2, e3) =
        through (partners b format end acos n ks)
          (λ angles. ok (angle b format end acos n m ∷ angles)) angles e1 in
      let same : angle b format end acos n m ∷ rest ≡ angles = cc in
      rw (← same) (
        elim p
            as (λ p.
              get_elem? (m ∷ ks) p ≡ some k
              → get_elem? (angle b format end acos n m ∷ rest) p
                ≡ some (angle b format end acos n k)) [
                  | zero ↦ λ h. let it : m ≡ k = cc in rw it refl
                  | suc p' ↦ λ h. partners-at n ks rest p' e2 h
                ]
          h)

  walk-at :
      (rows : List (Row W)) (ijk : ℕ) (ns : List (Neighbor W)) (angles : List (Angle W)) (j p : ℕ)
      {n k : Neighbor W} {ks : List (Neighbor W)}
      → walk b format end acos ijk rows ≡ ok (ns, angles)
      → get_elem? rows j ≡ some (n, some ks)
      → get_elem? ks p ≡ some k
      → (start : ℕ) × (get_elem? ns j ≡ some (record n { ijk_start = ijk + start }))
        × (get_elem? angles (start + p) ≡ some (angle b format end acos n k))
  unfolding walk
  walk-at [] ijk ns angles j p e h h' = cc
  walk-at ((m, none) ∷ rows) ijk ns angles zero p e h h' = cc
  walk-at ((m, none) ∷ rows) ijk ns angles (suc j) p {n = n} {k = k} {ks = ks} e h h' =
      let (r, e1, e2) =
        through (walk b format end acos ijk rows) (λ r. ok (m ∷ r.0, r.1)) (ns, angles) e in
      let (start, at, found) = walk-at rows ijk r.0 r.1 j p e1 h h' in
      let left : m ∷ r.0 ≡ ns = cc in
      let right : r.1 ≡ angles = cc in
      (
        start,
        ap (λ (xs : List (Neighbor W)). get_elem? xs (suc j)) (sym left) ∙ at,
        ap (λ (xs : List (Angle W)). get_elem? xs (start + p)) (sym right) ∙ found,
      )
  walk-at ((m, some ms) ∷ rows) ijk ns angles zero p {n = n} {k = k} {ks = ks} e h h' =
      let (as', e1, e2) =
        through (partners b format end acos m ms)
          (λ angles.
            walk b format end acos (ijk + length angles) rows
            >>= (λ r. ok (record m { ijk_start = ijk } ∷ r.0, angles ++ r.1)))
          (ns, angles) e in
      let (r, e3, e4) =
        through (walk b format end acos (ijk + length as') rows)
          (λ r. ok (record m { ijk_start = ijk } ∷ r.0, as' ++ r.1)) (ns, angles) e2 in
      let left : record m { ijk_start = ijk } ∷ r.0 ≡ ns = cc in
      let right : as' ++ r.1 ≡ angles = cc in
      let own : m ≡ n = cc in
      let theirs : ms ≡ ks = cc in
      let here : ijk + 0 ≡ ijk = omega arith in
      let first : 0 + p ≡ p = omega arith in
      let found : get_elem? as' p ≡ some (angle b format end acos m k) =
        partners-at m ms as' p {k = k} e1 (rw theirs h') in
      (
        0,
        ap (λ (xs : List (Neighbor W)). get_elem? xs 0) (sym left)
            ∙ ap (λ (i : ℕ). some (record m { ijk_start = i })) (sym here)
            ∙ ap (λ (o : Neighbor W). some (record o { ijk_start = ijk + 0 })) own,
        ap (λ (xs : List (Angle W)). get_elem? xs (0 + p)) (sym right)
            ∙ ap (λ (i : ℕ). get_elem? (as' ++ r.1) i) first
            ∙ get_elem?-append_left as' r.1 p found
            ∙ ap (λ (o : Neighbor W). some (angle b format end acos o k)) own,
      )
  walk-at ((m, some ms) ∷ rows) ijk ns angles (suc j) p {n = n} {k = k} {ks = ks} e h h' =
      let (as', e1, e2) =
        through (partners b format end acos m ms)
          (λ angles.
            walk b format end acos (ijk + length angles) rows
            >>= (λ r. ok (record m { ijk_start = ijk } ∷ r.0, angles ++ r.1)))
          (ns, angles) e in
      let (r, e3, e4) =
        through (walk b format end acos (ijk + length as') rows)
          (λ r. ok (record m { ijk_start = ijk } ∷ r.0, as' ++ r.1)) (ns, angles) e2 in
      let left : record m { ijk_start = ijk } ∷ r.0 ≡ ns = cc in
      let right : as' ++ r.1 ≡ angles = cc in
      let (start, at, found) = walk-at rows (ijk + length as') r.0 r.1 j p e3 h h' in
      let there : ijk + (length as' + start) ≡ ijk + length as' + start = omega arith in
      (
        length as' + start,
        ap (λ (xs : List (Neighbor W)). get_elem? xs (suc j)) (sym left)
            ∙ at
            ∙ ap (λ (i : ℕ). some (record n { ijk_start = i })) (sym there),
        ap (λ (xs : List (Angle W)). get_elem? xs (length as' + start + p)) (sym right)
            ∙ get_elem?-append_right as' r.1 (length as' + start + p) (start + p) (omega arith)
            ∙ found,
      )

  -- In a binary for a three-body interaction other than ANG: if the angles of an atom are made, then for
  -- every neighbor `j` and every other neighbor `k`, in a half list every later one, the array has the
  -- angle of the two `place b j k` behind the `ijk_start` that the neighbor `j` now has.
  pub init_angles-at :
      (neigh ns : List (Neighbor W)) (angles : List (Angle W)) (j k : ℕ) {n m : Neighbor W}
      → threebody b ≡ true
      → b.ang ≡ false
      → init_angles b format end acos neigh ≡ ok (ns, angles)
      → get_elem? neigh j ≡ some n
      → get_elem? neigh k ≡ some m
      → j ≢ k
      → (b.tersoff ≡ false → j < k)
      → (start : ℕ) × (get_elem? ns j ≡ some (record n { ijk_start = start }))
        × (get_elem? angles (start + place b j k) ≡ some (angle b format end acos n m))
  unfolding init_angles
  init_angles-at neigh ns angles j k {n = n} {m = m} three ang e h h' ne half =
      elim (Bool-cases b.tersoff) [
        | inl t ↦
            let taken : init_angles b format end acos neigh
                ≡ walk b format end acos 0 (full_rows neigh 0 neigh) =
              ground (arith, three, ang, t) in
            let rows = full_rows-at neigh neigh 0 j h in
            let same : 0 + j ≡ j = omega arith in
            let p = if ltb k j then k else k - 1 in
            let at : place b j k ≡ p = ground (arith, t) in
            let other : get_elem? (without j neigh) p ≡ some m = elim (Bool-cases (ltb k j)) [
              | inl before ↦ rw before (without-before j k neigh (ltb→lt k j before) ∙ h')
              | inr behind ↦
                  let later : j < k = ground (arith, behind, ne) in
                  let next : suc (k - 1) ≡ k = omega arith in
                  rw behind (without-behind j (k - 1) neigh (omega arith) ∙ rw next h')
            ] in
            let (start, there, found) =
              walk-at (full_rows neigh 0 neigh) 0 ns angles j p {k = m} (sym taken ∙ e)
                (rw same at rows) other in
            let e0 : 0 + start ≡ start = omega arith in
            (
              start,
              there ∙ ap (λ (i : ℕ). some (record n { ijk_start = i })) e0,
              ap (λ (i : ℕ). get_elem? angles (start + i)) at ∙ found,
            )
        | inr t ↦
            let taken : init_angles b format end acos neigh
                ≡ walk b format end acos 0 (half_rows neigh) =
              ground (arith, three, ang, t) in
            let at : place b j k ≡ k - j - 1 = ground (arith, t) in
            let lt = half t in
            let there : j + 1 + (k - j - 1) ≡ k = omega arith in
            let (ks, row, other) = half_rows-at neigh j (k - j - 1) {k = m} h (rw there h') in
            let (start, there, found) =
              walk-at (half_rows neigh) 0 ns angles j (k - j - 1) (sym taken ∙ e) row other in
            let e0 : 0 + start ≡ start = omega arith in
            (
              start,
              there ∙ ap (λ (i : ℕ). some (record n { ijk_start = i })) e0,
              ap (λ (i : ℕ). get_elem? angles (start + i)) at ∙ found,
            )
      ]
