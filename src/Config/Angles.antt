-- ===== src/Config/Angles.antt =====
-- `init_angles`: the angles of an atom with two of its neighbors, in one array, and where in it the angles
-- of a neighbor begin.
pub mod Rows
pub mod Finding
mod Examples
use potfit.Base.{
  ℕ, zero, suc, ◌+◌, Bool, true, false, ◌&&◌, ◌||◌, List, [], ◌∷◌, ◌++◌, Option, none, some,
  if◌then◌else◌, get_or, length, Outcome, ok, ◌>>=◌, ◌>>◌, exit_if,
}
use potfit.Base.Double.{Double, gt, zero_double, ◌⊖◌}
use potfit.Build.{Build}
use potfit.PotentialHeader.{
  Format, analytic, tabulated_eq_dist, tabulated_non_eq_dist, kim, unknown,
}
use potfit.Config.{Failure, cosine_out_of_range, Neighbor, sprod, zero_slot}
use potfit.Config.Neighbors.{threebody}

-- `angle_t`, as far as the routine fills it.
pub record Angle (W : Type 0) : Type 0 where
  pub cos : W
  pub theta : W

-- The formats with the test of the cosine.
abbrev pub is_equidistant : Format → Bool
is_equidistant analytic = true
is_equidistant tabulated_eq_dist = true
is_equidistant tabulated_non_eq_dist = false
is_equidistant kim = false
is_equidistant unknown = false

-- A neighbor with those that it is paired with; `none`: `ijk_start` is not set.
abbrev pub Row : Type 0 → Type 0
Row W = Neighbor W × Option (List (Neighbor W))

module _ {W : Type 0} where
  -- `for (j = 0; j < nnn - 1; j++) for (k = j + 1; k < nnn; k++)`.
  pub half_rows : List (Neighbor W) → List (Row W)
  half_rows [] = []
  half_rows (n ∷ []) = (n, none) ∷ []
  half_rows (n ∷ m ∷ rest) = (n, some (m ∷ rest)) ∷ half_rows (m ∷ rest)

  abbrev pub without : ℕ → List (Neighbor W) → List (Neighbor W)
  without j [] = []
  without zero (n ∷ rest) = rest
  without (suc j) (n ∷ rest) = n ∷ without j rest

  -- TERSOFF: all `k` but `j`.
  pub full_rows : List (Neighbor W) → ℕ → List (Neighbor W) → List (Row W)
  full_rows all j [] = []
  full_rows all j (n ∷ rest) = (n, some (without j all)) ∷ full_rows all (j + 1) rest

-- `end` is `g_pot.calc_pot.end`, `acos` the function of math.h.
module _ {W : Type 0} ⦃d : Double W⦄ (b : Build) (format : Format) (end : ℕ → W)
    (acos : W → W) where
  -- ANG: the neighbors inside the cutoff of f.
  abbrev inside : Neighbor W → Bool
  inside n = d.lt n.r (end (get_or n.slots 1 zero_slot).col)

  abbrev all_inside : List (Neighbor W) → List (Neighbor W)
  all_inside [] = []
  all_inside (n ∷ rest) = if inside n then n ∷ all_inside rest else all_inside rest

  pub ang_rows : List (Neighbor W) → List (Row W)
  ang_rows [] = []
  ang_rows (n ∷ []) = (n, none) ∷ []
  ang_rows (n ∷ m ∷ rest) =
      (n, if inside n then some (all_inside (m ∷ rest)) else none) ∷ ang_rows (m ∷ rest)

  abbrev one : W
  one = d.lit 1 1

  abbrev clamped : W → W
  clamped c = if gt c one then one else if d.lt c (d.neg one) then d.neg one else c

  abbrev pub angle : Neighbor W → Neighbor W → Angle W
  angle n k =
      let ccos = sprod n.dist_r k.dist_r in
      record {
        cos = ccos;
        theta = if b.ang && is_equidistant format then acos (clamped ccos) else zero_double;
      }

  -- The loop over `k`.
  pub partners : Neighbor W → List (Neighbor W) → Outcome Failure (List (Angle W))
  partners n [] = ok []
  partners n (k ∷ ks) =
      exit_if
        (is_equidistant format && gt (d.fabs (sprod n.dist_r k.dist_r) ⊖ one) (d.lit 1 10000000000))
        cosine_out_of_range
      >> (partners n ks >>= (λ angles. ok (angle n k ∷ angles)))

  -- The loop over `j`, from some `ijk` on.
  pub walk : ℕ → List (Row W) → Outcome Failure (List (Neighbor W) × List (Angle W))
  unfolding partners
  walk ijk [] = ok ([], [])
  walk ijk ((n, none) ∷ rows) = walk ijk rows >>= (λ r. ok (n ∷ r.0, r.1))
  walk ijk ((n, some ks) ∷ rows) = partners n ks >>= (λ angles.
      walk (ijk + length angles) rows
      >>= (λ r. ok (record n { ijk_start = ijk } ∷ r.0, angles ++ r.1)))

  -- The body of the loop over the atoms; `num_angles` is the length of the array.
  unfoldable pub init_angles :
      List (Neighbor W) → Outcome Failure (List (Neighbor W) × List (Angle W))
  unfolding walk half_rows full_rows ang_rows
  init_angles neigh =
      if threebody b
      then walk 0 (
          if b.ang
          then ang_rows neigh
          else if b.tersoff
          then full_rows neigh 0 neigh
          else half_rows neigh)
      else ok (neigh, [])
