-- ===== src/PotentialHeader/Count.antt =====
-- The number of entries of `#I` that are 1.
use potfit.Base.{ℕ, ◌+◌, ◌≤◌, List, [], ◌∷◌, if◌then◌else◌, length, arith}
use potfit.Base.Int.{ℤ, eq_ℤ, pos}

unfoldable pub ones : List ℤ → ℕ
ones [] = 0
ones (z ∷ zs) = if eq_ℤ z (pos 1) then ones zs + 1 else ones zs

pub ones-le-length : (zs : List ℤ) → ones zs ≤ length zs
unfolding ones
ones-le-length [] = omega arith
ones-le-length (z ∷ zs) = ground (arith, ones-le-length zs)
