-- ===== src/Linmin/Examples.antt =====
-- A line search on one parameter for the minimum of (x - 2)^2, in thousandths.
use potfit.Base.{◌≡◌, refl, List, [], ◌∷◌, ok, arith}
use potfit.Base.Int.{pos, negsuc, ◌+ℤ◌, ◌-ℤ◌}
use potfit.Base.Double.{Milli, milli_double, ◌⊕◌, ◌⊖◌, ◌⊗◌}
use potfit.Base.Milli.{milli_total, milli_transitive}
use potfit.Bracket.Buffers.{write}
use potfit.Bracket.{bracket}
use potfit.Bracket.Tracking.{IsAt}
use potfit.Brent.{brent}
use potfit.Linmin.{Moved, linmin, along, on_line}
use potfit.Linmin.Descent.{IsDescent, linmin-IsDescent}

abbrev shifted : Milli → Milli
shifted x = x ⊖ pos 2000

abbrev valley : List Milli → Milli × Milli
valley [] = (pos 0, pos 0)
valley (x ∷ _) = (shifted x ⊗ shifted x, shifted x ⊕ shifted x)

milli_mul_comm : (a b : Milli) → milli_double.mul a b ≡ milli_double.mul b a
milli_mul_comm (pos a) (pos b) = grind arith
milli_mul_comm (pos a) (negsuc b) = grind arith
milli_mul_comm (negsuc a) (pos b) = grind arith
milli_mul_comm (negsuc a) (negsuc b) = grind arith

abbrev start : List Milli
start = pos 0 ∷ []

abbrev direction : List Milli
direction = pos 1000 ∷ []

abbrev landed : Moved Milli Milli
landed = record {
  fx = pos 5;
  xi = pos 2073 ∷ [];
  del = pos 2073 ∷ [];
  x1 = pos 2073;
  x2 = pos 1866;
  fret1 = pos 146;
  fret2 = negsuc 267;
}

tried : linmin valley start direction (pos 4000) (negsuc 3999) (pos 0) ≡ ok landed
unfolding linmin bracket brent along write ◌+ℤ◌ ◌-ℤ◌
tried = refl

IsAt-origin : IsAt (on_line valley start direction) (pos 0) (pos 4000) (negsuc 3999)
unfolding along ◌+ℤ◌ ◌-ℤ◌
IsAt-origin = (refl, refl)

linmin-IsDescent_example :
    IsDescent milli_transitive milli_total milli_mul_comm valley start direction
      (pos 4000)
      (negsuc 3999)
      (pos 0)
      landed
linmin-IsDescent_example =
    linmin-IsDescent milli_transitive milli_total milli_mul_comm valley start direction (pos 4000)
      (negsuc 3999) (pos 0) landed IsAt-origin tried
