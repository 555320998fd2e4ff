-- ===== src/Bracket/Examples.antt =====
-- A bracket of the minimum of (x - 2)^2, in thousandths; the force vector is the slope.
use potfit.Base.{◌≡◌, ◌≢◌, refl}
use potfit.Base.Int.{pos, negsuc, ◌+ℤ◌, ◌-ℤ◌}
use potfit.Base.Double.{Milli, milli_double, ◌⊕◌, ◌⊖◌, ◌⊗◌}
use potfit.Bracket.{Found, found, bracket, out_of_rounds}
use potfit.Bracket.Buffers.{Buffer, vec1, vec2, vec3, write}
use potfit.Bracket.Tracking.{IsMinimum, bracket-IsMinimum}
use potfit.Bracket.Stops.{bracket_stops}

abbrev parabola : Milli → Milli × Milli
parabola x = ((x ⊖ pos 2000) ⊗ (x ⊖ pos 2000), (x ⊖ pos 2000) ⊕ (x ⊖ pos 2000))

-- The force vectors of 0 and 0.1; nothing was written to the third buffer.
abbrev vectors : Buffer → Milli
vectors vec1 = (parabola (pos 0)).1
vectors vec2 = (parabola (pos 100)).1
vectors vec3 = pos 0

abbrev valley : Found Milli Milli
valley = record {
  x_lower = pos 952;
  x_minimum = pos 1645;
  x_upper = pos 2770;
  f_lower = pos 1098;
  f_minimum = pos 126;
  f_upper = pos 592;
  f_vec1 = negsuc 709;
}

valley_found :
    bracket parabola (pos 0) (pos 100) (parabola (pos 0)).0 (parabola (pos 100)).0 vectors
    ≡ found valley
unfolding bracket write ◌+ℤ◌ ◌-ℤ◌
valley_found = refl

bracket-IsMinimum_example : IsMinimum parabola valley
bracket-IsMinimum_example =
    bracket-IsMinimum parabola (pos 0) (pos 100) (parabola (pos 0)).0 (parabola (pos 100)).0 vectors
      (refl, refl) (refl, refl) valley valley_found

bracket_stops_example :
    bracket parabola (pos 0) (pos 100) (parabola (pos 0)).0 (parabola (pos 100)).0 vectors
    ≢ out_of_rounds
bracket_stops_example =
    bracket_stops parabola (pos 0) (pos 100) (parabola (pos 0)).0 (parabola (pos 100)).0 vectors
