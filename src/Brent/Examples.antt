-- ===== src/Brent/Examples.antt =====
-- A search on the line x -> (x - 2)^2, in thousandths.
use potfit.Base.{◌≡◌, refl, ok}
use potfit.Base.Int.{pos, negsuc, ◌+ℤ◌, ◌-ℤ◌}
use potfit.Base.Double.{Milli, milli_double, ◌⊖◌, ◌⊕◌, ◌⊗◌}
use potfit.Base.Milli.{milli_transitive}
use potfit.Bracket.Buffers.{Buffer, write}
use potfit.Bracket.Tracking.{IsAt}
use potfit.Brent.{Minimum, brent}
use potfit.Brent.Tracking.{IsLowered, brent-IsLowered}

abbrev valley : Milli → Milli × Milli
valley x = let y = x ⊖ pos 2000 in (y ⊗ y, y ⊕ y)

abbrev buffers : Buffer → Milli
buffers _ = negsuc 1999

abbrev lowest : Minimum Milli Milli
lowest = record {
  f_z = pos 0;
  xmin = pos 2002;
  xmin2 = pos 1802;
  fxmin = pos 4;
  fxmin2 = negsuc 395;
}

searched : brent valley (pos 100) (pos 0) (pos 1000) (pos 5000) (pos 1000) buffers ≡ ok lowest
unfolding brent write ◌+ℤ◌ ◌-ℤ◌
searched = refl

IsAt-middle : IsAt valley (pos 1000) (pos 1000) (negsuc 1999)
unfolding ◌-ℤ◌ ◌+ℤ◌
IsAt-middle = (refl, refl)

brent-IsLowered_example : IsLowered milli_transitive valley (pos 100) (pos 1000) lowest
brent-IsLowered_example =
    brent-IsLowered milli_transitive valley (pos 100) (pos 0) (pos 1000) (pos 5000) (pos 1000)
      buffers lowest IsAt-middle searched
