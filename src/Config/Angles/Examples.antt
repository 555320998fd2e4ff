-- ===== src/Config/Angles/Examples.antt =====
-- Three neighbors along the axes, in thousandths.
use potfit.Base.{ℕ, ◌+◌, ◌≡◌, refl, true, false, List, [], ◌∷◌, ok, arith, get_elem?, some}
use potfit.Base.Int.{pos, negsuc, ◌-ℤ◌, ◌+ℤ◌}
use potfit.Base.Double.{Milli, milli_double}
use potfit.Build.{Build, plain}
use potfit.PotentialHeader.{tabulated_eq_dist}
use potfit.Config.{Vector, Neighbor, zero_tensor}
use potfit.Config.Angles.{Angle, angle, init_angles}
use potfit.Config.Angles.Finding.{place, init_angles-at}

abbrev stiweb : Build
stiweb = record plain { pair = false; stiweb = true }

abbrev towards : Vector Milli → Neighbor Milli
towards v = record {
  type = 0;
  nr = 0;
  r = pos 1000;
  r2 = pos 1000;
  inv_r = pos 1000;
  dist = v;
  dist_r = v;
  sqrdist = zero_tensor;
  slots = [];
  ijk_start = 7;
}

abbrev left : Neighbor Milli
left = towards (record { x = negsuc 999; y = pos 0; z = pos 0 })

abbrev right : Neighbor Milli
right = towards (record { x = pos 1000; y = pos 0; z = pos 0 })

abbrev up : Neighbor Milli
up = towards (record { x = pos 0; y = pos 1000; z = pos 0 })

abbrev neighbors : List (Neighbor Milli)
neighbors = left ∷ right ∷ up ∷ []

abbrev end : ℕ → Milli
end c = pos 2500

abbrev started : List (Neighbor Milli)
started = record left { ijk_start = 0 } ∷ record right { ijk_start = 2 } ∷ up ∷ []

abbrev table : List (Angle Milli)
table =
    record { cos = negsuc 999; theta = pos 0 }
    ∷ record { cos = pos 0; theta = pos 0 }
    ∷ record { cos = pos 0; theta = pos 0 }
    ∷ []

made : init_angles stiweb tabulated_eq_dist end (λ c. c) neighbors ≡ ok (started, table)
unfolding init_angles ◌-ℤ◌ ◌+ℤ◌
made = refl

init_angles-at_example :
    (start : ℕ) × (get_elem? started 1 ≡ some (record right { ijk_start = start }))
    × (get_elem? table (start + place stiweb 1 2)
        ≡ some (angle stiweb tabulated_eq_dist end (λ c. c) right up))
init_angles-at_example =
    init_angles-at stiweb tabulated_eq_dist end (λ c. c) neighbors started table 1 2 refl refl made
      refl refl (omega arith) (λ t. omega arith)
