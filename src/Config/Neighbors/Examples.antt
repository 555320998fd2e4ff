-- ===== src/Config/Neighbors/Examples.antt =====
-- Two atoms of one type at a distance of 1.0, in thousandths. A square root of thousandths is the
-- number itself, which is right for 1.0.
use potfit.Base.{
  ℕ, ◌+◌, ◌≡◌, ◌≢◌, refl, true, false, List, [], ◌∷◌, ok, exit, arith, All, length, ◌/◌, ◌*◌, ◌<◌,
  ◌≤◌, if◌then◌else◌, ◌==◌, set, some,
}
use potfit.Base.Int.{pos, pos_part, ◌+ℤ◌, ◌-ℤ◌}
use potfit.Base.Double.{Milli, milli_double}
use potfit.Base.Ascending.{Beside}
use potfit.Build.{Build, plain}
use potfit.PairIndex.{paircol, pair_index}
use potfit.PotentialHeader.{tabulated_eq_dist, tabulated_non_eq_dist}
use potfit.Splines.{
  PotTable, splint_ne, splint_grad_ne, splint_comb_ne, splint_dir, splint_grad_dir, splint_comb_dir,
}
use potfit.Config.{Vector, Slot, Neighbor, count_mismatch, zero_tensor}
use potfit.Config.Slots.{set_neighbor_slot, set_neighbor_slot-splint_ne}
use potfit.Config.Neighbors.{Site, Geometry, init_neighbors, images, columns}
use potfit.Config.Neighbors.Columns.{IsInside, columns-IsInside}
use potfit.Config.Neighbors.Listed.{init_neighbors-ne-mismatch}
use potfit.Config.Neighbors.Close.{IsNeighborhood}
use potfit.Config.Neighbors.Within.{init_neighbors-IsNeighborhood}
use potfit.Config.Neighbors.Ahead.{Ahead, init_neighbors-Ahead}

abbrev pub column : PotTable Milli
column = record {
  begin = λ c. pos 500;
  end = λ c. pos 2500;
  step = λ c. pos 500;
  invstep = λ c. pos 2000;
  first = λ c. 2;
  last = λ c. 6;
  xcoord = λ i. pos (500 * i);
  d2tab = λ i. pos 0;
}

abbrev pub corner : Milli → Vector Milli
corner a = record { x = a; y = pos 0; z = pos 0 }

abbrev pub cell : Geometry Milli
cell = record {
  build = plain;
  ntypes = 1;
  format = tabulated_eq_dist;
  table = column;
  truncate = λ w. pos_part w / 1000;
  rcut = λ i j. pos 2000;
  box_x = corner (pos 5000);
  box_y = record { x = pos 0; y = pos 5000; z = pos 0 };
  box_z = record { x = pos 0; y = pos 0; z = pos 5000 };
  images = images 1 0 0;
  full = false;
}

abbrev pub atoms : List (Site Milli)
atoms =
    record { nr = 0; type = 0; pos = corner (pos 0) }
    ∷ record { nr = 1; type = 0; pos = corner (pos 1000) }
    ∷ []

abbrev pub far : ℕ → Milli
far c = pos 1000000

abbrev pub neighbor : Neighbor Milli
neighbor = record {
  type = 0;
  nr = 1;
  r = pos 1000;
  r2 = pos 1000;
  inv_r = pos 1000;
  dist = corner (pos 1000);
  dist_r = corner (pos 1000);
  sqrdist = zero_tensor;
  slots = record { slot = 3; shift = pos 0; step = pos 500; col = 0 } ∷ [];
  ijk_start = 0;
}

abbrev pub closest : ℕ → Milli
closest c = if c == 0 then pos 1000 else pos 1000000

pub made : init_neighbors cell atoms atoms far ≡ ok ((neighbor ∷ []) ∷ [] ∷ [], closest)
unfolding init_neighbors images set_neighbor_slot ◌+ℤ◌ ◌-ℤ◌ pair_index paircol
made = refl

init_neighbors-IsNeighborhood_example :
    Beside (IsNeighborhood cell 1 0 0 atoms) atoms ((neighbor ∷ []) ∷ [] ∷ [])
init_neighbors-IsNeighborhood_example =
    init_neighbors-IsNeighborhood cell 1 0 0 refl 0 atoms far closest ((neighbor ∷ []) ∷ [] ∷ [])
      (refl, (refl, tt)) made

init_neighbors-ne-mismatch_example : init_neighbors cell atoms atoms far ≢ exit count_mismatch
init_neighbors-ne-mismatch_example = init_neighbors-ne-mismatch cell atoms atoms far

init_neighbors-Ahead_example : Ahead 0 (0 + length atoms) ((neighbor ∷ []) ∷ [] ∷ [])
init_neighbors-Ahead_example =
    init_neighbors-Ahead cell 0 atoms far closest ((neighbor ∷ []) ∷ [] ∷ []) refl
      (refl, (refl, tt)) made

abbrev adp : Build
adp = record plain { pair = false; adp = true }

columns-IsInside_example : All (IsInside adp 2 1 0) (columns adp 2 1 0)
columns-IsInside_example =
    columns-IsInside adp 2 1 0 refl refl (λ e. cc) (omega arith) (omega arith)

abbrev linear : ℕ → Milli
linear i = pos (100 * i)

set_neighbor_slot-splint_ne_example :
    (s : Slot Milli) × (2 ≤ s.slot)
    × (s.slot < 6)
    × (s.col ≡ 0)
    × (set_neighbor_slot column
          (λ w. pos_part w / 1000)
          tabulated_non_eq_dist
          0
          (pos 1100)
          0
          neighbor
        ≡ ok (record neighbor { slots = set neighbor.slots 0 s }))
    × (splint_ne column linear 5 0 (pos 1100)
        ≡ some (splint_dir column linear s.slot s.shift s.step))
    × (splint_grad_ne column linear 5 0 (pos 1100)
        ≡ some (splint_grad_dir column linear s.slot s.shift s.step))
    × (splint_comb_ne column linear 5 0 (pos 1100)
        ≡ some (splint_comb_dir column linear s.slot s.shift s.step))
set_neighbor_slot-splint_ne_example =
    set_neighbor_slot-splint_ne column (λ w. pos_part w / 1000) linear 0 (pos 1100) 0 neighbor
      (omega arith)
