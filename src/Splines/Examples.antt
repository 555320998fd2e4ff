-- ===== src/Splines/Examples.antt =====
-- A column of five values from index 2 on, in thousandths.
use potfit.Base.{ℕ, ◌+◌, ◌*◌, ◌/◌, ◌≤◌, ◌≡◌, refl, arith, some, ok, if◌then◌else◌, leb, ltb}
use potfit.Base.Int.{pos, pos_part, ◌+ℤ◌, ◌-ℤ◌}
use potfit.Base.Double.{Milli, milli_double}
use potfit.Splines.{
  PotTable, bisect, splint_ne, splint_grad_ne, splint_comb_ne, splint_dir, splint_grad_dir,
  splint_comb_dir, splint_comb_ed, offset,
}
use potfit.Splines.Bisection.{IsSlot, bisect_total}
use potfit.Splines.Agreement.{SameColumn, place, width, splint_ne-splint_dir}

-- The distances 2.0, 2.5, 3.0, 3.5 and 4.0.
abbrev column : PotTable Milli
column = record {
  begin = λ c. pos 2000;
  end = λ c. pos 4000;
  step = λ c. pos 500;
  invstep = λ c. pos 2000;
  first = λ c. 2;
  last = λ c. 6;
  xcoord = λ i. pos (1000 + 500 * i);
  d2tab = λ i. pos 0;
}

abbrev values : ℕ → Milli
values i = pos (100 * i)

-- The same in the column, and zero elsewhere.
abbrev only_column : ℕ → Milli
only_column i = if ltb i 2 then pos 0 else if leb i 6 then pos (100 * i) else pos 0

abbrev cut : Milli → ℕ
cut w = pos_part w / 1000

found_slot : bisect column values 5 (pos 3100) 2 6 ≡ some (4, 5)
unfolding bisect
found_slot = refl

interpolated : splint_ne column values 5 0 (pos 3100) ≡ some (pos 420)
unfolding splint_ne ◌+ℤ◌ ◌-ℤ◌
interpolated = refl

bisect_total_example :
    (klo : ℕ) × (khi : ℕ) × (bisect column values 5 (pos 3100) 2 6 ≡ some (klo, khi))
    × IsSlot column values (pos 3100) 2 6 klo khi
bisect_total_example = bisect_total column values (pos 3100) 2 6 5 (omega arith) (omega arith)

splint_ne-splint_dir_example :
    (k : ℕ) × IsSlot column values (pos 3100) 2 6 k (k + 1)
    × (splint_ne column values 5 0 (pos 3100)
        ≡ some
            (splint_dir column values k (place column values (pos 3100) k) (width column values k)))
    × (splint_grad_ne column values 5 0 (pos 3100)
        ≡ some (
            splint_grad_dir column values k
              (place column values (pos 3100) k)
              (width column values k)))
    × (splint_comb_ne column values 5 0 (pos 3100)
        ≡ some (
            splint_comb_dir column values k
              (place column values (pos 3100) k)
              (width column values k)))
splint_ne-splint_dir_example =
    splint_ne-splint_dir column values 5 0 (pos 3100) (omega arith) (omega arith)

combined : splint_comb_ed column values cut 0 (pos 3100) ≡ ok (pos 420, pos 200)
unfolding splint_comb_ed ◌+ℤ◌ ◌-ℤ◌
combined = refl

same_column : SameColumn column values only_column 0
same_column i lo hi = ground arith

at_end : offset column values cut 0 (pos 4000) ≤ 4
unfolding ◌-ℤ◌
at_end = omega arith
