-- ===== src/Evo/Examples.antt =====
-- Runs of the sort, and its theorems at small pools.
use potfit.Base.{ℕ, ◌≡◌, refl, some, [], ◌∷◌, arith, swap}
use potfit.Base.Double.{Milli, milli_double}
use potfit.Base.Int.{pos}
use potfit.Evo.{Pool, swap_both, moves, partition_loop, partition, quicksort}
use potfit.Evo.Partition.{IsReordered}
use potfit.Evo.Quicksort.{quicksort_total}

abbrev three : Pool Milli ℕ
three = record { cost = pos 1 ∷ pos 2 ∷ pos 3 ∷ []; population = 10 ∷ 20 ∷ 30 ∷ [] }

abbrev falling : Pool Milli ℕ
falling = record { cost = pos 9 ∷ pos 2 ∷ pos 5 ∷ []; population = 10 ∷ 20 ∷ 30 ∷ [] }

-- The sort takes a sorted array of three apart.
quicksort_runs :
    quicksort 3 three 0 2
    ≡ some (record { cost = pos 2 ∷ pos 3 ∷ pos 1 ∷ []; population = 20 ∷ 30 ∷ 10 ∷ [] })
unfolding quicksort partition partition_loop moves swap_both swap
quicksort_runs = refl

quicksort_total_example :
    (r : Pool Milli ℕ) × (quicksort 3 three 0 2 ≡ some r) × IsReordered three r
quicksort_total_example = quicksort_total 3 three 0 2 refl (omega arith) (omega arith)
