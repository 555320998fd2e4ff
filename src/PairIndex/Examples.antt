-- ===== src/PairIndex/Examples.antt =====
-- The pair index for three atom types.
use potfit.Base.{ℕ, ◌≡◌, refl, arith}
use potfit.PairIndex.{pair_index, pair_index_comm, pair_index_injective}

pair_index_comm_example : pair_index 3 0 2 ≡ pair_index 3 2 0
pair_index_comm_example = pair_index_comm 3 0 2

pair_index_injective_example : (◌≡◌ {A = ℕ} 1 1) × (◌≡◌ {A = ℕ} 2 2)
pair_index_injective_example =
    pair_index_injective 3 1 2 1 2 (omega arith) (omega arith) (omega arith) (omega arith) refl
