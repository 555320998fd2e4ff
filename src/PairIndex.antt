-- ===== src/PairIndex.antt =====
-- The index of the pair potential of two atom types, as potential_input.c and config.c compute it:
-- the upper triangle of a symmetric `n` by `n` matrix, row after row.
mod Examples
use native.Mathlib.Nat.{le_refl}
use native.Mathlib.Decide.{dec_le, dec_lt, ℕ_discrete}
use potfit.Base.{ℕ, zero, suc, ◌+◌, ◌-◌, ◌*◌, ◌/◌, ◌≤◌, ◌<◌, ◌≡◌, refl, arith, if◌then◌else◌, leb}

-- `g_calc.paircol = (g_param.ntypes * (g_param.ntypes + 1)) / 2`
unfoldable pub paircol : ℕ → ℕ
paircol n = n * (n + 1) / 2

unfoldable pub pair_index : ℕ → ℕ → ℕ → ℕ
pair_index n i j = if leb i j then i * n + j - i * (i + 1) / 2 else j * n + i - j * (j + 1) / 2

-- The index where row `i` of the triangle begins.
row : ℕ → ℕ → ℕ
row n i = i * n + i - paircol i

paircol-suc : (i : ℕ) → paircol (suc i) ≡ paircol i + suc i
unfolding paircol
paircol-suc i = omega arith

paircol-le : (n i : ℕ) → i ≤ n → paircol i ≤ i * n + i
unfolding paircol
paircol-le n i h = grind arith

row-suc : (n i : ℕ) → i < n → row n (suc i) ≡ row n i + (n - i)
unfolding row
row-suc n i h = grind (arith, paircol-suc i, paircol-le n i)

row-zero : (n : ℕ) → row n 0 ≡ 0
unfolding row paircol
row-zero n = omega arith

row_mono : (n i k : ℕ) → k ≤ n → i ≤ k → row n i ≤ row n k
row_mono n i zero hk h = let e : i ≡ 0 = omega arith in rw e (le_refl _)
row_mono n i (suc k) hk h = elim (dec_le i k) [
  | yes p ↦ omega (arith, row_mono n i k (omega arith) p, row-suc n k hk)
  | no p ↦ let e : i ≡ suc k = omega arith in rw e (le_refl _)
]

paircol-double : (n : ℕ) → 2 * paircol n ≡ n * n + n
paircol-double zero = unfold paircol in refl
paircol-double (suc n) = omega (arith, paircol-suc n, paircol-double n)

row-end : (n : ℕ) → row n n ≡ paircol n
unfolding row
row-end n = omega (arith, paircol-double n)

pair_index-eq-row : (n i j : ℕ) → i ≤ j → j < n → pair_index n i j ≡ row n i + (j - i)
unfolding pair_index row paircol
pair_index-eq-row n i j h k = ground (arith, paircol-le n i)

-- The order of the two types does not matter.
pub pair_index_comm : (n i j : ℕ) → pair_index n i j ≡ pair_index n j i
unfolding pair_index
pair_index_comm n i j = elim (ℕ_discrete i j) [ yes e ↦ rw e refl | no ne ↦ ground arith ]

pair_index-bound_le : (n i j : ℕ) → i ≤ j → j < n → pair_index n i j < paircol n
pair_index-bound_le n i j h k = omega (
  arith,
  pair_index-eq-row n i j h k,
  row-suc n i,
  row_mono n (suc i) n (omega arith) (omega arith),
  row-end n,
)

-- Every pair of types has its place among the `paircol` pair potentials.
pub pair_index-lt-paircol : (n i j : ℕ) → i < n → j < n → pair_index n i j < paircol n
pair_index-lt-paircol n i j hi hj = elim (dec_le i j) [
  | yes p ↦ pair_index-bound_le n i j p hj
  | no p ↦ rw (pair_index_comm n i j) (pair_index-bound_le n j i (omega arith) hi)
]

pair_index-row_le :
    (n i j k l : ℕ) → i < k → i ≤ j → j < n → k ≤ l → l < n → pair_index n i j < pair_index n k l
pair_index-row_le n i j k l p hij hj hkl hl = omega (
  arith,
  pair_index-eq-row n i j hij hj,
  pair_index-eq-row n k l hkl hl,
  row-suc n i,
  row_mono n (suc i) k (omega arith) p,
)

-- Two pairs of types, each written in ascending order, share a potential only if they are one pair.
pub pair_index_injective :
    (n i j k l : ℕ)
    → i ≤ j
    → j < n
    → k ≤ l
    → l < n
    → pair_index n i j ≡ pair_index n k l
    → (i ≡ k) × (j ≡ l)
pair_index_injective n i j k l hij hj hkl hl e = elim (ℕ_discrete i k) [
  | yes p ↦ ground (arith, pair_index-eq-row n i j hij hj, pair_index-eq-row n k l hkl hl)
  | no p ↦ ground (arith, pair_index-row_le n i j k l, pair_index-row_le n k l i j)
]

-- The row that holds index `c` of the first `m` rows.
find_row :
    (n c m : ℕ) → m ≤ n → c < row n m → (i : ℕ) × (i < m) × (row n i ≤ c) × (c < row n (suc i))
find_row n c zero hm h = absurd (omega (arith, row-zero n))
find_row n c (suc m) hm h = elim (dec_lt c (row n m)) [
  | yes p ↦ let (i, hi, lo, up) = find_row n c m (omega arith) p in (i, omega arith, lo, up)
  | no p ↦ (m, omega arith, omega arith, h)
]

-- Every one of the `paircol` potentials is that of some pair of types.
pub pair_index_surjective :
    (n c : ℕ) → c < paircol n → (i : ℕ) × (j : ℕ) × (i ≤ j) × (j < n) × (pair_index n i j ≡ c)
pair_index_surjective n c h =
    let (i, hi, lo, up) = find_row n c n (le_refl n) (omega (arith, row-end n)) in
    let j : ℕ = i + (c - row n i) in
    let hj : j < n = omega (arith, row-suc n i hi) in
    (i, j, omega arith, hj, omega (arith, pair_index-eq-row n i j (omega arith) hj))
