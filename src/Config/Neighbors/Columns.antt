-- ===== src/Config/Neighbors/Columns.antt =====
-- The slots and columns of a neighbor, against the size of the arrays.
use potfit.Base.{ℕ, ◌+◌, ◌*◌, ◌≤◌, ◌<◌, ◌≡◌, false, All, arith, Bool, true}
use potfit.Build.{Build}
use potfit.PairIndex.{paircol, pair_index-lt-paircol}
use potfit.PotentialHeader.{npots}
use potfit.Config.Neighbors.{columns, slot_count}

abbrev bit : Bool → ℕ
bit true = 1
bit false = 0

-- The flags of the interactions that a binary is compiled for.
abbrev pub interactions : Build → ℕ
interactions b =
    bit b.pair + bit b.eam + bit b.adp + bit b.meam + bit b.ang + bit b.stiweb + bit b.tersoff

paircol-le-square : (n : ℕ) → paircol n ≤ n * n
unfolding paircol
paircol-le-square n = grind arith

module _ (b : Build) (n type1 type2 : ℕ) where
  abbrev pub IsInside : ℕ × ℕ → Type 0
  IsInside (store, col) = (store < slot_count b) × (col < npots b n)

  -- In a binary for one interaction other than KIM, where TBEAM goes with EAM: every slot that a
  -- neighbor's distance is stored in is one of its SLOTS, and every column is one of the potentials
  -- that the header of the potential file announces.
  pub columns-IsInside :
      b.kim ≡ false
      → interactions b ≡ 1
      → (b.tbeam ≡ true → b.eam ≡ true)
      → type1 < n
      → type2 < n
      → All IsInside (columns b n type1 type2)
  unfolding columns npots
  columns-IsInside kim one tb h k =
      let pair = pair_index-lt-paircol n type1 type2 h k in ground (arith, paircol-le-square n)
