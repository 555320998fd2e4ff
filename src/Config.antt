-- ===== src/Config.antt =====
-- config.c: the box, the neighbor tables and the angles of a configuration, and the reader.
pub mod Slots
pub mod Neighbors
pub mod Angles
pub mod Box
pub mod Names
pub mod Header
pub mod Counts
pub mod Reader
use potfit.Base.{ℕ, ◌+◌, List}
use potfit.Base.Double.{Double, zero_double, ◌⊕◌, ◌⊗◌}
use potfit.Base.Int.{ℤ, pos, negsuc}

-- What `error(1, ...)` reports. `stuck` is no error of the code: fuel of the bisection that ran out.
pub data Failure : Type 0 where
  short_distance : Failure
  unknown_format : Failure
  count_mismatch : Failure
  stuck : Failure
  cosine_out_of_range : Failure
  parallel_edges : Failure
  tiny_cell : Failure

pub record Vector (W : Type 0) : Type 0 where
  pub x : W
  pub y : W
  pub z : W

pub record Tensor (W : Type 0) : Type 0 where
  pub xx : W
  pub yy : W
  pub zz : W
  pub xy : W
  pub yz : W
  pub zx : W

-- The cells `slot[i]`, `shift[i]`, `step[i]` and `col[i]` of a neighbor.
pub record Slot (W : Type 0) : Type 0 where
  pub slot : ℕ
  pub shift : W
  pub step : W
  pub col : ℕ

-- `neigh_t`, as far as config.c fills it.
pub record Neighbor (W : Type 0) : Type 0 where
  pub type : ℕ
  pub nr : ℕ
  pub r : W
  pub r2 : W
  pub inv_r : W
  pub dist : Vector W
  pub dist_r : Vector W
  pub sqrdist : Tensor W
  pub slots : List (Slot W)
  pub ijk_start : ℕ

module _ {W : Type 0} ⦃d : Double W⦄ where
  -- The macro SPROD.
  abbrev pub sprod : Vector W → Vector W → W
  sprod a b = ((a.x ⊗ b.x) ⊕ (a.y ⊗ b.y)) ⊕ (a.z ⊗ b.z)

  -- `(double)n`.
  abbrev pub of_int : ℤ → W
  of_int (pos n) = d.lit n 1
  of_int (negsuc n) = d.neg (d.lit (n + 1) 1)

  abbrev pub zero_slot : Slot W
  zero_slot = record { slot = 0; shift = zero_double; step = zero_double; col = 0 }

  abbrev pub zero_tensor : Tensor W
  zero_tensor = record {
    xx = zero_double;
    yy = zero_double;
    zz = zero_double;
    xy = zero_double;
    yz = zero_double;
    zx = zero_double;
  }
