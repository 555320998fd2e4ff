-- ===== src/Config/Counts.antt =====
-- `create_memory_for_configs`: the pass that counts the atoms and the configurations of a file before
-- they are read, and so how long the arrays are. Both sums are those of an `int` of 32 bits that wraps
-- around. A failed `fgets` is the end of the file; read errors are left out.
pub mod Tally
use Prim.Native.String.{String}
use text.Mathlib.Text.{starts_with}
use potfit.Base.{ℕ, zero, suc, true, false, none, some, Outcome, ok, exit, ◌>>=◌}
use potfit.Base.Int.{ℤ, pos, ◌+ℤ◌}
use potfit.Params.Settings.{to_int}
use potfit.PotentialHeader.{behind}
use potfit.Config.Header.{Failure, out_of_rounds, corrupt_atom_number, Source}

-- The lengths of `g_config.atoms` and of the arrays with a cell for each configuration.
pub record Lengths : Type 0 where
  pub atom_count : ℤ
  pub config_count : ℤ

module _ {F W : Type 0} (c : Source F W) where
  count_line : String → Lengths → Outcome Failure Lengths
  count_line line m = elim (starts_with line "#N") [
    | true ↦ elim (c.scan_count (behind 3 line)) [
      | none ↦ exit corrupt_atom_number
      | some count ↦ ok (record {
        atom_count = to_int (m.atom_count +ℤ count);
        config_count = to_int (m.config_count +ℤ pos 1);
      })
    ]
    | false ↦ ok m
  ]

  unfoldable pub create_memory_for_configs : ℕ → F → Lengths → Outcome Failure Lengths
  unfolding count_line
  create_memory_for_configs zero f m = exit out_of_rounds
  create_memory_for_configs (suc n) f m = elim (c.fgets f) [
    | none ↦ ok m
    | some got ↦ elim (c.feof got.1) [
      | true ↦ ok m
      | false ↦ count_line got.0 m >>= create_memory_for_configs n got.1
    ]
  ]
