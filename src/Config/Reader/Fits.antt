-- ===== src/Config/Reader/Fits.antt =====
-- The arrays that `create_memory_for_configs` makes, and what `read_config` puts into them.
use Prim.Native.String.{String}
use text.Mathlib.Text.{starts_with}
use potfit.Base.{ℕ, ◌+◌, ◌≤◌, ◌≡◌, false, List}
use potfit.Base.Double.{Double}
use potfit.Config.Header.{Reader, Source}
use potfit.Config.Counts.Tally.{tally, atoms_of, configs_of, IsText, IsTidy}

module _ {F W : Type 0} ⦃d : Double W⦄ (c : Source F W) where
  -- Only lines that begin with `#N` count.
  abbrev OfMarks : (String → ℕ) → Type 0
  OfMarks w = (line : String) → starts_with line "#N" ≡ false → w line ≡ 0

  module _ (text : F → List String) (f₀ : F) (file : IsText c text f₀)
      (tidy : IsTidy c text f₀) where
    -- What is read and what is still to come is not more than before.
    abbrev Below : F → Reader W → F → Reader W → Type 0
    Below f r f' r' =
        (r'.natoms + tally (atoms_of c) (text f') ≤ r.natoms + tally (atoms_of c) (text f))
        × (r'.nconf + tally (configs_of c) (text f') ≤ r.nconf + tally (configs_of c) (text f))
