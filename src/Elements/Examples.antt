-- ===== src/Elements/Examples.antt =====
-- Look-ups of single elements.
use potfit.Base.{◌≡◌, refl}
use potfit.Base.Int.{pos}
use potfit.Base.Double.{Milli, milli_double}
use potfit.Elements.{elements, ele_number_from_name, ele_mass_from_name}

iron : (ele_number_from_name "Iron" ≡ 26) × (ele_mass_from_name {W = Milli} "Fe" ≡ pos 55847)
unfolding ele_number_from_name ele_mass_from_name elements
iron = (refl, refl)

-- The table spells the symbol of seaborgium XX.
seaborgium : (ele_number_from_name "Sg" ≡ 0) × (ele_number_from_name "XX" ≡ 106)
unfolding ele_number_from_name elements
seaborgium = (refl, refl)
