-- ===== src/Elements.antt =====
-- The look-ups of elements.c: masses and atomic numbers by name, symbol or number.
mod Table
pub mod Lookup
mod Examples
use Prim.Native.String.{String, len}
use text.Mathlib.Text.{◌==◌ as str_eq}
use potfit.Base.{
  ℕ, suc, ◌+◌, ◌-◌, ◌^◌, List, [], ◌∷◌, none, some, Option, ◌||◌, if◌then◌else◌, ltb, get_elem?,
  length,
}
use potfit.Base.Int.{ℤ, pos, negsuc, ltb_ℤ}
use potfit.Base.Double.{Double}
use Table.{Element}
unfoldable pub use Table.{elements}

-- The conversion of an `int` to a 64-bit `size_t`.
abbrev to_size : ℤ → ℕ
to_size (pos n) = n
to_size (negsuc n) = 2 ^ 64 - suc n

-- The result of the loop `for (size_t i = 0; ...)`: the index of the first element whose `field`
-- is `name`, plus 1, or 0.
search_number : (Element → String) → String → ℕ → List Element → ℕ
search_number field name i [] = 0
search_number field name i (e ∷ es) =
    if str_eq name (field e) then i + 1 else search_number field name (i + 1) es

pub ele_number_from_name : String → ℕ
unfolding search_number
ele_number_from_name name =
    if ltb (len name) 3
    then search_number (λ e. e.short_name) name 0 elements
    else search_number (λ e. e.name) name 0 elements

module _ {W : Type 0} ⦃d : Double W⦄ where
  abbrev zero_mass : W
  zero_mass = d.lit 0 1

  abbrev mass_of : Option Element → W
  mass_of none = zero_mass
  mass_of (some e) = d.lit e.mass e.scale

  pub ele_mass_from_number : ℤ → W
  ele_mass_from_number num =
      if ltb (length elements) (to_size num) || ltb_ℤ num (pos 1)
      then zero_mass
      else mass_of (get_elem? elements (to_size num - 1))

  search_mass : (Element → String) → String → List Element → W
  search_mass field name [] = zero_mass
  search_mass field name (e ∷ es) =
      if str_eq name (field e) then d.lit e.mass e.scale else search_mass field name es

  pub ele_mass_from_name : String → W
  unfolding search_mass
  ele_mass_from_name name =
      if ltb (len name) 3
      then search_mass (λ e. e.short_name) name elements
      else search_mass (λ e. e.name) name elements
