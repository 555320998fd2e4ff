-- ===== src/Elements/Table.antt =====
-- The table `elements` of elements.c.
use Prim.Native.String.{String}
use potfit.Base.{ℕ, List, [], ◌∷◌}

pub record Element : Type 0 where
  pub name : String
  pub short_name : String
  -- the literal `mass / scale`
  pub mass : ℕ
  pub scale : ℕ

abbrev element : String → String → ℕ → ℕ → Element
element n s m d = record { name = n; short_name = s; mass = m; scale = d }

unfoldable pub elements : List Element
elements =
    element "Hydrogen" "H" 10079 10000
    ∷ element "Helium" "He" 40026 10000
    ∷ element "Lithium" "Li" 6941 1000
    ∷ element "Beryllium" "Be" 901218 100000
    ∷ element "Boron" "B" 1081 100
    ∷ element "Carbon" "C" 12011 1000
    ∷ element "Nitrogen" "N" 1400674 100000
    ∷ element "Oxygen" "O" 159994 10000
    ∷ element "Fluorine" "F" 18998403 1000000
    ∷ element "Neon" "Ne" 20179 1000
    ∷ element "Sodium" "Na" 2298977 100000
    ∷ element "Magnesium" "Mg" 24305 1000
    ∷ element "Aluminum" "Al" 2698154 100000
    ∷ element "Silicon" "Si" 28086 1000
    ∷ element "Phosphorus" "P" 3097376 100000
    ∷ element "Sulfur" "S" 3206 100
    ∷ element "Chlorine" "Cl" 35453 1000
    ∷ element "Argon" "Ar" 39948 1000
    ∷ element "Potassium" "K" 39098 1000
    ∷ element "Calcium" "Ca" 4008 100
    ∷ element "Scandium" "Sc" 449559 10000
    ∷ element "Titanium" "Ti" 479 10
    ∷ element "Vanadium" "V" 509414 10000
    ∷ element "Cromium" "Cr" 51996 1000
    ∷ element "Manganese" "Mn" 54938 1000
    ∷ element "Iron" "Fe" 55847 1000
    ∷ element "Cobalt" "Co" 589332 10000
    ∷ element "Nickel" "Ni" 587 10
    ∷ element "Copper" "Cu" 63546 1000
    ∷ element "Zinc" "Zn" 6538 100
    ∷ element "Gallium" "Ga" 6972 100
    ∷ element "Germanium" "Ge" 7263 100
    ∷ element "Arsenic" "As" 749216 10000
    ∷ element "Selenium" "Se" 7896 100
    ∷ element "Bromine" "Br" 79904 1000
    ∷ element "Krypton" "Kr" 838 10
    ∷ element "Rubidium" "Rb" 854678 10000
    ∷ element "Strontium" "Sr" 8762 100
    ∷ element "Yttrium" "Y" 889059 10000
    ∷ element "Zirconium" "Zr" 9122 100
    ∷ element "Niobium" "Nb" 929064 10000
    ∷ element "Molybdenum" "Mo" 9594 100
    ∷ element "Technetium" "Tc" 97 1
    ∷ element "Ruthenium" "Ru" 10107 100
    ∷ element "Rhodium" "Rh" 1029055 10000
    ∷ element "Palladium" "Pd" 1064 10
    ∷ element "Silver" "Ag" 107868 1000
    ∷ element "Cadmium" "Cd" 1124 10
    ∷ element "Indium" "In" 11482 100
    ∷ element "Tin" "Sn" 11869 100
    ∷ element "Antimony" "Sb" 12175 100
    ∷ element "Tellurium" "Te" 1276 10
    ∷ element "Iodine" "I" 1269045 10000
    ∷ element "Xenon" "Xe" 1313 10
    ∷ element "Cesium" "Cs" 1329054 10000
    ∷ element "Barium" "Ba" 13734 100
    ∷ element "Lanthanum" "La" 1389055 10000
    ∷ element "Cerium" "Ce" 14012 100
    ∷ element "Praseodynium" "Pr" 1409077 10000
    ∷ element "Neodymium" "Nd" 14424 100
    ∷ element "Promethium" "Pm" 145 1
    ∷ element "Samarium" "Sm" 1504 10
    ∷ element "Europium" "Eu" 15196 100
    ∷ element "Gadolinium" "Gd" 15725 100
    ∷ element "Terbium" "Tb" 1589254 10000
    ∷ element "Dysprosium" "Dy" 1625 10
    ∷ element "Holmium" "Ho" 1649304 10000
    ∷ element "Erbium" "Er" 16726 100
    ∷ element "Thulium" "Tm" 1689342 10000
    ∷ element "Ytterbium" "Yb" 17304 100
    ∷ element "Lutetium" "Lu" 17497 100
    ∷ element "Hafnium" "Hf" 17849 100
    ∷ element "Tantalum" "Ta" 1809479 10000
    ∷ element "Tungsten" "W" 1835 10
    ∷ element "Rhenium" "Re" 186207 1000
    ∷ element "Osmium" "Os" 1902 10
    ∷ element "Iridium" "Ir" 19222 100
    ∷ element "Platinum" "Pt" 19509 100
    ∷ element "Gold" "Au" 1969665 10000
    ∷ element "Mercury" "Hg" 20059 100
    ∷ element "Thallium" "Tl" 20437 100
    ∷ element "Lead" "Pb" 2072 10
    ∷ element "Bismuth" "Bi" 2089804 10000
    ∷ element "Polonium" "Po" 209 1
    ∷ element "Astatine" "At" 210 1
    ∷ element "Radon" "Rn" 222 1
    ∷ element "Francium" "Fr" 223 1
    ∷ element "Radium" "Ra" 2260254 10000
    ∷ element "Actinium" "Ac" 227 1
    ∷ element "Thorium" "Th" 2320381 10000
    ∷ element "Protactinium" "Pa" 2310359 10000
    ∷ element "Uranium" "U" 238029 1000
    ∷ element "Neptunium" "Np" 2370482 10000
    ∷ element "Plutonium" "Pu" 244 1
    ∷ element "Americium" "Am" 243 1
    ∷ element "Curium" "Cm" 247 1
    ∷ element "Berkelium" "Bk" 247 1
    ∷ element "Californium" "Cf" 251 1
    ∷ element "Einsteinium" "Es" 252 1
    ∷ element "Fermium" "Fm" 257 1
    ∷ element "Mendelevium" "Md" 258 1
    ∷ element "Nobelium" "No" 259 1
    ∷ element "Lawrencium" "Lr" 262 1
    ∷ element "Rutherfordium" "Rf" 261 1
    ∷ element "Dubnium" "Db" 262 1
    ∷ element "Seaborgium" "XX" 263 1
    ∷ element "Bohrium" "Bf" 262 1
    ∷ element "Hassium" "Hs" 269 1
    ∷ element "Meitnerium" "Mt" 278 1
    ∷ element "Darmstadtium" "Ds" 281 1
    ∷ []
