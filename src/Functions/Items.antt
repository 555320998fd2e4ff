-- ===== src/Functions/Items.antt =====
-- functions.itm: the analytic potentials of a binary, with their numbers of parameters.
use Prim.Native.String.{String}
use potfit.Base.{ℕ, Bool, ◌+◌, ◌*◌, ◌/◌, List, [], ◌∷◌, ◌++◌, if◌then◌else◌}
use potfit.Build.{Build}

pub record Item : Type 0 where
  pub name : String
  pub npar : ℕ

abbrev pub item : String → ℕ → Item
item n k = record { name = n; npar = k }

abbrev pub base_items : List Item
base_items =
    item "lj" 2
    ∷ item "eopp" 6
    ∷ item "morse" 3
    ∷ item "ms" 3
    ∷ item "buck" 3
    ∷ item "born" 5
    ∷ item "softshell" 2
    ∷ item "eopp_exp" 6
    ∷ item "meopp" 7
    ∷ item "power" 2
    ∷ item "power_decay" 2
    ∷ item "exp_decay" 2
    ∷ item "bjs" 3
    ∷ item "parabola" 3
    ∷ item "harmonic" 2
    ∷ item "acosharmonic" 2
    ∷ item "csw" 4
    ∷ item "universal" 4
    ∷ item "const" 1
    ∷ item "sqrt" 2
    ∷ item "mexp_decay" 3
    ∷ item "strmm" 5
    ∷ item "double_morse" 7
    ∷ item "double_exp" 5
    ∷ item "poly_5" 5
    ∷ item "kawamura" 9
    ∷ item "kawamura_mix" 12
    ∷ item "exp_plus" 3
    ∷ item "mishin" 6
    ∷ item "gen_lj" 5
    ∷ item "gljm" 12
    ∷ item "vas" 2
    ∷ item "vpair" 7
    ∷ item "csw2" 4
    ∷ item "sheng_phi1" 5
    ∷ item "sheng_phi2" 4
    ∷ item "sheng_rho" 5
    ∷ item "sheng_F" 4
    ∷ []

-- `(int)(0.5 * ntypes * ntypes * (ntypes + 1))` is a whole number.
abbrev pub stiweb_items : ℕ → List Item
stiweb_items ntypes =
    item "stiweb_2" 6 ∷ item "stiweb_3" 2 ∷ item "lambda" (ntypes * ntypes * (ntypes + 1) / 2) ∷ []

-- The items under the flags STIWEB, TERSOFF and TERSOFFMOD.
abbrev pub items_of : Bool → Bool → Bool → ℕ → List Item
items_of stiweb tersoff tersoffmod ntypes =
    base_items
    ++ ((if stiweb then stiweb_items ntypes else [])
        ++ (if tersoff
            then (if tersoffmod
                then item "tersoff_mod_pot" 16 ∷ []
                else item "tersoff_pot" 11 ∷ item "tersoff_mix" 2 ∷ [])
            else []))

unfoldable pub items : Build → ℕ → List Item
items b ntypes = items_of b.stiweb b.tersoff b.tersoffmod ntypes
