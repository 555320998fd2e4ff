-- ===== src/Config/Names.antt =====
-- `read_chemical_elements`: the line `#C` of a configuration names the elements or has to repeat them.
use Prim.Native.String.{String}
use text.Mathlib.Text.{◌==◌ as str_eq}
use potfit.Base.{
  ℕ, ◌+◌, not, ◌&&◌, List, [], ◌∷◌, if◌then◌else◌, ltb, leb, ◌==◌, get_or, set, Outcome, ok, exit,
}
use potfit.Base.Int.{ℤ, pos, eq_ℤ}
use potfit.PotentialHeader.{short_name}

-- `g_config.elements` and `num_fixed_elements`.
pub record Names : Type 0 where
  pub elements : List String
  pub num_fixed_elements : ℕ

pub data Failure : Type 0 where
  element_mismatch : Failure

-- `strtok` cuts at blanks and line ends.
module _ (strtok : String → List String) (atoi : String → ℤ) (ntypes : ℕ) where
  -- The loop that names the elements from `i` on.
  pub name_elements : ℕ → List String → Names → Names
  name_elements i [] s = s
  name_elements i (pchar ∷ more) s =
      let named : Names = record {
        elements = set s.elements i (short_name pchar);
        num_fixed_elements = s.num_fixed_elements + 1;
      } in
      let rest = name_elements (i + 1) more named in if ltb i ntypes then rest else s

  -- The loop that compares.
  pub compare_elements : ℕ → List String → Names → Outcome Failure Names
  compare_elements i [] s = ok s
  compare_elements i (pchar ∷ more) s =
      let element = get_or s.elements i "" in
      let named : Names = record {
        elements = set s.elements i (short_name pchar);
        num_fixed_elements = s.num_fixed_elements + 1;
      } in
      let again = compare_elements (i + 1) more s in
      let renamed = compare_elements (i + 1) more named in
      if not (ltb i ntypes)
      then ok s
      else if str_eq pchar element
      then again
      else if eq_ℤ (atoi element) (pos i) && leb s.num_fixed_elements i
      then renamed
      else exit element_mismatch

  pub read_chemical_elements : String → Names → Outcome Failure Names
  unfolding name_elements compare_elements
  read_chemical_elements psrc s =
      if s.num_fixed_elements == 0
      then ok (name_elements 0 (strtok psrc) s)
      else compare_elements 0 (strtok psrc) s
