-- ===== src/Config/Header.antt =====
-- The header of a configuration, the loop over the lines up to `#F` in `read_config`, and the state of that
-- routine; binaries for tables, without CONTRIB and KIM.
pub mod Kept
pub mod Ends
pub mod Lines
use Prim.Native.String.{String, slice}
use text.Mathlib.Text.{◌==◌ as str_eq, starts_with}
use potfit.Base.{
  ℕ, zero, suc, ◌+◌, ◌-◌, ◌*◌, Bool, true, false, not, ◌&&◌, ◌||◌, List, [], ◌∷◌, ◌++◌, Option,
  none, some, if◌then◌else◌, ltb, ◌==◌, get_or, Outcome, ok, exit, ◌>>=◌, ◌>>◌, exit_if,
}
use potfit.Base.Int.{ℤ, pos, negsuc, pos_part, ltb_ℤ, eq_ℤ}
use potfit.Base.Double.{Double, zero_double, ◌⊕◌, ◌⊗◌}
use potfit.Build.{Build}
use potfit.PairIndex.{pair_index}
use potfit.PotentialHeader.{Format, behind, cut_line}
use potfit.Splines.{PotTable}
use potfit.Config.{Failure as ConfigFailure, Vector, Tensor, Neighbor, zero_tensor}
use potfit.Config.Box.{Frame, make_box, init_box_vectors}
use potfit.Config.Names.{Failure as NamesFailure, Names, read_chemical_elements}
use potfit.Config.Neighbors.{threebody, images, Site, Geometry, init_neighbors}
use potfit.Config.Angles.{Angle, init_angles}

-- `out_of_rounds` is no error of the code: rounds of the loops over lines that ran out.
pub data Failure : Type 0 where
  out_of_rounds : Failure
  end_of_file : Failure
  corrupt_atom_number : Failure
  not_enough_atoms : Failure
  incomplete_header : Failure
  corrupt_vector : Failure
  corrupt_energy : Failure
  corrupt_weight : Failure
  negative_weight : Failure
  corrupt_stress : Failure
  missing_energy : Failure
  incomplete_box : Failure
  corrupt_atom : Failure
  wrong_type : Failure
  too_few_types : Failure
  no_atoms_in_range : Failure
  names : NamesFailure → Failure
  tables : ConfigFailure → Failure

abbrev pub lift : {E A : Type 0} → (E → Failure) → Outcome E A → Outcome Failure A
lift f m = elim m [ exit reason ↦ exit (f reason) | ok a ↦ ok a ]

-- `atom_t`, as far as the file and the neighbor tables fill it.
pub record ConfigAtom (W : Type 0) : Type 0 where
  pub type : ℕ
  pub pos : Vector W
  pub force : Vector W
  pub absforce : W
  pub conf : ℕ
  pub neigh : List (Neighbor W)
  pub angle_part : List (Angle W)

-- The header of the configuration that is read, of `config_state`.
pub record Head (W : Type 0) : Type 0 where
  pub box : Frame W
  pub have_x : Bool
  pub have_y : Bool
  pub have_z : Bool
  pub have_energy : Bool
  pub have_stress : Bool

-- What the routine fills in `g_config`; `types` is `max_atom_type + 1`.
pub record Reader (W : Type 0) : Type 0 where
  pub head : Head W
  pub names : Names
  pub natoms : ℕ
  pub nconf : ℕ
  pub inconf : ℕ → ℕ
  pub cnfstart : ℕ → ℕ
  pub useforce : ℕ → Bool
  pub usestress : ℕ → Bool
  pub coheng : ℕ → W
  pub conf_weight : ℕ → W
  pub volume : ℕ → W
  pub stress : ℕ → Tensor W
  pub atoms : ℕ → ConfigAtom W
  pub na_type : ℕ → ℕ → ℕ
  pub types : ℕ
  pub mindist : ℕ → W

-- The file `F` and the routines of the C library, and the globals that are read.
pub record Source (F W : Type 0) : Type 0 where
  pub fgets : F → Option (String × F)
  pub feof : F → Bool
  -- `fscanf` with the seven conversions of an atom
  pub scan_atom : F → Option ((ℤ × Vector W × Vector W) × F)
  pub scan_two : String → Option (ℤ × ℤ)
  -- `sscanf` with "%d" alone
  pub scan_count : String → Option ℤ
  pub scan_one : String → Option W
  pub scan_vector : String → Option (Vector W)
  pub scan_tensor : String → Option (Tensor W)
  pub strtok : String → List String
  pub atoi : String → ℤ
  pub ceil : W → W
  pub truncate : W → ℕ
  pub acos : W → W
  pub dbl_max : W
  pub build : Build
  pub ntypes : ℕ
  pub format : Format
  pub table : PotTable W
  pub rcut : ℕ → ℕ → W
  pub rcutmax : W
  pub global_cell_scale : W

unfoldable pub update : {A : Type 0} → (ℕ → A) → ℕ → A → ℕ → A
update f k v i = if i == k then v else f i

module _ {F W : Type 0} ⦃d : Double W⦄ (c : Source F W) where
  abbrev pub scaled : Vector W → Vector W
  scaled v = if d.eq c.global_cell_scale (d.lit 1 1) then v else record {
    x = v.x ⊗ c.global_cell_scale;
    y = v.y ⊗ c.global_cell_scale;
    z = v.z ⊗ c.global_cell_scale;
  }

  read_box_vector : String → Outcome Failure (Vector W)
  read_box_vector pline = elim (c.scan_vector pline) [
    | none ↦ exit corrupt_vector
    | some v ↦ ok (scaled v)
  ]

  abbrev zero_vector : Vector W
  zero_vector = record { x = zero_double; y = zero_double; z = zero_double }

  abbrev pub reset_cstate : Head W
  reset_cstate = record {
    box = record { along_x = zero_vector; along_y = zero_vector; along_z = zero_vector };
    have_x = false;
    have_y = false;
    have_z = false;
    have_energy = false;
    have_stress = false;
  }

  abbrev is_letter : String → String → String → Bool
  is_letter line small large =
      let letter = slice line 1 2 in str_eq letter small || str_eq letter large

  -- A line of the header, without its line end.
  abbrev read_energy : String → Reader W → Outcome Failure (Reader W)
  read_energy rest r = elim (c.scan_one rest) [
    | none ↦ exit corrupt_energy
    | some w ↦ ok (record r {
      coheng = update r.coheng r.nconf w;
      head = record r.head { have_energy = true };
    })
  ]

  abbrev read_weight : String → Reader W → Outcome Failure (Reader W)
  read_weight rest r = elim (c.scan_one rest) [
    | none ↦ exit corrupt_weight
    | some w ↦
        exit_if (d.lt w zero_double) negative_weight
        >> ok (record r { conf_weight = update r.conf_weight r.nconf w })
  ]

  abbrev read_stress : String → Reader W → Outcome Failure (Reader W)
  read_stress rest r = elim (c.scan_tensor rest) [
    | none ↦ exit corrupt_stress
    | some t ↦ ok (record r {
      stress = update r.stress r.nconf t;
      head = record r.head { have_stress = true };
    })
  ]

  abbrev read_names : String → Reader W → Outcome Failure (Reader W)
  read_names rest r =
      lift Failure.names (read_chemical_elements c.strtok c.atoi c.ntypes rest r.names)
      >>= (λ s. ok (record r { names = s }))

  abbrev with_box : Reader W → Frame W → Head W → Reader W
  with_box r box head = record r { head = record head { box = box } }

  read_item : String → Reader W → Outcome Failure (Reader W)
  unfolding read_box_vector
  read_item line r =
      let rest = behind 3 line in
      let h = r.head in
      if is_letter line "x" "X"
      then read_box_vector rest
        >>= (λ v. ok (with_box r (record h.box { along_x = v }) (record h { have_x = true })))
      else if is_letter line "y" "Y"
      then read_box_vector rest
        >>= (λ v. ok (with_box r (record h.box { along_y = v }) (record h { have_y = true })))
      else if is_letter line "z" "Z"
      then read_box_vector rest
        >>= (λ v. ok (with_box r (record h.box { along_z = v }) (record h { have_z = true })))
      else if is_letter line "e" "E"
      then read_energy rest r
      else if is_letter line "w" "W"
      then read_weight rest r
      else if is_letter line "c" "C"
      then read_names rest r
      else if c.build.stress && is_letter line "s" "S"
      then read_stress rest r
      else ok r

  -- The loop over the lines of the header, up to `#F`.
  unfoldable pub read_header : ℕ → F → Reader W → Outcome Failure (F × Reader W)
  unfolding read_item
  read_header zero f r = exit out_of_rounds
  read_header (suc n) f r = elim (c.fgets f) [
    | none ↦ exit incomplete_header
    | some got ↦
        let line = cut_line got.0 in
        exit_if (c.feof got.1) incomplete_header
        >> (read_item line r >>= (λ r'. elim (is_letter line "F" "F") [
          | true ↦ ok (got.1, r')
          | false ↦ read_header n got.1 r'
        ]))
  ]
