-- ===== src/Config/Reader.antt =====
-- The atoms of a configuration and the loop over the configurations in `read_config`, in binaries for
-- tables without CONTRIB and KIM. What the globals are at the beginning is an argument, and so is the
-- file.
pub mod Parts
pub mod Placed
pub mod Joined
pub mod Stages
pub mod Rest
pub mod Headed
pub mod Laid
pub mod Fits
pub mod Ends
use Prim.Native.String.{String}
use text.Mathlib.Text.{starts_with}
use potfit.Base.{
  ℕ, zero, suc, ◌+◌, ◌-◌, ◌*◌, Bool, true, false, not, ◌&&◌, ◌||◌, List, [], ◌∷◌, ◌++◌, Option,
  none, some, if◌then◌else◌, ltb, ◌==◌, get_or, Outcome, ok, exit, ◌>>=◌, ◌>>◌, exit_if, replicate,
}
use potfit.Base.Int.{ℤ, pos, negsuc, pos_part, ltb_ℤ, eq_ℤ}
use potfit.Base.Double.{Double, zero_double, ◌⊕◌, ◌⊗◌}
use potfit.Base.Loop.{for_below}
use potfit.Build.{Build}
use potfit.PairIndex.{pair_index}
use potfit.PotentialHeader.{Format, behind}
use potfit.Config.{Vector, Tensor, Neighbor}
use potfit.Config.Box.{Frame, make_box, init_box_vectors}
use potfit.Config.Header.{
  Failure, out_of_rounds, end_of_file, corrupt_atom_number, not_enough_atoms, missing_energy,
  incomplete_box, corrupt_atom, wrong_type, too_few_types, no_atoms_in_range, tables, lift,
  ConfigAtom, Head, Reader, Source, update, scaled, reset_cstate, read_header,
}
use potfit.Config.Neighbors.{threebody, images, Site, Geometry, init_neighbors}
use potfit.Config.Angles.{Angle, init_angles}

-- The neighbors and the angles of an atom.
abbrev pub Part : Type 0 → Type 0
Part W = List (Neighbor W) × List (Angle W)

module _ {W : Type 0} where
  -- The atoms of a configuration, as `init_neighbors` reads them.
  abbrev pub sites : (start left : ℕ) → (ℕ → ConfigAtom W) → List (Site W)
  sites start zero atoms = []
  sites start (suc left) atoms =
      record { nr = start; type = (atoms start).type; pos = (atoms start).pos }
      ∷ sites (suc start) left atoms

  abbrev pub with_parts : ℕ → List (Part W) → (ℕ → ConfigAtom W) → ℕ → ConfigAtom W
  with_parts start parts atoms a =
      if ltb a start
      then atoms a
      else let part = get_or parts (a - start) ((atoms a).neigh, (atoms a).angle_part) in
        record (atoms a) { neigh = part.0; angle_part = part.1 }

module _ {F W : Type 0} ⦃d : Double W⦄ (c : Source F W) where
  -- `atom->type >= ntypes || atom->type < 0`.
  abbrev checked : ℤ → Outcome Failure ℕ
  checked (negsuc n) = exit wrong_type
  checked (pos t) = exit_if (not (ltb t c.ntypes)) wrong_type >> ok t

  abbrev square : W → W
  square w = w ⊗ w

  abbrev stored : ℕ → ℕ → Vector W → Vector W → Reader W → Reader W
  stored i type at force r = record r {
    atoms = update r.atoms (r.natoms + i) (record {
      type = type;
      pos = scaled c at;
      force = force;
      absforce = d.sqrt ((square force.x ⊕ square force.y) ⊕ square force.z);
      conf = r.nconf;
      neigh = [];
      angle_part = [];
    });
    na_type =
        update r.na_type r.nconf (update (r.na_type r.nconf) type (r.na_type r.nconf type + 1));
    types = if ltb r.types (type + 1) then type + 1 else r.types;
  }

  -- The loop over the atoms, with `left` to read from `i` on.
  pub read_atoms : (i left : ℕ) → F → Reader W → Outcome Failure (F × Reader W)
  read_atoms i zero f r = ok (f, r)
  read_atoms i (suc left) f r = elim (c.scan_atom f) [
    | none ↦ exit corrupt_atom
    | some got ↦
        checked (got.0).0
        >>= (λ type. read_atoms (i + 1) left got.1 (stored i type (got.0).1 (got.0).2 r))
  ]

  -- The loop of `init_angles` over the atoms.
  pub angle_parts : List (List (Neighbor W)) → Outcome Failure (List (Part W))
  angle_parts [] = ok []
  angle_parts (neigh ∷ lists) =
      lift tables (init_angles c.build c.format c.table.end c.acos neigh)
      >>= (λ part. angle_parts lists >>= (λ parts. ok (part ∷ parts)))

  abbrev pub geometry : Frame W → ℕ × ℕ × ℕ → Geometry W
  geometry box (cx, cy, cz) = record {
    build = c.build;
    ntypes = c.ntypes;
    format = c.format;
    table = c.table;
    truncate = c.truncate;
    rcut = c.rcut;
    box_x = box.along_x;
    box_y = box.along_y;
    box_z = box.along_z;
    images = images cx cy cz;
    full = threebody c.build;
  }

  -- `init_box_vectors`, `init_neighbors` and `init_angles`, and the counts behind them.
  pub finish : Frame W → ℕ → Reader W → Outcome Failure (Reader W)
  unfolding init_box_vectors init_neighbors init_angles angle_parts
  finish tbox count r =
      let all = sites r.natoms count r.atoms in
      lift tables (init_box_vectors c.ceil c.truncate c.rcutmax tbox) >>= (λ scale.
        lift tables (init_neighbors (geometry r.head.box scale) all all r.mindist) >>= (λ made.
          angle_parts made.0 >>= (λ parts. ok (record r {
            atoms = with_parts r.natoms parts r.atoms;
            mindist = made.1;
            natoms = r.natoms + count;
            nconf = r.nconf + 1;
          }))))

  abbrev least : ℕ
  least = if threebody c.build then 3 else 2

  abbrev complete : Head W → Bool
  complete h = h.have_x && h.have_y && h.have_z

  abbrev begun : (count wanted : ℤ) → Reader W → Reader W
  begun count wanted r = record r {
    head = reset_cstate c;
    inconf = update r.inconf r.nconf (pos_part count);
    cnfstart = update r.cnfstart r.nconf r.natoms;
    useforce = update r.useforce r.nconf (not (eq_ℤ wanted (pos 0)));
  }

  abbrev boxed : W → Reader W → Reader W
  boxed volume r = record r {
    volume = update r.volume r.nconf volume;
    usestress =
        if c.build.stress && r.head.have_stress
        then update r.usestress r.nconf true
        else r.usestress;
  }

  -- A configuration behind its line `#N`; the header has `rounds` lines at most.
  pub read_configuration :
      (rounds : ℕ) → (count wanted : ℤ) → F → Reader W → Outcome Failure (F × Reader W)
  unfolding read_header make_box read_atoms finish
  read_configuration rounds count wanted f r =
      exit_if (ltb_ℤ count (pos least)) not_enough_atoms
      >> (read_header c rounds f (begun count wanted r) >>= (λ s.
          exit_if (not s.1.head.have_energy) missing_energy
          >> (exit_if (not (complete s.1.head)) incomplete_box
              >> (lift tables (make_box s.1.head.box) >>= (λ made.
                  read_atoms 0 (pos_part count) s.0 (boxed made.0 s.1)
                  >>= (λ t. finish made.1 (pos_part count) t.1 >>= (λ r'. ok (t.0, r'))))))))

  -- A line outside of a configuration.
  pub read_line : ℕ → String → F → Reader W → Outcome Failure (F × Reader W)
  unfolding read_configuration
  read_line n line f r = elim (starts_with line "#N") [
    | true ↦ elim (c.scan_two (behind 3 line)) [
      | none ↦ exit corrupt_atom_number
      | some numbers ↦ read_configuration n numbers.0 numbers.1 f r
    ]
    | false ↦ ok (f, r)
  ]

  -- The loop over the configurations.
  pub read_rounds : ℕ → F → Reader W → Outcome Failure (F × Reader W)
  unfolding read_line
  read_rounds zero f r = exit out_of_rounds
  read_rounds (suc n) f r = elim (c.fgets f) [
    | none ↦ exit end_of_file
    | some got ↦
        read_line n got.0 got.1 r
        >>= (λ s. elim (c.feof s.0) [ true ↦ ok s | false ↦ read_rounds n s.0 s.1 ])
  ]

  -- `for (i ...) for (j ...) if (mindist[k] == DBL_MAX)`.
  abbrev row_reached : (ℕ → W) → (i n : ℕ) → Bool
  row_reached mindist i zero = true
  row_reached mindist i (suc n) =
      row_reached mindist i n && not (d.eq (mindist (pair_index c.ntypes i n)) c.dbl_max)

  abbrev all_reached : (ℕ → W) → ℕ → Bool
  all_reached mindist zero = true
  all_reached mindist (suc n) = all_reached mindist n && row_reached mindist n c.ntypes

  -- The sums over the configurations, in the row behind the last.
  abbrev summed : Reader W → Reader W
  summed r = record r {
    na_type = update r.na_type r.nconf (λ j.
        if ltb j c.ntypes
        then for_below r.nconf (λ i sum. sum + r.na_type i j) (r.na_type r.nconf j)
        else r.na_type r.nconf j);
  }

  unfoldable pub read_config : ℕ → F → Reader W → Outcome Failure (Reader W)
  unfolding read_rounds
  read_config n f r = read_rounds n f r >>= (λ s.
      exit_if (ltb s.1.types c.ntypes) too_few_types
      >> (exit_if (not (all_reached s.1.mindist c.ntypes)) no_atoms_in_range >> ok (summed s.1)))

  -- `force_0`: forces, energies and stresses, with zeros for a configuration that has no stresses.
  abbrev forces : (a left : ℕ) → (ℕ → ConfigAtom W) → List W
  forces a zero atoms = []
  forces a (suc left) atoms = let v = (atoms a).force in v.x ∷ v.y ∷ v.z ∷ forces (suc a) left atoms

  abbrev energies : (i left : ℕ) → (ℕ → W) → List W
  energies i zero coheng = []
  energies i (suc left) coheng = coheng i ∷ energies (suc i) left coheng

  abbrev components : Tensor W → List W
  components t = t.xx ∷ t.yy ∷ t.zz ∷ t.xy ∷ t.yz ∷ t.zx ∷ []

  abbrev stresses : (i left : ℕ) → Reader W → List W
  stresses i zero r = []
  stresses i (suc left) r =
      (if r.usestress i then components (r.stress i) else replicate 6 zero_double)
      ++ stresses (suc i) left r

  abbrev pub force_0 : Reader W → ℕ → W
  force_0 r k =
      get_or
        (forces 0 r.natoms r.atoms
          ++ energies 0 r.nconf r.coheng
          ++ (if c.build.stress then stresses 0 r.nconf r else []))
        k zero_double
