-- ===== src/Config/Reader/Ends.antt =====
-- What the loops of `read_config` leave of the file.
use Prim.Native.String.{String}
use text.Mathlib.Text.{starts_with}
use potfit.Base.{
  ℕ, zero, suc, ◌+◌, ◌<◌, ◌≡◌, ◌≢◌, not, List, [], ◌∷◌, Outcome, ok, exit, arith, ltb,
}
use potfit.Base.Int.{ℤ, pos, negsuc, pos_part, ltb_ℤ}
use potfit.Base.Double.{Double}
use potfit.PotentialHeader.{behind}
use potfit.Config.{Neighbor}
use potfit.Config.Box.{Frame, init_box_vectors, make_box}
use potfit.Config.Header.{
  Failure, out_of_rounds, end_of_file, corrupt_atom_number, not_enough_atoms, missing_energy,
  incomplete_box, corrupt_atom, wrong_type, too_few_types, no_atoms_in_range, tables, lift, Reader,
  Source, read_header,
}
use potfit.Config.Header.Ends.{
  Returns, Returns-bind, Returns-lift, Returns-check, Leaves, Leaves-bind, Leaves-after,
  Leaves-check, Leaves-fetch, Leaves-pick, Leaves-le, IsFile, read_header-Leaves,
}
use potfit.Config.Neighbors.{init_neighbors}
use potfit.Config.Angles.{init_angles}
use potfit.Config.Reader.{
  checked, stored, read_atoms, sites, angle_parts, geometry, finish, begun, boxed, least, complete,
  read_configuration, read_line, read_rounds, read_config, all_reached,
}

module _ {F W : Type 0} ⦃d : Double W⦄ (c : Source F W) where
  checked-Returns : (type : ℤ) → Returns (checked c type)
  checked-Returns (negsuc n) = λ e. cc
  checked-Returns (pos t) = Returns-check (not (ltb t c.ntypes)) wrong_type _ (λ e. cc) tt

  angle_parts-Returns : (lists : List (List (Neighbor W))) → Returns (angle_parts c lists)
  unfolding angle_parts
  angle_parts-Returns [] = tt
  angle_parts-Returns (neigh ∷ lists) =
      Returns-bind (lift tables (init_angles c.build c.format c.table.end c.acos neigh)) _
        (Returns-lift tables _ (λ reason e. cc))
        (λ part. Returns-bind (angle_parts c lists) _ (angle_parts-Returns lists) (λ parts. tt))

  finish-Returns : (tbox : Frame W) (count : ℕ) (r : Reader W) → Returns (finish c tbox count r)
  unfolding finish
  finish-Returns tbox count r =
      let all = sites r.natoms count r.atoms in
      Returns-bind (lift tables (init_box_vectors c.ceil c.truncate c.rcutmax tbox)) _
        (Returns-lift tables _ (λ reason e. cc))
        (λ scale.
          Returns-bind
            (lift tables (init_neighbors (geometry c r.head.box scale) all all r.mindist)) _
            (Returns-lift tables _ (λ reason e. cc))
            (λ made.
              Returns-bind (angle_parts c made.0) _ (angle_parts-Returns made.0) (λ parts. tt)))

  module _ (left : F → ℕ) (file : IsFile c left) where
    read_atoms-Leaves :
        (i count : ℕ) (f : F) (r : Reader W) → Leaves left (left f) (read_atoms c i count f r)
    unfolding read_atoms
    read_atoms-Leaves i zero f r = omega arith
    read_atoms-Leaves i (suc count) f r =
        Leaves-fetch left (left f) (c.scan_atom f) corrupt_atom _ (λ e. cc)
          (λ got e.
            let less = file.scan_atom-takes f got.1 got.0 e in
            Leaves-bind left (left f) (checked c (got.0).0) _ (checked-Returns (got.0).0) (λ type.
              let s = stored c i type (got.0).1 (got.0).2 r in
              Leaves-le left (left f) (left got.1) (read_atoms c (i + 1) count got.1 s) less
                (read_atoms-Leaves (i + 1) count got.1 s)))

    read_configuration-Leaves :
        (n : ℕ) (count wanted : ℤ) (f : F) (r : Reader W)
        → left f < n
        → Leaves left (left f) (read_configuration c n count wanted f r)
    unfolding read_configuration
    read_configuration-Leaves n count wanted f r h =
        let b = begun c count wanted r in
        let most = left f in
        Leaves-check left most (ltb_ℤ count (pos (least c))) not_enough_atoms _ (λ e. cc)
          (Leaves-after left most (read_header c n f b) _ (read_header-Leaves c left n f b file h)
            (λ s less.
              Leaves-check left most (not s.1.head.have_energy) missing_energy _ (λ e. cc)
                (Leaves-check left most (not (complete c s.1.head)) incomplete_box _ (λ e. cc)
                  (Leaves-bind left most (lift tables (make_box s.1.head.box)) _
                    (Returns-lift tables _ (λ reason e. cc))
                    (λ made.
                      let q = boxed c made.0 s.1 in
                      let atoms = read_atoms c 0 (pos_part count) s.0 q in
                      Leaves-after left most atoms _
                        (Leaves-le left most (left s.0) atoms less
                          (read_atoms-Leaves 0 (pos_part count) s.0 q))
                        (λ t less'.
                          Leaves-bind left most (finish c made.1 (pos_part count) t.1) _
                            (finish-Returns made.1 (pos_part count) t.1) (λ r'. less')))))))

    read_line-Leaves :
        (n : ℕ) (line : String) (f : F) (r : Reader W)
        → left f < n
        → Leaves left (left f) (read_line c n line f r)
    unfolding read_line
    read_line-Leaves n line f r h =
        Leaves-pick left (left f) (starts_with line "#N") _ (ok (f, r))
          (Leaves-fetch left (left f) (c.scan_two (behind 3 line)) corrupt_atom_number _ (λ e. cc)
            (λ numbers e. read_configuration-Leaves n numbers.0 numbers.1 f r h))
          (omega arith)

    read_rounds-Leaves :
        (n : ℕ) (f : F) (r : Reader W) → left f < n → Leaves left (left f) (read_rounds c n f r)
    unfolding read_rounds
    read_rounds-Leaves zero f r h = absurd (omega arith)
    read_rounds-Leaves (suc n) f r h =
        let most = left f in
        Leaves-fetch left most (c.fgets f) end_of_file _ (λ e. cc)
          (λ got e.
            let less = file.fgets-takes f got.1 got.0 e in
            let line = read_line c n got.0 got.1 r in
            let rest = left got.1 in
            Leaves-le left most rest _ (omega arith) (
              Leaves-after left rest line _ (read_line-Leaves n got.0 got.1 r (omega arith))
                (λ s at. Leaves-pick left rest (c.feof s.0) (ok s) (read_rounds c n s.0 s.1) at (
                  Leaves-le left rest (left s.0) (read_rounds c n s.0 s.1) at
                    (read_rounds-Leaves n s.0 s.1 (omega arith))))))

  Leaves-Returns :
      {A : Type 0} (left : F → ℕ) (most : ℕ) (m : Outcome Failure (F × A))
      → Leaves left most m
      → Returns m
  Leaves-Returns left most (exit reason) h = h
  Leaves-Returns left most (ok s) h = tt

  Returns-ne : {A : Type 0} (m : Outcome Failure A) → Returns m → m ≢ exit out_of_rounds
  Returns-ne (exit reason) h e = let same : reason ≡ out_of_rounds = cc in h same
  Returns-ne (ok a) h e = cc

  -- If `fgets` takes something from the file and `fscanf` puts nothing back: with more rounds than lines
  -- are left in the file, `read_config` does not run out of them, so its loops end.
  pub read_config_ends :
      (left : F → ℕ) (n : ℕ) (f : F) (r : Reader W)
      → IsFile c left
      → left f < n
      → read_config c n f r ≢ exit out_of_rounds
  unfolding read_config
  read_config_ends left n f r file h =
      let rounds = read_rounds c n f r in
      Returns-ne (read_config c n f r) (
        Returns-bind rounds _
          (Leaves-Returns left (left f) rounds (read_rounds-Leaves left file n f r h))
          (λ s.
            Returns-check (ltb s.1.types c.ntypes) too_few_types _ (λ e. cc)
              (Returns-check (not (all_reached c s.1.mindist c.ntypes)) no_atoms_in_range _
                (λ e. cc) tt)))
