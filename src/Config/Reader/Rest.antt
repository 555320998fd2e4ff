-- ===== src/Config/Reader/Rest.antt =====
-- What the readers of a configuration leave of the file.
use Prim.Native.String.{String}
use text.Mathlib.Text.{starts_with}
use potfit.Base.{ℕ, zero, suc, ◌+◌, ◌≡◌, ok, through, fetched, tested_ways, inl, inr}
use mathlib.Core.Path.{subst}
use potfit.Base.Int.{ℤ, pos_part}
use potfit.Base.Double.{Double}
use potfit.PotentialHeader.{behind}
use potfit.Config.Header.{Reader, Source, corrupt_atom, corrupt_atom_number}
use potfit.Config.Header.Lines.{read_header-Reads}
use potfit.Config.Counts.Tally.{Reads, atom_taken}
use potfit.Config.Reader.{checked, stored, read_atoms, begun, boxed, read_configuration, read_line}
use potfit.Config.Reader.Parts.{ok_same}
use potfit.Config.Reader.Stages.{read_configuration-Stages}

module _ {F W : Type 0} ⦃d : Double W⦄ (c : Source F W) (f₀ : F) where
  read_atoms-Reads :
      (i count : ℕ) (f f' : F) (r r' : Reader W)
      → read_atoms c i count f r ≡ ok (f', r')
      → Reads c f₀ f
      → Reads c f₀ f'
  unfolding read_atoms
  read_atoms-Reads i zero f f' r r' e h = subst (λ (p : F × Reader W). Reads c f₀ p.0) (ok_same e) h
  read_atoms-Reads i (suc count) f f' r r' e h =
      let (got, read, e1) = fetched (c.scan_atom f) corrupt_atom _ (f', r') e in
      let (type, _, e2) = through (checked c (got.0).0) _ (f', r') e1 in
      read_atoms-Reads (i + 1) count got.1 f' (stored c i type (got.0).1 (got.0).2 r) r' e2
        (atom_taken h read)

  read_configuration-Reads :
      (n : ℕ) (count wanted : ℤ) (f f' : F) (r r' : Reader W)
      → read_configuration c n count wanted f r ≡ ok (f', r')
      → Reads c f₀ f
      → Reads c f₀ f'
  read_configuration-Reads n count wanted f f' r r' e h =
      let st = read_configuration-Stages c n count wanted f f' r r' e in
      let s = st.header in
      let t = st.listed in
      let header = read_header-Reads c f₀ n f s.0 (begun c count wanted r) s.1 st.header_read h in
      let atoms =
        read_atoms-Reads 0 (pos_part count) s.0 t.0 (boxed c st.made.0 s.1) t.1 st.atoms_read
          header in
      subst (Reads c f₀) st.file_left atoms

  pub read_line-Reads :
      (n : ℕ) (line : String) (f f' : F) (r r' : Reader W)
      → read_line c n line f r ≡ ok (f', r')
      → Reads c f₀ f
      → Reads c f₀ f'
  unfolding read_line
  read_line-Reads n line f f' r r' e h =
      elim (tested_ways (starts_with line "#N") _ (ok (f, r)) (ok (f', r')) e) [
        | inl (_, e1) ↦
            let (numbers, _, e2) =
              fetched (c.scan_two (behind 3 line)) corrupt_atom_number
                (λ numbers. read_configuration c n numbers.0 numbers.1 f r) (f', r') e1 in
            read_configuration-Reads n numbers.0 numbers.1 f f' r r' e2 h
        | inr (_, e1) ↦ subst (λ (p : F × Reader W). Reads c f₀ p.0) (ok_same e1) h
      ]
