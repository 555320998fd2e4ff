-- ===== src/Config/Reader/Stages.antt =====
-- The stages of `read_configuration`, one after the other.
use potfit.Base.{ℕ, ◌≡◌, ap, ◌∙◌, not, ok, through, passed}
use potfit.Base.Int.{ℤ, pos, pos_part, ltb_ℤ}
use potfit.Base.Double.{Double}
use potfit.Config.Box.{Frame, make_box}
use potfit.Config.Header.{
  tables, lift, Reader, Source, read_header, not_enough_atoms, missing_energy, incomplete_box,
}
use potfit.Config.Reader.{read_atoms, finish, begun, boxed, least, complete, read_configuration}
use potfit.Config.Reader.Parts.{ok_same, lifted}

module _ {F W : Type 0} ⦃d : Double W⦄ (c : Source F W) where
  -- The file and the state behind the header and behind the atoms, the box, and the last state.
  pub record Stages (n : ℕ) (count wanted : ℤ) (f f' : F) (r r' : Reader W) : Type 0 where
    pub header : F × Reader W
    pub made : W × Frame W
    pub listed : F × Reader W
    pub framed : make_box header.1.head.box ≡ ok made
    pub header_read : read_header c n f (begun c count wanted r) ≡ ok header
    pub atoms_read : read_atoms c 0 (pos_part count) header.0 (boxed c made.0 header.1) ≡ ok listed
    pub finished : finish c made.1 (pos_part count) listed.1 ≡ ok r'
    pub file_left : listed.0 ≡ f'

  pub read_configuration-Stages :
      (n : ℕ) (count wanted : ℤ) (f f' : F) (r r' : Reader W)
      → read_configuration c n count wanted f r ≡ ok (f', r')
      → Stages n count wanted f f' r r'
  unfolding read_configuration
  read_configuration-Stages n count wanted f f' r r' e =
      let (_, e1) = passed (ltb_ℤ count (pos (least c))) not_enough_atoms e in
      let (s, e2, e3) = through (read_header c n f (begun c count wanted r)) _ (f', r') e1 in
      let (_, e4) = passed (not s.1.head.have_energy) missing_energy e3 in
      let (_, e5) = passed (not (complete c s.1.head)) incomplete_box e4 in
      let (made, ef, e6) = through (lift tables (make_box s.1.head.box)) _ (f', r') e5 in
      let (t, e7, e8) =
        through (read_atoms c 0 (pos_part count) s.0 (boxed c made.0 s.1)) _ (f', r') e6 in
      let (q, e9, e10) = through (finish c made.1 (pos_part count) t.1) _ (f', r') e8 in
      let ends = ok_same e10 in
      record {
        header = s;
        made = made;
        listed = t;
        framed = lifted tables (make_box s.1.head.box) made ef;
        header_read = e2;
        atoms_read = e7;
        finished = e9 ∙ ap ok (ap (λ (p : F × Reader W). p.1) ends);
        file_left = ap (λ (p : F × Reader W). p.0) ends;
      }
