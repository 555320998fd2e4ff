-- ===== src/Config/Reader/Laid.antt =====
-- The configurations behind the loops of `read_config`.
use Prim.Native.String.{String}
use text.Mathlib.Text.{starts_with}
use potfit.Base.{
  Outcome, ℕ, zero, suc, ◌+◌, ◌<◌, ◌≡◌, refl, ap, ◌∙◌, true, false, not, [], none, some, ok, exit,
  through, passed, arith, fetched, length, ltb, get_or, sym,
}
use mathlib.Core.Path.{subst}
use potfit.Base.Int.{ℤ, pos_part}
use potfit.Base.Double.{Double}
use potfit.PotentialHeader.{behind}
use potfit.Config.Box.{Frame, init_box_vectors}
use potfit.Config.Header.{
  Failure, tables, lift, Reader, Source, update, too_few_types, no_atoms_in_range,
  corrupt_atom_number, end_of_file,
}
use potfit.Config.Header.Kept.{Keeps, Keeps-trans, read_header-Keeps}
use potfit.Config.Counts.Tally.{Reads, at_start, line_taken}
use potfit.Config.Neighbors.{threebody, init_neighbors}
use potfit.Config.Neighbors.Ahead.{HasLists}
use potfit.Config.Neighbors.Listed.{init_neighbors-Tables}
use potfit.Config.Reader.{
  sites, angle_parts, with_parts, geometry, finish, begun, boxed, read_configuration, read_line,
  read_rounds, read_config, all_reached,
}
use potfit.Config.Reader.Parts.{
  update_self, update_other, get_or_inside, lifted, ok_same, sites-IsNumbered, length-sites,
  length-tables, angle_parts-at, read_atoms-Keeps, read_atoms-head,
}
use potfit.Config.Reader.Placed.{moved_tables}
use potfit.Config.Reader.Headed.{IsHeaded, finish-HasTables}
use potfit.Config.Reader.Rest.{read_line-Reads}
use potfit.Config.Reader.Stages.{read_configuration-Stages}
use potfit.Config.Reader.Joined.{IsRead, IsRead-Keeps, joined, moved, with_parts-at}

module _ {F W : Type 0} ⦃d : Double W⦄ (c : Source F W) (f₀ : F) where
  begun-IsRead :
      (count wanted : ℤ) (r : Reader W) → IsRead c f₀ r → IsRead c f₀ (begun c count wanted r)
  begun-IsRead count wanted r h =
      let start : (k : ℕ) → k < r.nconf → update r.cnfstart r.nconf r.natoms k ≡ r.cnfstart k =
        λ k lt. update_other r.cnfstart r.nconf r.natoms k (λ e. omega arith) in
      let many : (k : ℕ) → k < r.nconf → update r.inconf r.nconf (pos_part count) k ≡ r.inconf k =
        λ k lt. update_other r.inconf r.nconf (pos_part count) k (λ e. omega arith) in
      record {
        behind = λ a b lt k.
            let before = h.behind a b lt k in
            let la : a < r.nconf = omega arith in omega (arith, start a la, start b k, many a la);
        inside = λ a lt. let in_bounds = h.inside a lt in omega (arith, start a lt, many a lt);
        lists = λ a lt.
            moved (λ k. (r.atoms k).neigh) (λ k. (r.atoms k).neigh) (start a lt) (many a lt)
              (λ k lt. refl) (h.lists a lt);
        tables = λ a lt.
            moved_tables c f₀ r.atoms r.atoms (start a lt) (many a lt) (λ k lt. refl)
              (h.tables a lt);
      }

  finish-IsRead :
      (framed : W × Frame W) (count : ℕ) (r r' : Reader W)
      → threebody c.build ≡ false
      → IsHeaded c f₀ r framed
      → r.inconf r.nconf ≡ count
      → r.cnfstart r.nconf ≡ r.natoms
      → finish c framed.1 count r ≡ ok r'
      → IsRead c f₀ r
      → IsRead c f₀ r'
  unfolding finish
  finish-IsRead framed count r r' two headed many start e h =
      let all = sites r.natoms count r.atoms in
      let (scale, es, e1) =
        through (lift tables (init_box_vectors c.ceil c.truncate c.rcutmax framed.1)) _ r' e in
      let scaled = lifted tables (init_box_vectors c.ceil c.truncate c.rcutmax framed.1) scale es in
      let g = geometry c r.head.box scale in
      let (made, e2, e3) = through (lift tables (init_neighbors g all all r.mindist)) _ r' e1 in
      let (parts, e4, e5) = through (angle_parts c made.0) _ r' e3 in
      let made_lists = lifted tables (init_neighbors g all all r.mindist) made e2 in
      let counted : length made.0 ≡ count =
        length-tables g all all made.0
          (init_neighbors-Tables g all all r.mindist made.1 made.0 made_lists)
        ∙ length-sites r.natoms count r.atoms in
      let stored : (a : ℕ)
          → a < count
          → (with_parts r.natoms parts r.atoms (r.natoms + a)).neigh ≡ get_or made.0 a [] =
        λ a lt.
          let at = r.atoms (r.natoms + a) in
          with_parts-at r.natoms parts r.atoms a
          ∙ angle_parts-at c made.0 parts a (at.neigh, at.angle_part) two e4
          ∙ get_or_inside made.0 a at.neigh [] (omega (arith, counted)) in
      let close =
        finish-HasTables c f₀ count r framed headed scale scaled made.0 made.1 made_lists parts
          stored in
      let has : HasLists r.natoms count (λ a. (with_parts r.natoms parts r.atoms a).neigh) =
        record {
          geometry = g;
          sites = all;
          mindist = r.mindist;
          low = made.1;
          lists = made.0;
          half = two;
          numbered = sites-IsNumbered r.natoms count r.atoms;
          counted = length-sites r.natoms count r.atoms;
          made = made_lists;
          stored = stored;
        } in
      subst (IsRead c f₀) (ok_same e5) (joined c f₀ r count parts made.1 many start has close h)

  read_configuration-IsRead :
      (rounds : ℕ) (count wanted : ℤ) (f f' : F) (r r' : Reader W)
      → threebody c.build ≡ false
      → Reads c f₀ f
      → read_configuration c rounds count wanted f r ≡ ok (f', r')
      → IsRead c f₀ r
      → IsRead c f₀ r'
  read_configuration-IsRead rounds count wanted f f' r r' two place e h =
      let b = begun c count wanted r in
      let st = read_configuration-Stages c rounds count wanted f f' r r' e in
      let s = st.header in
      let t = st.listed in
      let head = read_header-Keeps c rounds f s.0 b s.1 st.header_read in
      let atoms =
        read_atoms-Keeps c 0 (pos_part count) s.0 t.0 (boxed c st.made.0 s.1) t.1 st.atoms_read in
      let kept : Keeps b t.1 = Keeps-trans b s.1 t.1 head atoms in
      let (n, m, i, starts, _) = kept in
      let boxed_head =
        read_atoms-head c 0 (pos_part count) s.0 t.0 (boxed c st.made.0 s.1) t.1 st.atoms_read in
      let headed : IsHeaded c f₀ t.1 st.made = record {
        lines = rounds;
        file = f;
        rest = s.0;
        before = b;
        behind = s.1;
        place = place;
        number = sym m;
        first = sym n;
        new = refl;
        header = st.header_read;
        framed = st.framed;
        head = boxed_head;
      } in
      let many : t.1.inconf t.1.nconf ≡ pos_part count =
        rw (i, m) (update_self r.inconf r.nconf (pos_part count)) in
      let start : t.1.cnfstart t.1.nconf ≡ t.1.natoms =
        rw (starts, m, n) (update_self r.cnfstart r.nconf r.natoms) in
      let read = IsRead-Keeps c f₀ b t.1 kept (begun-IsRead count wanted r h) in
      finish-IsRead st.made (pos_part count) t.1 r' two headed many start st.finished read

  read_line-IsRead :
      (n : ℕ) (line : String) (f f' : F) (r r' : Reader W)
      → threebody c.build ≡ false
      → Reads c f₀ f
      → read_line c n line f r ≡ ok (f', r')
      → IsRead c f₀ r
      → IsRead c f₀ r'
  unfolding read_line
  read_line-IsRead n line f f' r r' two place e h =
      let begin : Outcome Failure (F × Reader W) = elim (c.scan_two (behind 3 line)) [
        | none ↦ exit corrupt_atom_number
        | some numbers ↦ read_configuration c n numbers.0 numbers.1 f r
      ] in
      elim (starts_with line "#N")
          as (λ starts.
            (elim starts [ true ↦ begin | false ↦ ok (f, r) ]) ≡ ok (f', r') → IsRead c f₀ r') [
              | true ↦ λ e1.
                  let (numbers, _, e2) =
                    fetched (c.scan_two (behind 3 line)) corrupt_atom_number
                      (λ numbers. read_configuration c n numbers.0 numbers.1 f r) (f', r') e1 in
                  read_configuration-IsRead n numbers.0 numbers.1 f f' r r' two place e2 h
              | false ↦ λ e1. subst (IsRead c f₀) (ap (λ (p : F × Reader W). p.1) (ok_same e1)) h
            ]
        e

  read_rounds-IsRead :
      (n : ℕ) (f f' : F) (r r' : Reader W)
      → threebody c.build ≡ false
      → Reads c f₀ f
      → read_rounds c n f r ≡ ok (f', r')
      → IsRead c f₀ r
      → IsRead c f₀ r'
  unfolding read_rounds
  read_rounds-IsRead zero f f' r r' two place e h = cc
  read_rounds-IsRead (suc n) f f' r r' two place e h =
      let (got, read, e1) = fetched (c.fgets f) end_of_file _ (f', r') e in
      let taken = line_taken place read in
      let (s, e2, e3) = through (read_line c n got.0 got.1 r) _ (f', r') e1 in
      let more = read_line-IsRead n got.0 got.1 s.0 r s.1 two taken e2 h in
      elim (c.feof s.0)
          as (λ last.
            (elim last [ true ↦ ok s | false ↦ read_rounds c n s.0 s.1 ]) ≡ ok (f', r')
            → IsRead c f₀ r') [
              | true ↦ λ e4. subst (IsRead c f₀) (ap (λ (p : F × Reader W). p.1) (ok_same e4)) more
              | false ↦ λ e4.
                  read_rounds-IsRead n s.0 f' s.1 r' two
                    (read_line-Reads c f₀ n got.0 got.1 s.0 r s.1 e2 taken) e4 more
            ]
        e3

module _ {F W : Type 0} ⦃d : Double W⦄ (c : Source F W) where
  -- If `read_config`, begun with no configuration, comes through in a binary without a three-body
  -- interaction: the configurations lie one behind the other below `natoms`. Each was headed by a header
  -- that stands in the file, and the reciprocal vectors of the header's box give how many images the
  -- cutoff reaches. The neighbors of each of its atoms are exactly the images, so many in each direction,
  -- of its atoms from this one on, at a distance in this box of at most the cutoff of the two types, but
  -- for the atom itself; each comes once, with its type, number, distance and vectors.
  pub read_config-IsRead :
      (n : ℕ) (f : F) (r r' : Reader W)
      → threebody c.build ≡ false
      → r.nconf ≡ 0
      → read_config c n f r ≡ ok r'
      → IsRead c f r'
  unfolding read_config
  read_config-IsRead n f r r' two none_yet e =
      let start : IsRead c f r = record {
        behind = λ i j lt k. absurd (omega arith);
        inside = λ i lt. absurd (omega arith);
        lists = λ i lt. absurd (omega arith);
        tables = λ i lt. absurd (omega arith);
      } in
      let (s, e1, e2) = through (read_rounds c n f r) _ r' e in
      let (_, e3) = passed (ltb s.1.types c.ntypes) too_few_types e2 in
      let (_, e4) = passed (not (all_reached c s.1.mindist c.ntypes)) no_atoms_in_range e3 in
      let read = read_rounds-IsRead c f n f s.0 r s.1 two at_start e1 start in
      subst (IsRead c f) (ok_same e4) record {
        behind = read.behind;
        inside = read.inside;
        lists = read.lists;
        tables = read.tables;
      }
