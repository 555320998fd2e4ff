-- ===== src/PotentialHeader/Ready.antt =====
-- The state behind the header: what the tables that follow rely on.
use Prim.Native.String.{String}
use text.Mathlib.Text.{◌==◌ as str_eq}
use potfit.Base.{
  ℕ, zero, suc, ◌≤◌, ◌≡◌, refl, ◌∙◌, true, not, ◌&&◌, List, [], ◌∷◌, map, if◌then◌else◌, ltb,
  replicate, length, length-map, length-replicate, Outcome, ok, ◌>>◌, exit_if, through, passed,
  arith, Bool-cases, Option-cases, inl, inr, ◌⊎◌,
}
use potfit.Base.Int.{ℤ, eq_ℤ, pos}
use potfit.Build.{Build}
use potfit.PotentialHeader.{
  Header, Format, Failure, Scanner, supported, npots, read_items, read_pot_line_F, read_pot_line_T,
  read_pot_line_I, read_pot_line_G, read_pot_line_C, read_header_line, read_header_lines,
  read_header, empty_header, before_format, format_missing, wrong_type, wrong_format, wrong_number,
  format_of, behind, cut_line, short_name, kind_of, blank, corrupt, elements_line, end_line,
  gradient_line, invariant_line, format_line, type_line, other,
}
use potfit.PotentialHeader.Count.{ones, ones-le-length}

length-read_items : (n : ℕ) (ws items : List String) → read_items n ws ≡ ok items → length items ≡ n
unfolding read_items
length-read_items zero ws items e = let same : [] ≡ items = cc in rw (← same) refl
length-read_items (suc n) [] items e = cc
length-read_items (suc n) (w ∷ ws) items e =
    let (rest, er, eq) = through (read_items n ws) (λ rest. ok (w ∷ rest)) items e in
    let same : w ∷ rest ≡ items = cc in rw (← same) (omega (arith, length-read_items n ws rest er))

module _ (c : Scanner) (b : Build) (ntypes : ℕ) (interaction_name : String) where
  -- What holds behind every line of the header.
  pub record IsReady (h : Header) : Type 0 where
    pub counted : h.have_format ≡ true → h.num_pots ≡ npots b ntypes
    pub format : h.have_format ≡ true → supported b h.format_type ≡ true
    pub invariants : h.have_format ≡ true → length h.invar_pot ≡ npots b ntypes
    pub gradients : h.have_format ≡ true → length h.gradient ≡ npots b ntypes
    pub invariant_count : h.invar_pots ≤ npots b ntypes
    pub named : (h.elements ≡ []) ⊎ (length h.elements ≡ ntypes)

  abbrev Handler : Type 0
  Handler = String → Header → Outcome Failure Header

  abbrev Keeps : Handler → Type 0
  Keeps f = (l : String) (h h' : Header) → f l h ≡ ok h' → IsReady h → IsReady h'

  abbrev formatted : Format → Header → Header
  formatted f h = record h {
    num_pots = npots b ntypes;
    format_type = f;
    gradient = replicate (npots b ntypes) (pos 0);
    invar_pot = replicate (npots b ntypes) (pos 0);
    have_format = true;
  }

  read_pot_line_F-Keeps : Keeps (read_pot_line_F c b ntypes interaction_name)
  unfolding read_pot_line_F
  read_pot_line_F-Keeps l h h' e r = elim (Option-cases (c.scan_two (behind 2 l))) [
    | inl scan ↦ cc (rw (scan, read_pot_line_F) at e)
    | inr ((format, num_pots), scan) ↦
        let e0 = rw (scan, read_pot_line_F) at e in
        let (good, e1) = passed (not (supported b (format_of format))) wrong_format e0 in
        let (_, e2) =
          passed (not (eq_ℤ num_pots (pos (npots b ntypes))) && not b.kim) wrong_number e1 in
        let same : formatted (format_of format) h ≡ h' = cc in
        rw (← same) record {
          counted = λ t. refl;
          format = λ t. ground (arith, good);
          invariants = λ t. length-replicate (npots b ntypes) (pos 0);
          gradients = λ t. length-replicate (npots b ntypes) (pos 0);
          invariant_count = r.invariant_count;
          named = r.named;
        }
  ]

  read_pot_line_T-Keeps : Keeps (read_pot_line_T c b ntypes interaction_name)
  unfolding read_pot_line_T
  read_pot_line_T-Keeps l h h' e r =
      let (_, e1) = passed (not (str_eq (cut_line (behind 3 l)) interaction_name)) wrong_type e in
      let same : h ≡ h' = cc in rw (← same) r

  abbrev kept : Header → List ℤ → Header
  kept h zs = record h {
    invar_pot = zs;
    invar_pots = if b.apot then ones zs else h.invar_pots;
    have_invar = ltb 0 (ones zs);
  }

  abbrev graded : Header → List ℤ → Header
  graded h zs = record h { gradient = zs; have_gradient = true }

  read_pot_line_I-Keeps : Keeps (read_pot_line_I c b ntypes interaction_name)
  unfolding read_pot_line_I
  read_pot_line_I-Keeps l h h' e r =
      let (not_have, e1) = passed (not h.have_format) before_format e in
      let have : h.have_format ≡ true = ground arith in
      let (items, ei, eh) =
        through (read_items h.num_pots (c.strtok (behind 2 l)))
          (λ items. ok (kept h (map c.atoi items))) h' e1 in
      let size : length (map c.atoi items) ≡ npots b ntypes =
        length-map items c.atoi
        ∙ length-read_items h.num_pots (c.strtok (behind 2 l)) items ei
        ∙ r.counted have in
      let same : kept h (map c.atoi items) ≡ h' = cc in
      rw (← same) record {
        counted = r.counted;
        format = r.format;
        invariants = λ t. size;
        gradients = r.gradients;
        invariant_count =
            ground (arith, size, r.invariant_count, ones-le-length (map c.atoi items));
        named = r.named;
      }

  read_pot_line_G-Keeps : Keeps (read_pot_line_G c b ntypes interaction_name)
  unfolding read_pot_line_G
  read_pot_line_G-Keeps l h h' e r = elim (Bool-cases b.apot) [
    | inl apot ↦ let same : h ≡ h' = cc (rw (apot, read_pot_line_G) at e) in rw (← same) r
    | inr table ↦
        let (not_have, e1) =
          passed (not h.have_format) before_format (rw (table, read_pot_line_G) at e) in
        let have : h.have_format ≡ true = ground arith in
        let (items, ei, eh) =
          through (read_items h.num_pots (c.strtok (behind 2 l)))
            (λ items. ok (graded h (map c.atoi items))) h' e1 in
        let size : length (map c.atoi items) ≡ npots b ntypes =
          length-map items c.atoi
          ∙ length-read_items h.num_pots (c.strtok (behind 2 l)) items ei
          ∙ r.counted have in
        let same : graded h (map c.atoi items) ≡ h' = cc in
        rw (← same) record {
          counted = r.counted;
          format = r.format;
          invariants = r.invariants;
          gradients = λ t. size;
          invariant_count = r.invariant_count;
          named = r.named;
        }
  ]

  read_pot_line_C-Keeps : Keeps (read_pot_line_C c b ntypes interaction_name)
  unfolding read_pot_line_C
  read_pot_line_C-Keeps l h h' e r =
      let (not_have, e1) = passed (not h.have_format) before_format e in
      let (items, ei, eh) =
        through (read_items ntypes (c.strtok (behind 2 l)))
          (λ items. ok (record h { elements = map short_name items })) h' e1 in
      let same : record h { elements = map short_name items } ≡ h' = cc in
      rw (← same) record {
        counted = r.counted;
        format = r.format;
        invariants = r.invariants;
        gradients = r.gradients;
        invariant_count = r.invariant_count;
        named = inr (
            length-map items short_name
            ∙ length-read_items ntypes (c.strtok (behind 2 l)) items ei);
      }

  read_header_line-Keeps : Keeps (read_header_line c b ntypes interaction_name)
  unfolding read_header_line
  read_header_line-Keeps l h h' e r =
      elim (kind_of l) as (λ k. kind_of l ≡ k → IsReady h') [
        | blank ↦ λ k. let same : h ≡ h' = cc (rw (k, read_header_line) at e) in rw (← same) r
        | corrupt ↦ λ k. cc (rw (k, read_header_line) at e)
        | elements_line ↦ λ k. read_pot_line_C-Keeps l h h' (rw (k, read_header_line) at e) r
        | end_line ↦ λ k.
            let same : record h { end_header = true } ≡ h' = cc (rw (k, read_header_line) at e) in
            rw (← same) record {
              counted = r.counted;
              format = r.format;
              invariants = r.invariants;
              gradients = r.gradients;
              invariant_count = r.invariant_count;
              named = r.named;
            }
        | gradient_line ↦ λ k. read_pot_line_G-Keeps l h h' (rw (k, read_header_line) at e) r
        | invariant_line ↦ λ k. read_pot_line_I-Keeps l h h' (rw (k, read_header_line) at e) r
        | format_line ↦ λ k. read_pot_line_F-Keeps l h h' (rw (k, read_header_line) at e) r
        | type_line ↦ λ k. read_pot_line_T-Keeps l h h' (rw (k, read_header_line) at e) r
        | other ↦ λ k. let same : h ≡ h' = cc (rw (k, read_header_line) at e) in rw (← same) r
      ]
        refl

  read_header_lines-IsReady :
      (ls : List String) (h h' : Header)
      → read_header_lines c b ntypes interaction_name ls h ≡ ok h'
      → IsReady h
      → IsReady h'
  unfolding read_header_lines
  read_header_lines-IsReady [] h h' e r = cc
  read_header_lines-IsReady (l ∷ ls) h h' e r =
      let (m, em, rest) =
        through (read_header_line c b ntypes interaction_name l h)
          (λ m. if m.end_header then ok m else read_header_lines c b ntypes interaction_name ls m)
          h' e in
      let ready = read_header_line-Keeps l h m em r in
      elim (Bool-cases m.end_header) [
        | inl t ↦ let same : m ≡ h' = cc (rw t at rest) in rw (← same) ready
        | inr f ↦ read_header_lines-IsReady ls m h' (rw f at rest) ready
      ]

  -- A header that is accepted names a format of this binary. It announces as many potentials as the
  -- binary's interaction has for the number of atom types, and the marks of `#I` and `#G` have this
  -- length, with at most so many invariant potentials; `#C` names an element for every type or is
  -- missing.
  pub read_header-IsReady :
      (lines : List String) (h : Header)
      → read_header c b ntypes interaction_name lines ≡ ok h
      → (h.have_format ≡ true) × IsReady h
  unfolding read_header
  read_header-IsReady lines h e =
      let (m, em, rest) =
        through
          (read_header_lines c b ntypes interaction_name lines
            (empty_header c b ntypes interaction_name))
          (λ m. exit_if (not m.have_format) format_missing >> ok m) h e in
      let (have, er) = passed (not m.have_format) format_missing rest in
      let same : m ≡ h = cc in
      rw (← same) (
        ground arith,
        read_header_lines-IsReady lines (empty_header c b ntypes interaction_name) m em record {
          counted = λ t. cc;
          format = λ t. cc;
          invariants = λ t. cc;
          gradients = λ t. cc;
          invariant_count = omega arith;
          named = inl refl;
        },
      )
