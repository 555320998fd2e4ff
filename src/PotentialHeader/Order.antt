-- ===== src/PotentialHeader/Order.antt =====
-- The order of the header's lines: #C, #I and #G stand behind #F.
use Prim.Native.String.{String}
use potfit.Base.{
  ℕ, ◌≡◌, ◌≢◌, refl, ap, ◌∙◌, Bool, true, false, not, List, [], ◌∷◌, ◌++◌, if◌then◌else◌, All,
  Outcome, ok, exit, passed, arith, Bool-cases, inl, inr,
}
use text.Mathlib.Text.{◌==◌ as str_eq}
use potfit.Build.{Build}
use potfit.PotentialHeader.{
  Header, Failure, Scanner, read_pot_line_T, read_pot_line_I, read_pot_line_G, read_pot_line_C,
  read_header_line, read_header_lines, read_header, empty_header, before_format, wrong_type, behind,
  cut_line, Kind, kind_of, blank, corrupt, elements_line, end_line, gradient_line, invariant_line,
  format_line, type_line, other,
}

module _ (c : Scanner) (b : Build) (ntypes : ℕ) (interaction_name : String) where
  -- The lines that the header refuses before the format.
  abbrev pub needs_format : Kind → Bool
  needs_format elements_line = true
  needs_format invariant_line = true
  needs_format gradient_line = not b.apot
  needs_format _ = false

  abbrev pub IsEarly : String → Type 0
  IsEarly l = (kind_of l ≢ format_line) × (kind_of l ≢ end_line)

  abbrev Unformatted : Header → Type 0
  Unformatted h = (h.have_format ≡ false) × (h.end_header ≡ false)

  refused :
      (l : String) (h : Header)
      → needs_format (kind_of l) ≡ true
      → h.have_format ≡ false
      → read_header_line c b ntypes interaction_name l h ≡ exit before_format
  unfolding read_header_line read_pot_line_C read_pot_line_I read_pot_line_G
  refused l h needs h0 =
      elim (kind_of l)
          as (λ k.
            kind_of l ≡ k
            → needs_format k ≡ true
            → read_header_line c b ntypes interaction_name l h ≡ exit before_format) [
              | blank ↦ λ k n. cc
              | corrupt ↦ λ k n. cc
              | elements_line ↦ λ k n. rw (k, read_header_line, h0) refl
              | end_line ↦ λ k n. cc
              | gradient_line ↦ λ k n.
                  let table : b.apot ≡ false = ground arith in
                  rw (k, read_header_line, table, h0) refl
              | invariant_line ↦ λ k n. rw (k, read_header_line, h0) refl
              | format_line ↦ λ k n. cc
              | type_line ↦ λ k n. cc
              | other ↦ λ k n. cc
            ]
        refl needs

  early-Unformatted :
      (l : String) (h h' : Header)
      → IsEarly l
      → Unformatted h
      → read_header_line c b ntypes interaction_name l h ≡ ok h'
      → Unformatted h'
  unfolding read_header_line read_pot_line_C read_pot_line_I read_pot_line_G read_pot_line_T
  early-Unformatted l h h' early u e =
      elim (kind_of l) as (λ k. kind_of l ≡ k → Unformatted h') [
        | blank ↦ λ k. let same : h ≡ h' = cc (rw (k, read_header_line) at e) in rw (← same) u
        | corrupt ↦ λ k. cc (rw (k, read_header_line) at e)
        | elements_line ↦ λ k. cc (refused l h (rw k refl) u.0)
        | end_line ↦ λ k. absurd (early.1 k)
        | gradient_line ↦ λ k. elim (Bool-cases b.apot) [
          | inl t ↦ let same : h ≡ h' = cc (rw (k, read_header_line, t) at e) in rw (← same) u
          | inr f ↦ cc (refused l h (rw (k, f) refl) u.0)
        ]
        | invariant_line ↦ λ k. cc (refused l h (rw k refl) u.0)
        | format_line ↦ λ k. absurd (early.0 k)
        | type_line ↦ λ k.
            let (_, e1) =
              passed (not (str_eq (cut_line (behind 3 l)) interaction_name)) wrong_type
                (rw (k, read_header_line) at e) in
            let same : h ≡ h' = cc in rw (← same) u
        | other ↦ λ k. let same : h ≡ h' = cc (rw (k, read_header_line) at e) in rw (← same) u
      ]
        refl

  abbrev IsExit : Outcome Failure Header → Type 0
  IsExit o = (f : Failure) × (o ≡ exit f)

  next_line :
      (x : String) (zs : List String) (h m : Header)
      → read_header_line c b ntypes interaction_name x h ≡ ok m
      → m.end_header ≡ false
      → read_header_lines c b ntypes interaction_name (x ∷ zs) h
        ≡ read_header_lines c b ntypes interaction_name zs m
  unfolding read_header_lines
  next_line x zs h m e u =
      rw (e, read_header_lines)
        (ap (λ t. if t then ok m else read_header_lines c b ntypes interaction_name zs m) u)

  lines_refused :
      (xs : List String) (l : String) (ys : List String) (h : Header)
      → All IsEarly xs
      → Unformatted h
      → needs_format (kind_of l) ≡ true
      → IsExit (read_header_lines c b ntypes interaction_name (xs ++ (l ∷ ys)) h)
  unfolding read_header_lines
  lines_refused [] l ys h early u needs =
      (before_format, rw (refused l h needs u.0, read_header_lines) refl)
  lines_refused (x ∷ xs) l ys h early u needs =
      elim (read_header_line c b ntypes interaction_name x h)
          as (λ o.
            read_header_line c b ntypes interaction_name x h ≡ o
            → IsExit (read_header_lines c b ntypes interaction_name (x ∷ (xs ++ (l ∷ ys))) h)) [
              | exit f ↦ λ e. (f, rw (e, read_header_lines) refl)
              | ok m ↦ λ e.
                  let u' = early-Unformatted x h m early.0 u e in
                  let (f, ef) = lines_refused xs l ys m early.1 u' needs in
                  (f, next_line x (xs ++ (l ∷ ys)) h m e u'.1 ∙ ef)
            ]
        refl

  -- If a #C or #I line, or a #G line of a binary for tables, stands before the first #F line and before
  -- the end of the header, reading the header ends with an error, whatever the other lines are.
  pub read_header_refused :
      (xs : List String) (l : String) (ys : List String)
      → All IsEarly xs
      → needs_format (kind_of l) ≡ true
      → IsExit (read_header c b ntypes interaction_name (xs ++ (l ∷ ys)))
  unfolding read_header
  read_header_refused xs l ys early needs =
      let (f, e) =
        lines_refused xs l ys (empty_header c b ntypes interaction_name) early (refl, refl) needs in
      (f, rw (e, read_header) refl)
