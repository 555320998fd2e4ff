-- ===== src/Config/Header/Lines.antt =====
-- The lines that the header of a configuration takes from a file.
use Prim.Native.String.{String}
use potfit.Base.{
  ℕ, zero, suc, ◌≤◌, ◌≡◌, List, ◌∷◌, ok, arith, inl, inr, through, passed, fetched, tested_ways,
}
use potfit.Base.Double.{Double}
use potfit.PotentialHeader.{cut_line}
use potfit.Config.Header.{Reader, Source, incomplete_header, is_letter, read_item, read_header}
use potfit.Config.Counts.Tally.{tally, tally-cons, IsText, Reads, line_taken}

module _ {F W : Type 0} ⦃d : Double W⦄ (c : Source F W) (text : F → List String) where
  -- A sum over the lines behind the first one does not grow.
  abbrev pub Shrinks : F → F → Type 0
  Shrinks f f' =
      (line : String) × (rest : List String) × (text f ≡ line ∷ rest)
      × ((w : String → ℕ) → tally w (text f') ≤ tally w rest)

  pub read_header-Shrinks :
      (f₀ : F) (n : ℕ) (f f' : F) (r r' : Reader W)
      → IsText c text f₀
      → Reads c f₀ f
      → read_header c n f r ≡ ok (f', r')
      → Shrinks f f'
  unfolding read_header
  read_header-Shrinks f₀ zero f f' r r' file from e = cc
  read_header-Shrinks f₀ (suc n) f f' r r' file from e =
      let (got, read, e0) = fetched (c.fgets f) incomplete_header _ (f', r') e in
      let line = cut_line got.0 in
      let (_, e1) = passed (c.feof got.1) incomplete_header e0 in
      let (s, e2, e3) = through (read_item c line r) _ (f', r') e1 in
      let lines = file.fgets-line f got.1 got.0 from read in
      elim (tested_ways (is_letter c line "F" "F") (ok (got.1, s)) _ (ok (f', r')) e3) [
        | inl (_, e4) ↦
            let same : got.1 ≡ f' = cc in (got.0, text got.1, lines, λ w. rw same (omega arith))
        | inr (_, e4) ↦
            let (next, rest, lines', less) =
              read_header-Shrinks f₀ n got.1 f' s r' file (line_taken from read) e4 in
            (
              got.0,
              text got.1,
              lines,
              λ w.
                  let first = tally-cons w next rest in
                  let more = less w in rw lines' (omega arith),
            )
      ]

module _ {F W : Type 0} ⦃d : Double W⦄ (c : Source F W) (f₀ : F) where
  pub read_header-Reads :
      (n : ℕ) (f f' : F) (r r' : Reader W)
      → read_header c n f r ≡ ok (f', r')
      → Reads c f₀ f
      → Reads c f₀ f'
  unfolding read_header
  read_header-Reads zero f f' r r' e h = cc
  read_header-Reads (suc n) f f' r r' e h =
      let (got, read, e0) = fetched (c.fgets f) incomplete_header _ (f', r') e in
      let line = cut_line got.0 in
      let (_, e1) = passed (c.feof got.1) incomplete_header e0 in
      let (s, _, e2) = through (read_item c line r) _ (f', r') e1 in
      let next = line_taken h read in
      elim (tested_ways (is_letter c line "F" "F") (ok (got.1, s)) _ (ok (f', r')) e2) [
        | inl (_, e3) ↦ let same : got.1 ≡ f' = cc in rw (← same) next
        | inr (_, e3) ↦ read_header-Reads n got.1 f' s r' e3 next
      ]
