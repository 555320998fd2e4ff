-- ===== src/Config/Counts/Tally.antt =====
-- Sums over the lines of a file, with and without the last one, and what the counting pass makes of
-- them.
use Prim.Native.String.{String}
use text.Mathlib.Text.{starts_with}
use potfit.Base.{
  ℕ, zero, suc, ◌+◌, ◌^◌, ◌<◌, ◌≤◌, ◌≡◌, ◌⊎◌, refl, Bool, true, false, List, [], ◌∷◌, ◌++◌, Option,
  none, some, ok, exit, arith, All, inl, inr, through, read_or_done, tested_ways,
}
use potfit.Base.Int.{ℤ, pos, negsuc, pos_part, ◌+ℤ◌, ◌≤ℤ◌, int_laws}
use potfit.Params.Settings.{to_int}
use potfit.PotentialHeader.{behind}
use potfit.Config.{Vector}
use potfit.Config.Header.{corrupt_atom_number, Source}
use potfit.Config.Counts.{Lengths, count_line, create_memory_for_configs}

-- A last line is not counted: the pass meets the end of the file behind it.
abbrev pub tally : (String → ℕ) → List String → ℕ
tally weight [] = 0
tally weight (line ∷ []) = 0
tally weight (line ∷ next ∷ lines) = weight line + tally weight (next ∷ lines)

-- A sum over all lines.
abbrev pub sum_of : (String → ℕ) → List String → ℕ
sum_of weight [] = 0
sum_of weight (line ∷ lines) = weight line + sum_of weight lines

module _ (weight : String → ℕ) where
  pub tally-cons :
      (line : String) (lines : List String) → tally weight lines ≤ tally weight (line ∷ lines)
  tally-cons line [] = omega arith
  tally-cons line (next ∷ lines) = omega arith

  pub tally-append :
      (skipped lines : List String) → tally weight lines ≤ tally weight (skipped ++ lines)
  tally-append [] lines = omega arith
  tally-append (line ∷ skipped) lines =
      let rest = tally-append skipped lines in
      let first = tally-cons line (skipped ++ lines) in omega arith

  pub tally-le :
      (line : String) (lines : List String)
      → tally weight (line ∷ lines) ≤ weight line + tally weight lines
  tally-le line [] = omega arith
  tally-le line (next ∷ lines) = omega arith

-- For a line that begins with `#N` or not, and what `sscanf` finds on it.
abbrev pub atoms_in : Bool → Option ℤ → ℕ
atoms_in true (some count) = pos_part count
atoms_in true none = 0
atoms_in false found = 0

abbrev pub configs_in : Bool → ℕ
configs_in true = 1
configs_in false = 0

module _ {F W : Type 0} (c : Source F W) where
  -- What a line adds to the atoms and to the configurations.
  unfoldable pub atoms_of : String → ℕ
  atoms_of line = atoms_in (starts_with line "#N") (c.scan_count (behind 3 line))

  unfoldable pub configs_of : String → ℕ
  configs_of line = configs_in (starts_with line "#N")

  -- A line with a number of atoms has one that is not negative.
  abbrev pub IsCount : String → Type 0
  IsCount line =
      starts_with line "#N" ≡ true
      → (count : ℤ) → c.scan_count (behind 3 line) ≡ some count
      → pos 0 ≤ℤ count

  -- What `fgets` and `fscanf` leave of a file, in any order of their calls.
  pub data Reads (f : F) : F → Type 0 where
    at_start : Reads f f
    line_taken : {g g' : F} {line : String} → Reads f g → c.fgets g ≡ some (line, g') → Reads f g'
    atom_taken :
        {g g' : F} {x : ℤ × Vector W × Vector W}
        → Reads f g
        → c.scan_atom g ≡ some (x, g')
        → Reads f g'

  -- The lines that are left of the file `f₀`, none of which is longer than the buffer: `fgets` takes one;
  -- `fscanf` stops where a line begins, or within a line, of which it leaves a part; and both numbers of
  -- a line `#N` begin with the first.
  pub record IsText (text : F → List String) (f₀ : F) : Type 0 where
    pub fgets-line :
        (f f' : F) (line : String)
        → Reads f₀ f
        → c.fgets f ≡ some (line, f')
        → text f ≡ line ∷ text f'
    pub fgets-end : (f : F) → Reads f₀ f → c.fgets f ≡ none → text f ≡ []
    pub feof-end : (f : F) → Reads f₀ f → c.feof f ≡ true → text f ≡ []
    pub scan_atom-lines :
        (f f' : F) (x : ℤ × Vector W × Vector W)
        → Reads f₀ f
        → c.scan_atom f ≡ some (x, f')
        → (skipped : List String) × ((text f ≡ skipped ++ text f')
            ⊎ ((whole : String) × (part : String) × (rest : List String) × (text f
                  ≡ skipped ++ (whole ∷ rest))
                × (text f' ≡ part ∷ rest)))
    pub scan_two-count :
        (line : String) (count wanted : ℤ)
        → c.scan_two line ≡ some (count, wanted)
        → c.scan_count line ≡ some count

  -- Where `fscanf` leaves a rest that begins with `#N`, a line of the file begins: no `#N` stands on the
  -- line of an atom behind its numbers.
  abbrev pub IsTidy : (F → List String) → F → Type 0
  IsTidy text f =
      (g g' : F) (x : ℤ × Vector W × Vector W) (part : String) (rest : List String)
      → Reads f g
      → c.scan_atom g ≡ some (x, g')
      → text g' ≡ part ∷ rest
      → starts_with part "#N" ≡ true
      → (skipped : List String) × (text g ≡ skipped ++ (part ∷ rest))

  -- The lengths are these numbers.
  abbrev pub IsAt : Lengths → (atoms configs : ℕ) → Type 0
  IsAt m atoms configs = (m.atom_count ≡ pos atoms) × (m.config_count ≡ pos configs)

  -- The lengths are these numbers, or more.
  abbrev pub Reached : Lengths → (atoms configs : ℕ) → Type 0
  Reached m atoms configs = (a : ℕ) × (k : ℕ) × IsAt m a k × (atoms ≤ a) × (configs ≤ k)

  int-pos : (n : ℕ) → n < 2 ^ 31 → to_int (pos n) ≡ pos n
  unfolding to_int
  int-pos n h = ground arith

  sum-pos : (a n : ℕ) → a + n < 2 ^ 31 → to_int (pos a +ℤ pos n) ≡ pos (a + n)
  sum-pos a n h =
      let plain : pos a +ℤ pos n ≡ pos (a + n) = omega int_laws in rw plain (int-pos (a + n) h)

  added :
      (starts : Bool) (found : Option ℤ) (m m' : Lengths) (a k : ℕ)
      → (starts ≡ true → (count : ℤ) → found ≡ some count → pos 0 ≤ℤ count)
      → IsAt m a k
      → a + atoms_in starts found < 2 ^ 31
      → k + configs_in starts < 2 ^ 31
      → (elim starts [
        | true ↦ elim found [
          | none ↦ exit corrupt_atom_number
          | some count ↦ ok (record {
            atom_count = to_int (m.atom_count +ℤ count);
            config_count = to_int (m.config_count +ℤ pos 1);
          })
        ]
        | false ↦ ok m
      ])
        ≡ ok m'
      → IsAt m' (a + atoms_in starts found) (k + configs_in starts)
  added true none m m' a k good at ha hk e = cc
  added true (some (negsuc n)) m m' a k good at ha hk e =
      absurd (omega (arith, good refl (negsuc n) refl))
  added true (some (pos n)) m m' a k good (ea, ek) ha hk e =
      let made : Lengths = record {
        atom_count = to_int (m.atom_count +ℤ pos n);
        config_count = to_int (m.config_count +ℤ pos 1);
      } in
      let same : made ≡ m' = cc in rw (← same) (rw ea (sum-pos a n ha), rw ek (sum-pos k 1 hk))
  added false found m m' a k good (ea, ek) ha hk e =
      let same : m ≡ m' = cc in
      let none_more : a + 0 ≡ a = omega arith in
      let no_more : k + 0 ≡ k = omega arith in rw (← same, none_more, no_more) (ea, ek)

  count_line-at :
      (line : String) (m m' : Lengths) (a k : ℕ)
      → IsCount line
      → IsAt m a k
      → a + atoms_of line < 2 ^ 31
      → k + configs_of line < 2 ^ 31
      → count_line c line m ≡ ok m'
      → IsAt m' (a + atoms_of line) (k + configs_of line)
  unfolding count_line atoms_of configs_of
  count_line-at line m m' a k good at ha hk e =
      added (starts_with line "#N") (c.scan_count (behind 3 line)) m m' a k good at ha hk e

  pub create_memory_for_configs-at :
      (text : F → List String) (f₀ : F) (n : ℕ) (f : F) (m m' : Lengths) (a k : ℕ)
      → IsText text f₀
      → Reads f₀ f
      → All IsCount (text f)
      → IsAt m a k
      → a + sum_of atoms_of (text f) < 2 ^ 31
      → k + sum_of configs_of (text f) < 2 ^ 31
      → create_memory_for_configs c n f m ≡ ok m'
      → Reached m' (a + tally atoms_of (text f)) (k + tally configs_of (text f))
  unfolding create_memory_for_configs
  create_memory_for_configs-at text f₀ zero f m m' a k file from good at ha hk e = cc
  create_memory_for_configs-at text f₀ (suc n) f m m' a k file from good at ha hk e =
      elim (read_or_done (c.fgets f) m _ m' e) [
        | inl (same, eof) ↦
            let no_lines = file.fgets-end f from eof in
            rw (← same, no_lines) (a, k, at, omega arith, omega arith)
        | inr (got, read, e1) ↦
            let lines = file.fgets-line f got.1 got.0 from read in
            let taken = line_taken from read in
            elim (tested_ways (c.feof got.1) (ok m) _ (ok m') e1) [
              | inl (eof, e2) ↦
                  let no_lines = file.feof-end got.1 taken eof in
                  let same : m ≡ m' = cc in
                  rw (lines, no_lines, ← same) (a, k, at, omega arith, omega arith)
              | inr (_, e2) ↦
                  let all : IsCount got.0 × All IsCount (text got.1) = rw lines at good in
                  let (s, e3, e4) = through (count_line c got.0 m) _ m' e2 in
                  let ha' : a + (atoms_of got.0 + sum_of atoms_of (text got.1)) < 2 ^ 31 =
                    rw lines at ha in
                  let hk' : k + (configs_of got.0 + sum_of configs_of (text got.1)) < 2 ^ 31 =
                    rw lines at hk in
                  let first = count_line-at got.0 m s a k all.0 at (omega arith) (omega arith) e3 in
                  let (a', k', at', la, lk) =
                    create_memory_for_configs-at text f₀ n got.1 s m' (a + atoms_of got.0)
                      (k + configs_of got.0) file taken all.1 first (omega arith) (omega arith)
                      e4 in
                  let lea = tally-le atoms_of got.0 (text got.1) in
                  let lek = tally-le configs_of got.0 (text got.1) in
                  rw lines (a', k', at', omega arith, omega arith)
            ]
      ]
