-- ===== src/PotentialHeader.antt =====
-- The header of a potential file, potential_input.c: `read_pot_table` up to `#E` with the handlers of
-- its lines. The C library's `sscanf`, `strtok` and `atoi` are the argument `c`.
pub mod Count
pub mod Ready
pub mod Order
mod Examples
use Prim.Native.String.{String, len, slice}
use text.Mathlib.Text.{◌==◌ as str_eq, starts_with, find?}
use potfit.Base.{
  ℕ, zero, suc, ◌+◌, ◌*◌, ◌/◌, ◌^◌, Bool, true, false, not, ◌||◌, ◌&&◌, List, [], ◌∷◌, map, Option,
  none, some, if◌then◌else◌, ltb, replicate, Outcome, ok, exit, ◌>>=◌, ◌>>◌, exit_if,
}
use potfit.Base.Int.{ℤ, eq_ℤ, pos, negsuc}
use potfit.Build.{Build}
use potfit.PairIndex.{paircol}
use Count.{ones}

-- `POTENTIAL_FORMAT`; any other number is no format of a file.
pub data Format : Type 0 where
  analytic : Format
  tabulated_eq_dist : Format
  tabulated_non_eq_dist : Format
  kim : Format
  unknown : Format

-- `potential_state`, and what the header sets in `g_pot` and `g_config`.
pub record Header : Type 0 where
  pub num_pots : ℕ
  pub have_format : Bool
  pub have_gradient : Bool
  pub end_header : Bool
  pub format_type : Format
  pub invar_pot : List ℤ
  pub have_invar : Bool
  pub invar_pots : ℕ
  pub gradient : List ℤ
  pub elements : List String

pub data Failure : Type 0 where
  end_of_file : Failure
  header_corrupt : Failure
  format_line_corrupt : Failure
  wrong_format : Failure
  wrong_number : Failure
  wrong_type : Failure
  not_enough_items : Failure
  before_format : Failure
  format_missing : Failure

-- `scan_two` is `sscanf` with "%d %d", and `none` unless it converts both.
pub record Scanner : Type 0 where
  pub scan_two : String → Option (ℤ × ℤ)
  pub strtok : String → List String
  pub atoi : String → ℤ

abbrev pub format_of : ℤ → Format
format_of n =
    if eq_ℤ n (pos 0)
    then analytic
    else if eq_ℤ n (pos 3)
    then tabulated_eq_dist
    else if eq_ℤ n (pos 4)
    then tabulated_non_eq_dist
    else if eq_ℤ n (pos 5)
    then kim
    else unknown

-- The formats that a binary reads.
abbrev pub supported : Build → Format → Bool
supported b analytic = b.apot && not b.kim
supported b tabulated_eq_dist = not b.apot
supported b tabulated_non_eq_dist = not b.apot
supported b kim = b.apot && b.kim
supported b unknown = false

-- `npots` in `read_pot_line_F`, assignment by assignment.
unfoldable pub npots : Build → ℕ → ℕ
unfolding paircol
npots b ntypes =
    let pairs = paircol ntypes in
    let eam =
      if b.eam
      then (if b.tbeam then pairs + 2 * ntypes + 2 * ntypes else pairs + 2 * ntypes)
      else pairs in
    let adp = if b.adp then 3 * pairs + 2 * ntypes else eam in
    let meam = if b.meam then 2 * pairs + 3 * ntypes else adp in
    let ang = if b.ang then 2 * pairs + ntypes else meam in
    let stiweb = if b.stiweb then 2 * pairs + 1 else ang in
    let tersoff = if b.tersoff && not b.tersoffmod then ntypes * ntypes else stiweb in
    if b.kim then 1 else tersoff

-- The text up to a line end.
abbrev pub cut_line : String → String
cut_line t = elim (find? t "\n") [ none ↦ t | some i ↦ slice t 0 i ]

-- A pointer into the line behind its first characters.
abbrev pub behind : ℕ → String → String
behind n l = slice l n (len l)

-- At most four characters of an element's name.
abbrev pub short_name : String → String
short_name t = if ltb 4 (len t) then slice t 0 4 else t

-- The kinds of a line that the tests of its first two characters tell apart.
pub data Kind : Type 0 where
  blank : Kind
  corrupt : Kind
  elements_line : Kind
  end_line : Kind
  gradient_line : Kind
  invariant_line : Kind
  format_line : Kind
  type_line : Kind
  other : Kind

abbrev pub kind_of : String → Kind
kind_of l =
    if starts_with l "\n"
    then blank
    else if not (starts_with l "#")
    then corrupt
    else if starts_with l "#C"
    then elements_line
    else if starts_with l "#E"
    then end_line
    else if starts_with l "#G"
    then gradient_line
    else if starts_with l "#I"
    then invariant_line
    else if starts_with l "#F"
    then format_line
    else if starts_with l "#T"
    then type_line
    else other

-- The loop `for (i = 0; i < n; i++) strtok(...)`.
pub read_items : ℕ → List String → Outcome Failure (List String)
read_items zero words = ok []
read_items (suc n) [] = exit not_enough_items
read_items (suc n) (w ∷ ws) = read_items n ws >>= (λ rest. ok (w ∷ rest))

module _ (c : Scanner) (b : Build) (ntypes : ℕ) (interaction_name : String) where
  pub read_pot_line_F : String → Header → Outcome Failure Header
  unfolding npots
  read_pot_line_F pbuf h = elim (c.scan_two (behind 2 pbuf)) [
    | none ↦ exit format_line_corrupt
    | some (format, num_pots) ↦ do
      exit_if (not (supported b (format_of format))) wrong_format
      exit_if (not (eq_ℤ num_pots (pos (npots b ntypes))) && not b.kim) wrong_number
      ok (record h {
        num_pots = npots b ntypes;
        format_type = format_of format;
        gradient = replicate (npots b ntypes) (pos 0);
        invar_pot = replicate (npots b ntypes) (pos 0);
        have_format = true;
      })
  ]

  pub read_pot_line_T : String → Header → Outcome Failure Header
  read_pot_line_T pbuf h = do
    exit_if (not (str_eq (cut_line (behind 3 pbuf)) interaction_name)) wrong_type
    ok h

  pub read_pot_line_I : String → Header → Outcome Failure Header
  unfolding read_items ones
  read_pot_line_I pbuf h = do
    exit_if (not h.have_format) before_format
    items ← read_items h.num_pots (c.strtok (behind 2 pbuf))
    let invar_pot = map c.atoi items
    ok (record h {
      invar_pot = invar_pot;
      invar_pots = if b.apot then ones invar_pot else h.invar_pots;
      have_invar = ltb 0 (ones invar_pot);
    })

  pub read_pot_line_G : String → Header → Outcome Failure Header
  unfolding read_items
  read_pot_line_G pbuf h =
      if b.apot
      then ok h
      else exit_if (not h.have_format) before_format
        >> (read_items h.num_pots (c.strtok (behind 2 pbuf))
            >>= (λ items. ok (record h { gradient = map c.atoi items; have_gradient = true })))

  pub read_pot_line_C : String → Header → Outcome Failure Header
  unfolding read_items
  read_pot_line_C pbuf h = do
    exit_if (not h.have_format) before_format
    items ← read_items ntypes (c.strtok (behind 2 pbuf))
    ok (record h { elements = map short_name items })

  -- The body of the loop in `read_pot_table`; behind `read_pot_line_T` the next case only continues.
  pub read_header_line : String → Header → Outcome Failure Header
  unfolding read_pot_line_F read_pot_line_T read_pot_line_I read_pot_line_G read_pot_line_C
  read_header_line l h = elim (kind_of l) [
    | blank ↦ ok h
    | corrupt ↦ exit header_corrupt
    | elements_line ↦ read_pot_line_C l h
    | end_line ↦ ok (record h { end_header = true })
    | gradient_line ↦ read_pot_line_G l h
    | invariant_line ↦ read_pot_line_I l h
    | format_line ↦ read_pot_line_F l h
    | type_line ↦ read_pot_line_T l h
    | other ↦ ok h
  ]

  -- The loop up to `#E`, on the lines that `fgets` returns.
  pub read_header_lines : List String → Header → Outcome Failure Header
  unfolding read_header_line
  read_header_lines [] h = exit end_of_file
  read_header_lines (l ∷ ls) h =
      read_header_line l h >>= (λ h'. if h'.end_header then ok h' else read_header_lines ls h')

  abbrev pub empty_header : Header
  empty_header = record {
    num_pots = 0;
    have_format = false;
    have_gradient = false;
    end_header = false;
    format_type = unknown;
    invar_pot = [];
    have_invar = false;
    invar_pots = 0;
    gradient = [];
    elements = [];
  }

  -- `read_pot_table` up to the call of `allocate_memory_for_potentials`.
  pub read_header : List String → Outcome Failure Header
  unfolding read_header_lines
  read_header lines =
      read_header_lines lines empty_header
      >>= (λ h. exit_if (not h.have_format) format_missing >> ok h)
