-- ===== src/Params/Reading.antt =====
-- The loop of `read_parameter_file` over the lines of the file.
use Prim.Native.String.{String}
use text.Mathlib.Text.{starts_with}
use potfit.Base.{
  ℕ, ◌+◌, Bool, true, List, [], ◌∷◌, Option, none, some, if◌then◌else◌, Outcome, ok, ◌>>=◌,
}
use potfit.Base.Double.{Double}
use potfit.Build.{Build}
use potfit.Params.Settings.{Settings, Failure, CLibrary}
use potfit.Params.Keywords.{Keyword, run, keywords}

-- The second word of a line.
abbrev pub second : List String → Option String
second [] = none
second (w ∷ _) = some w

-- A line without a word, or with a comment.
abbrev pub skipped : List String → Bool
skipped [] = true
skipped (token ∷ rest) = starts_with token "#"

module _ {W : Type 0} ⦃d : Double W⦄ (c : CLibrary W) (b : Build) where
  -- The first keyword that `token` is; an unknown one only gives a warning.
  unfoldable pub dispatch :
      List (Keyword W) → String → Option String → ℕ → Settings W → Outcome Failure (Settings W)
  unfolding run
  dispatch [] token value line s = ok s
  dispatch (k ∷ ks) token value line s =
      if c.strcasecmp token k.word
      then run c k.action k.word value line s
      else dispatch ks token value line s

  -- One round of the loop, on the words of the line.
  unfoldable pub process_line : List String → ℕ → Settings W → Outcome Failure (Settings W)
  unfolding dispatch keywords
  process_line [] line s = ok s
  process_line (token ∷ rest) line s =
      if starts_with token "#" then ok s else dispatch (keywords c b) token (second rest) line s

  -- The rounds behind line number `line`, for the lines that `fgets` still returns.
  unfoldable pub read_lines : ℕ → List String → Settings W → Outcome Failure (Settings W)
  unfolding process_line
  read_lines line [] s = ok s
  read_lines line (l ∷ ls) s = process_line (c.strtok l) (line + 1) s >>= read_lines (line + 1) ls

  -- The lines that are neither blank nor comments.
  abbrev pub significant : List String → List String
  significant [] = []
  significant (l ∷ ls) = if skipped (c.strtok l) then significant ls else l ∷ significant ls
