-- ===== src/Linmin.antt =====
-- `linmin` of linmin.c: the line search, which brackets a minimum along a direction and hands the
-- bracket to `brent`. The linked force routine is the argument `calc_forces` on parameter vectors.
pub mod Descent
mod Examples
use potfit.Base.{List, [], ◌∷◌, map, Outcome, ok, exit}
use potfit.Base.Double.{Double, zero_double, ◌⊕◌, ◌⊗◌}
use potfit.Bracket.Buffers.{Buffer, vec1, vec2, vec3}
use potfit.Bracket.{Ending, Found, found, aborting, out_of_rounds, bracket}
use potfit.Brent
use potfit.Brent.{Minimum, brent}

-- What `linmin` leaves behind: its value, the two vectors that it changes, the two best places on the
-- line and their force vectors.
pub record Moved (W V : Type 0) : Type 0 where
  pub fx : W
  pub xi : List W
  pub del : List W
  pub x1 : W
  pub x2 : W
  pub fret1 : V
  pub fret2 : V

-- `rounds` stands for a bracketing that does not stop by itself, which does not happen.
pub data Failure : Type 0 where
  bracketing : Failure
  rounds : Failure
  brent_failed : Brent.Failure → Failure

module _ {W : Type 0} where
  unfoldable pub zip_with : (W → W → W) → List W → List W → List W
  zip_with f [] ys = []
  zip_with f (x ∷ xs) [] = []
  zip_with f (x ∷ xs) (y ∷ ys) = f x y ∷ zip_with f xs ys

module _ {W V : Type 0} ⦃d : Double W⦄ (calc_forces : List W → W × V) where
  -- `vecu[j] = xicom[j] + x * delcom[j]`
  unfoldable pub along : List W → List W → W → List W
  unfolding zip_with
  along xi del x = zip_with (λ a b. a ⊕ (x ⊗ b)) xi del

  abbrev pub on_line : List W → List W → W → W × V
  on_line xi del x = calc_forces (along xi del x)

  -- `del[j] *= xmin; xi[j] += del[j];` behind the two searches.
  abbrev pub moved : List W → List W → Minimum W V → Moved W V
  moved xi del m =
      let del' = map (λ b. b ⊗ m.xmin) del in
      record {
        fx = m.f_z;
        xi = zip_with (λ a b. a ⊕ b) xi del';
        del = del';
        x1 = m.xmin;
        x2 = m.xmin2;
        fret1 = m.fxmin;
        fret2 = m.fxmin2;
      }

  -- `fret` and `fret'` are the buffers at the two calls: `fret1` first, and what is overwritten before
  -- it is read.
  abbrev vectors : V → V → V → Buffer → V
  vectors a b c vec1 = a
  vectors a b c vec2 = b
  vectors a b c vec3 = c

  abbrev tol : W
  tol = d.lit 1 10

  abbrev pub search_bracket : List W → List W → V → V → Found W V → Outcome Failure (Moved W V)
  search_bracket xi del old_fret2 old_fxu r =
      elim (brent (on_line xi del) tol r.x_lower r.x_minimum r.x_upper r.f_minimum
        (vectors r.f_vec1 old_fret2 old_fxu)) [
          | exit f ↦ exit (brent_failed f)
          | ok m ↦ ok (moved xi del m)
        ]

  -- `old` is what the static buffers of `bracket` and `brent` hold from earlier calls.
  unfoldable pub linmin : List W → List W → W → V → V → Outcome Failure (Moved W V)
  linmin xi del fxi1 fret1 old =
      let ax = zero_double in
      let bx = d.lit 1 10 in
      let (fb, fret2) = on_line xi del bx in
      elim (bracket (on_line xi del) ax bx fxi1 fb (vectors fret1 fret2 old)) [
        | found r ↦ search_bracket xi del fret2 old r
        | aborting ↦ exit bracketing
        | out_of_rounds ↦ exit rounds
      ]
