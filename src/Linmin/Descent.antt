-- ===== src/Linmin/Descent.antt =====
-- The line search as a whole: what it returns belongs to the parameters that it leaves, and is at most
-- what it was given.
use potfit.Base.{length, length-map, ◌≡◌, refl, ap, ◌∙◌, List, [], ◌∷◌, map, ok, exit}
use potfit.Base.Double.{Double, zero_double, ◌⊕◌, ◌⊗◌}
use potfit.Base.Order.{IsTransitive, IsTotal, Down, Down-trans}
use potfit.Bracket.Tracking.{IsAt, IsMinimum, bracket-IsMinimum}
use potfit.Bracket.Buffers.{Buffer}
use potfit.Bracket.{Found, found, aborting, out_of_rounds, bracket}
use potfit.Brent.{Minimum, brent}
use potfit.Brent.Tracking.{IsLowered, brent-IsLowered}
use potfit.Bracket.Descent.{bracket-Down}
use potfit.Linmin.{Moved, zip_with, along, on_line, moved, search_bracket, linmin, vectors, tol}

module _ {W V : Type 0} ⦃d : Double W⦄ (o : IsTransitive d) (t : IsTotal d)
    (mul_comm : (a b : W) → d.mul a b ≡ d.mul b a) (calc_forces : List W → W × V) where
  along-moved :
      (xi del : List W) (x : W)
      → along calc_forces xi del x ≡ zip_with (λ a b. a ⊕ b) xi (map (λ b. b ⊗ x) del)
  unfolding along zip_with
  along-moved [] del x = refl
  along-moved (a ∷ xi) [] x = refl
  along-moved (a ∷ xi) (b ∷ del) x = rw (mul_comm x b, along-moved xi del x) refl

  module _ (xi del : List W) (fxi1 : W) (fret1 old : V) where
    -- The value and the force vector that come back belong to the new parameters, and the value is at
    -- most the one at the start.
    pub record IsDescent (m : Moved W V) : Type 0 where
      pub value : m.fx ≡ (calc_forces m.xi).0
      pub forces : m.fret1 ≡ (calc_forces m.xi).1
      pub lower : Down o m.fx fxi1
      pub step : m.xi ≡ zip_with (λ a b. a ⊕ b) xi m.del
      pub size : length m.del ≡ length del

    moved-IsDescent :
        (r : Found W V) (m : Minimum W V)
        → Down o r.f_minimum fxi1
        → IsLowered o (on_line calc_forces xi del) (tol calc_forces) r.f_minimum m
        → IsDescent (moved calc_forces xi del m)
    moved-IsDescent r m h l =
        let at = along-moved xi del m.xmin in
        record {
          value = l.minimum.0 ∙ ap (λ v. (calc_forces v).0) at;
          forces = l.minimum.1 ∙ ap (λ v. (calc_forces v).1) at;
          lower = Down-trans o m.f_z r.f_minimum fxi1 l.not_above h;
          step = refl;
          size = length-map del (λ b. b ⊗ m.xmin);
        }

    search-IsDescent :
        (r : Found W V) (old_fret2 : V) (m : Moved W V)
        → IsMinimum (on_line calc_forces xi del) r
        → Down o r.f_minimum fxi1
        → search_bracket calc_forces xi del old_fret2 old r ≡ ok m
        → IsDescent m
    search-IsDescent r old_fret2 m k h e =
        let f = on_line calc_forces xi del in
        let vec : Buffer → V = vectors calc_forces r.f_vec1 old_fret2 old in
        elim (brent f (tol calc_forces) r.x_lower r.x_minimum r.x_upper r.f_minimum vec)
            as (λ b.
              brent f (tol calc_forces) r.x_lower r.x_minimum r.x_upper r.f_minimum vec ≡ b
              → IsDescent m) [
                | exit c ↦ λ eb. cc (rw (eb, search_bracket) at e)
                | ok b ↦ λ eb.
                    let same : moved calc_forces xi del b ≡ m = cc (rw (eb, search_bracket) at e) in
                    rw (← same) (
                      moved-IsDescent r b h (
                        brent-IsLowered o f (tol calc_forces) r.x_lower r.x_minimum r.x_upper
                          r.f_minimum vec b k.minimum eb))
              ]
          refl

    -- On numbers with a commutative product: if `linmin` is called with the value and the force vector of
    -- the start, and returns, then the value and the force vector in `fret1` belong to the parameters that
    -- it leaves, which are the old ones and the step in `del`, the value is at most that of the start, and
    -- `del` keeps its length.
    pub linmin-IsDescent :
        (m : Moved W V)
        → IsAt (on_line calc_forces xi del) zero_double fxi1 fret1
        → linmin calc_forces xi del fxi1 fret1 old ≡ ok m
        → IsDescent m
    unfolding linmin
    linmin-IsDescent m at e =
        let f = on_line calc_forces xi del in
        let bx : W = d.lit 1 10 in
        let vec : Buffer → V = vectors calc_forces fret1 (f bx).1 old in
        elim (bracket f zero_double bx fxi1 (f bx).0 vec)
            as (λ k. bracket f zero_double bx fxi1 (f bx).0 vec ≡ k → IsDescent m) [
              | aborting ↦ λ ek. cc (rw (ek, linmin) at e)
              | out_of_rounds ↦ λ ek. cc (rw (ek, linmin) at e)
              | found r ↦ λ ek.
                  search-IsDescent r (f bx).1 m
                    (bracket-IsMinimum f zero_double bx fxi1 (f bx).0 vec at (refl, refl) r ek)
                    (bracket-Down o f t zero_double bx fxi1 (f bx).0 vec r ek)
                    (rw (ek, linmin) at e)
            ]
          refl
