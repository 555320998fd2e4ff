-- ===== src/Anneal/Moves.antt =====
-- `randomize_parameter` of simann.c, for analytic and for tabulated potentials.
pub mod Kept
pub mod Rounds
use potfit.Base.{
  ℕ, zero, suc, ◌+◌, ◌-◌, Bool, true, false, ◌&&◌, List, [], ◌∷◌, if◌then◌else◌, leb, ltb, get_or,
  set,
}
use potfit.Base.Double.{Double, gt, ge, zero_double, ◌⊕◌, ◌⊖◌, ◌⊗◌, ◌⊘◌}
use potfit.Optimizer.{Problem, World, MathLibrary, cell, at}

-- The parameters and the displacement vector behind a move, and the rest of the random numbers.
pub record Move (W G : Type 0) : Type 0 where
  pub xi : List W
  pub v : List W
  pub g : G

module _ {W G : Type 0} ⦃d : Double W⦄ (world : World W G) (m : MathLibrary W) (p : Problem W) where
  -- The loop over the tries; `temp` is the value of the last one.
  pub draw : ℕ → W → W → W → W → W → G → W × G
  draw zero x width min max temp g = (temp, g)
  draw (suc left) x width min max temp g =
      let (r, g') = world.eqdist g in
      let next = x ⊕ (((d.lit 2 1 ⊗ r) ⊖ d.lit 1 1) ⊗ width) in
      let rest = draw left x width min max next g' in
      if ge next min && d.le next max then (next, g') else rest

  -- `if (v[n] > max - min) v[n] = max - min;`
  pub limited : ℕ → List W → List W
  limited n v =
      let range = at p.pmax n ⊖ at p.pmin n in if gt (at v n) range then set v n range else v

  pub randomize_apot : ℕ → List W → List W → G → Move W G
  unfolding draw limited
  randomize_apot n xi v g =
      let v' = limited n v in
      let (temp, g') =
        draw 10 (at xi (cell p n)) (at v' n) (at p.pmin n) (at p.pmax n) zero_double g in
      record { xi = set xi (cell p n) temp; v = v'; g = g' }

  -- `GAUSS` with ONE_OVER_SQRT_2_PI
  abbrev gauss : W → W
  gauss a = d.lit 39894228040143267794 100000000000000000000 ⊗ m.exp (d.neg (a ⊗ a) ⊘ d.lit 2 1)

  -- `while (last[pot_index] < idx[n]) pot_index++;`
  pub find_pot : List ℕ → ℕ → ℕ
  find_pot [] i = 0
  find_pot (l ∷ last) i = if ltb l i then suc (find_pot last i) else 0

  -- `xi[i] += x;`
  abbrev pub raise : List W → ℕ → W → List W
  raise xi i x = set xi i (at xi i ⊕ x)

  -- The body of the loop over `i`: the neighbours to the right and to the left.
  pub right : ℕ → ℕ → ℕ → W → List W → List W
  right n pot i x xi =
      if leb (n + i) p.ndim && leb (cell p (n + i)) (get_or p.last pot 0)
      then raise xi (cell p (n + i)) x
      else xi

  pub left : ℕ → ℕ → ℕ → W → List W → List W
  left n pot i x xi =
      if leb i n && leb (get_or p.first pot 0) (cell p (n - i))
      then raise xi (cell p (n - i)) x
      else xi

  -- The loop from `i` on, for at most `fuel` rounds.
  pub spread : ℕ → ℕ → ℕ → ℕ → W → W → List W → List W
  unfolding right left
  spread zero i n pot width height xi = xi
  spread (suc fuel) i n pot width height xi =
      let x = gauss (d.lit i 1 ⊘ width) ⊗ height in
      let rest = spread fuel (suc i) n pot width height (left n pot i x (right n pot i x xi)) in
      if d.le (d.lit i 1) (d.lit 4 1 ⊗ width) then rest else xi

  pub randomize_tab : ℕ → List W → List W → G → Move W G
  unfolding spread find_pot
  randomize_tab n xi v g =
      let (w, g1) = world.normdist g in
      let (h, g2) = world.normdist g1 in
      let pot = find_pot p.last (cell p n) in
      record { xi = spread (p.ndim + n + 1) 0 n pot (d.fabs w) (h ⊗ at v n) xi; v = v; g = g2 }

  unfoldable pub randomize_parameter : ℕ → List W → List W → G → Move W G
  unfolding randomize_apot randomize_tab
  randomize_parameter n xi v g = if p.apot then randomize_apot n xi v g else randomize_tab n xi v g
