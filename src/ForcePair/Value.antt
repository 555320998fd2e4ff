-- ===== src/ForcePair/Value.antt =====
-- `calc_forces` returns, and on the half lists of `init_neighbors` its value is the weighted sum of
-- squares of the force vector that it leaves behind.
use potfit.Base.{
  ℕ, zero, suc, ◌+◌, ◌*◌, ◌≤◌, ◌<◌, ◌≡◌, refl, sym, Bool, true, false, List, [], ◌∷◌, get_or,
  length, All, if◌then◌else◌, ok, ◌>>=◌, arith,
}
use mathlib.Core.Path.{subst}
use potfit.Base.Double.{Double, zero_double}
use potfit.Base.Loop.{for_below}
use potfit.PotentialHeader.{
  Format, analytic, tabulated_eq_dist, tabulated_non_eq_dist, kim, unknown,
}
use potfit.Splines.{PotTable}
use potfit.Config.{Neighbor}
use potfit.Config.Neighbors.Ahead.{Between, Ahead, HasLists, init_neighbors-Ahead}
use potfit.ForcePair.{System, State, config_round, calc_forces, update_column, update_splines}
use potfit.ForcePair.Cells.{IsAhead}
use potfit.ForcePair.Terms.{IsLaid, total}
use potfit.ForcePair.Total.{rounds-total}

-- The formats with a table.
abbrev pub has_table : Format → Bool
has_table analytic = true
has_table tabulated_eq_dist = true
has_table tabulated_non_eq_dist = true
has_table kim = false
has_table unknown = false

module _ {W : Type 0} ⦃d : Double W⦄ where
  update_column_ok :
      (format : Format) (xi : ℕ → W) (col : ℕ) (pt : PotTable W)
      → has_table format ≡ true
      → (pt' : PotTable W) × (update_column format xi col pt ≡ ok pt')
  unfolding update_column
  update_column_ok analytic xi col pt h = (_, refl)
  update_column_ok tabulated_eq_dist xi col pt h = (_, refl)
  update_column_ok tabulated_non_eq_dist xi col pt h = (_, refl)
  update_column_ok kim xi col pt h = cc
  update_column_ok unknown xi col pt h = cc

  update_splines_ok :
      (format : Format) (xi : ℕ → W) (start_col num_col : ℕ) (pt : PotTable W)
      → has_table format ≡ true
      → (pt' : PotTable W) × (update_splines format xi start_col num_col pt ≡ ok pt')
  unfolding update_splines
  update_splines_ok format xi start_col zero pt h = (pt, refl)
  update_splines_ok format xi start_col (suc left) pt h =
      let (pt', e) = update_column_ok format xi start_col pt h in
      let (pt'', e') = update_splines_ok format xi (start_col + 1) left pt' h in (pt'', rw e e')

  -- The sweep over the columns, and the rounds on what it leaves.
  settled :
      (isnan : W → Bool) (s : System W) (format : Format) (paircol : ℕ) (pt : PotTable W)
      (xi forces : ℕ → W)
      → IsLaid s
      → has_table format ≡ true
      → let start : State W = record { forces = forces; error_sum = zero_double } in
        (f : ℕ → W) × ((update_splines format xi 0 paircol pt >>= (λ pt'.
            let t = for_below s.nconf (config_round s pt' xi) start in
            let result : W × (ℕ → W) =
              (if isnan t.error_sum then d.lit 100000000000 1 else t.error_sum, t.forces) in
            ok result))
          ≡ ok (if isnan (total s f) then d.lit 100000000000 1 else total s f, f))
  settled isnan s format paircol pt xi forces laid h =
      let (pt', e) = update_splines_ok format xi 0 paircol pt h in
      let start : State W = record { forces = forces; error_sum = zero_double } in
      (
        (for_below s.nconf (config_round s pt' xi) start).forces,
        rw (e, ← rounds-total s pt' xi laid start refl) refl,
      )

  Ahead-at :
      (start high a : ℕ) (lists : List (List (Neighbor W)))
      → Ahead start high lists
      → All (Between (start + a) high) (get_or lists a [])
  Ahead-at start high a [] h = tt
  Ahead-at start high zero (l ∷ lists) (h, hs) =
      let same : start ≡ start + 0 = omega arith in subst (λ (k : ℕ). All (Between k high) l) same h
  Ahead-at start high (suc a) (l ∷ lists) (h, hs) =
      let same : suc start + a ≡ start + suc a = omega arith in
      subst (λ (k : ℕ). All (Between k high) (get_or lists a [])) same
        (Ahead-at (suc start) high a lists hs)

  HasLists-IsAhead :
      (s : System W) (conf : ℕ)
      → HasLists (s.cnfstart conf) (s.inconf conf) (λ a. (s.atoms a).neigh)
      → IsAhead s conf
  HasLists-IsAhead s conf h a la =
      let start = s.cnfstart conf in
      let ahead =
        init_neighbors-Ahead h.geometry start h.sites h.mindist h.low h.lists h.half h.numbered
          h.made in
      let there = Ahead-at start (start + length h.sites) a h.lists ahead in
      let high : start + length h.sites ≡ start + s.inconf conf = omega (arith, h.counted) in
      subst (λ (ns : List (Neighbor W)). All (Between (start + a) (start + s.inconf conf)) ns)
        (sym (h.stored a la))
        (subst (λ (k : ℕ). All (Between (start + a) k) (get_or h.lists a [])) high there)

  -- The configurations lie one behind the other in front of the energies, and these in front of the
  -- stresses.
  pub record IsSetUp (s : System W) : Type 0 where
    pub behind : (i j : ℕ) → i < j → j < s.nconf → s.cnfstart i + s.inconf i ≤ s.cnfstart j
    pub inside : (i : ℕ) → i < s.nconf → 3 * (s.cnfstart i + s.inconf i) ≤ s.energy_p
    pub stresses : s.stress ≡ true → s.energy_p + s.nconf ≤ s.stress_p
    pub lists :
        (i : ℕ) → i < s.nconf → HasLists (s.cnfstart i) (s.inconf i) (λ a. (s.atoms a).neigh)

  IsSetUp-IsLaid : (s : System W) → IsSetUp s → IsLaid s
  IsSetUp-IsLaid s h = record {
    behind = h.behind;
    inside = h.inside;
    stresses = h.stresses;
    ahead = λ i lt. HasLists-IsAhead s i (h.lists i lt);
  }

  -- If the atoms of the configurations lie one behind the other in front of the energies, these in front
  -- of the stresses, and the neighbor lists are half lists that `init_neighbors` made: with a format that
  -- has a table, `calc_forces` returns, and its value is the weighted sum of squares of the force vector
  -- that it leaves behind, or 10e10 where that is NaN.
  pub calc_forces-total :
      (isnan : W → Bool) (s : System W) (format : Format) (paircol : ℕ) (pt : PotTable W)
      (calc_table xi_opt forces : ℕ → W)
      → has_table format ≡ true
      → IsSetUp s
      → (f : ℕ → W) × (calc_forces isnan s format paircol pt calc_table xi_opt forces
          ≡ ok (if isnan (total s f) then d.lit 100000000000 1 else total s f, f))
  unfolding calc_forces
  calc_forces-total isnan s analytic paircol pt calc_table xi_opt forces h setup =
      settled isnan s analytic paircol pt calc_table forces (IsSetUp-IsLaid s setup) h
  calc_forces-total isnan s tabulated_eq_dist paircol pt calc_table xi_opt forces h setup =
      settled isnan s tabulated_eq_dist paircol pt xi_opt forces (IsSetUp-IsLaid s setup) h
  calc_forces-total isnan s tabulated_non_eq_dist paircol pt calc_table xi_opt forces h setup =
      settled isnan s tabulated_non_eq_dist paircol pt xi_opt forces (IsSetUp-IsLaid s setup) h
  calc_forces-total isnan s kim paircol pt calc_table xi_opt forces h setup = cc
  calc_forces-total isnan s unknown paircol pt calc_table xi_opt forces h setup = cc
