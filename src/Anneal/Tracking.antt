-- ===== src/Anneal/Tracking.antt =====
-- The annealing keeps the best parameters that it accepted on a way down, and changes free parameters
-- only.
use potfit.Base.{ℕ, ◌≡◌, List}
use potfit.Base.Double.{Double}
use potfit.Base.Order.{IsTransitive, Down}
use potfit.Optimizer.{Problem, World, MathLibrary}
use potfit.Anneal.Moves.{Move, randomize_parameter}
use potfit.Anneal.Moves.Kept.{IsKept}
use potfit.Anneal.{State}

module _ {W G : Type 0} ⦃d : Double W⦄ (o : IsTransitive d) (world : World W G) (m : MathLibrary W)
    (p : Problem W) (calc_forces : List W → W) (xi₀ : List W) where
  -- The parameters `xi` with their value `f`, and the best ones with theirs.
  record Values (xi : List W) (f : W) (xi_opt : List W) (f_opt : W) : Type 0 where
    value : f ≡ calc_forces xi
    best : f_opt ≡ calc_forces xi_opt
    lower : Down o f_opt (calc_forces xi₀)
    kept : IsKept p xi₀ xi
    kept_opt : IsKept p xi₀ xi_opt

  abbrev IsTracked : State W G → Type 0
  IsTracked s = Values s.xi s.f s.xi_opt s.f_opt

  abbrev try_at : ℕ → State W G → Move W G
  try_at h s = randomize_parameter world m p h s.xi s.v s.g

  -- What the annealing promises of the parameters that it hands back.
  pub record IsAnnealed (xi : List W) : Type 0 where
    pub lower : Down o (calc_forces xi) (calc_forces xi₀)
    pub kept : IsKept p xi₀ xi
