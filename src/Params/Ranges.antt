-- ===== src/Params/Ranges.antt =====
-- What the reader makes sure of: the values of each keyword are in bounds, comments do not matter,
-- and a file that is accepted is complete.
use Prim.Native.String.{String}
use potfit.Base.{
  ℕ, zero, suc, ◌≡◌, refl, Bool, true, false, List, [], ◌++◌, Option, none, some, if◌then◌else◌,
  All, All-append, ok, through, arith, Option-cases, inl, inr,
}
use potfit.Base.Int.{ℤ, pos, negsuc, ◌≤ℤ◌}
use potfit.Base.Double.{Double}
use potfit.Build.{Build}
use potfit.Params.Settings.{
  Settings, CLibrary, get_param_int, get_param_double, get_param_string, to_int, IsSwitch, IsRead,
}
use potfit.Params.Keywords.{
  Keyword, Action, int, double, string, run, keywords, common_keywords, apot_keywords,
  chempot_keywords, table_keywords, coulomb_keywords, dipole_keywords, evo_keywords,
  anneal_keywords, bindist_keywords, stress_keywords, model_keywords, charge_keywords,
  search_keywords, last_keywords,
}

module _ {W : Type 0} ⦃d : Double W⦄ (c : CLibrary W) where
  -- What `get_param_int` stores is a text of the file, converted to `int`, and within the bounds.
  get_param_int-stored :
      (name : String) (value : Option String) (line : ℕ) (low high v : ℤ)
      → get_param_int c name value line low high ≡ ok v
      → (low ≤ℤ v)
        × (v ≤ℤ high)
        × ((t : String) × (l : ℤ) × (value ≡ some t) × (c.strtol t ≡ some l) × (v ≡ to_int l))
  unfolding get_param_int
  get_param_int-stored name none line low high v e = cc
  get_param_int-stored name (some t) line low high v e = elim (Option-cases (c.strtol t)) [
    | inl none' ↦ ground (arith, none')
    | inr (l, at) ↦ (ground (arith, at), ground (arith, at), (t, l, refl, at, ground (arith, at)))
  ]

  -- The line number only stands in the messages.
  pub run-lineless :
      (a : Action W) (word : String) (value : Option String) (i j : ℕ) (s s' : Settings W)
      → run c a word value i s ≡ ok s'
      → run c a word value j s ≡ ok s'
  unfolding run get_param_int get_param_double
  run-lineless (int low high put) word none i j s s' e = cc
  run-lineless (int low high put) word (some t) i j s s' e = elim (Option-cases (c.strtol t)) [
    | inl at ↦ ground (arith, at)
    | inr (l, at) ↦ ground (arith, at)
  ]
  run-lineless (double low put) word none i j s s' e = cc
  run-lineless (double low put) word (some t) i j s s' e = elim (Option-cases (c.strtod t)) [
    | inl at ↦ ground (arith, at)
    | inr (l, at) ↦ ground (arith, at)
  ]
  run-lineless (string get put) word value i j s s' e = e

  range : (v : ℤ) → pos 0 ≤ℤ v → v ≤ℤ pos 1 → IsSwitch v
  range (pos zero) lo hi = inl refl
  range (pos (suc n)) lo hi = let e : n ≡ 0 = omega arith in inr (rw e refl)
  range (negsuc n) lo hi = absurd (omega arith)

  -- A keyword keeps the settings well-formed, if its value is within its bounds.
  abbrev KeepsAction : Action W → Type 0
  KeepsAction (int low high put) =
      (v : ℤ) (s : Settings W) → low ≤ℤ v → v ≤ℤ high → IsRead s → IsRead (put v s)
  KeepsAction (double low put) = (v : W) (s : Settings W) → IsRead s → IsRead (put v s)
  KeepsAction (string get put) = (v : Option String) (s : Settings W) → IsRead s → IsRead (put v s)

  abbrev pub Keeps : Keyword W → Type 0
  Keeps k = KeepsAction k.action

  pub run-IsRead :
      (a : Action W) (word : String) (value : Option String) (i : ℕ) (s s' : Settings W)
      → KeepsAction a
      → run c a word value i s ≡ ok s'
      → IsRead s
      → IsRead s'
  unfolding run
  run-IsRead (int low high put) word value i s s' keeps e w =
      let (v, ev, es) = through (get_param_int c word value i low high) (λ v. ok (put v s)) s' e in
      let (lo, hi, _) = get_param_int-stored word value i low high v ev in
      let same : put v s ≡ s' = cc in rw (← same) (keeps v s lo hi w)
  run-IsRead (double low put) word value i s s' keeps e w =
      let (v, ev, es) =
        through (get_param_double c word value i low c.dbl_max) (λ v. ok (put v s)) s' e in
      let same : put v s ≡ s' = cc in rw (← same) (keeps v s w)
  run-IsRead (string get put) word value i s s' keeps e w =
      let same : put (get_param_string value (get s)) s ≡ s' = cc in
      rw (← same) (keeps (get_param_string value (get s)) s w)

  common_keywords-Keeps : All Keeps (common_keywords c)
  common_keywords-Keeps = (
    λ v s lo hi w. (w.0, w.1, w.2, w.3, w.4, w.5, w.6, w.7, omega arith, w.9),
    (
      λ v s w. w,
      (
        λ v s w. w,
        (
          λ v s w. (w.0, w.1, w.2, inr refl, w.4, w.5, w.6, w.7, w.8, w.9),
          (
            λ v s w. (w.0, w.1, w.2, w.3, inr refl, w.5, w.6, w.7, w.8, w.9),
            (
              λ v s w. (w.0, w.1, w.2, w.3, w.4, inr refl, w.6, w.7, w.8, w.9),
              (
                λ v s w. (w.0, w.1, w.2, w.3, w.4, w.5, inr refl, w.7, w.8, w.9),
                (
                  λ v s lo hi w. (w.0, w.1, w.2, w.3, w.4, w.5, w.6, w.7, w.8, omega arith),
                  (
                    λ v s w. w,
                    (
                      λ v s w. w,
                      (
                        λ v s lo hi w. (range v lo hi, w.1, w.2, w.3, w.4, w.5, w.6, w.7, w.8, w.9),
                        (
                          λ v s w. w,
                          (
                            λ v s lo hi w.
                                (w.0, range v lo hi, w.2, w.3, w.4, w.5, w.6, w.7, w.8, w.9),
                            (
                              λ v s w. w,
                              (
                                λ v s w. w,
                                (
                                  λ v s lo hi w. w,
                                  (
                                    λ v s w. w,
                                    (
                                      λ v s w. w,
                                      (
                                        λ v s lo hi w. (
                                          w.0,
                                          w.1,
                                          range v lo hi,
                                          w.3,
                                          w.4,
                                          w.5,
                                          w.6,
                                          w.7,
                                          w.8,
                                          w.9,
                                        ),
                                        (λ v s w. w, tt),
                                      ),
                                    ),
                                  ),
                                ),
                              ),
                            ),
                          ),
                        ),
                      ),
                    ),
                  ),
                ),
              ),
            ),
          ),
        ),
      ),
    ),
  )

  apot_keywords-Keeps : All Keeps (apot_keywords c)
  apot_keywords-Keeps = (λ v s w. w, (λ v s w. w, tt))

  chempot_keywords-Keeps : All Keeps (chempot_keywords c)
  chempot_keywords-Keeps = (λ v s lo hi w. w, tt)

  table_keywords-Keeps : All Keeps (table_keywords c)
  table_keywords-Keeps = (λ v s w. (w.0, w.1, w.2, w.3, w.4, w.5, w.6, inr refl, w.8, w.9), tt)

  coulomb_keywords-Keeps : All Keeps (coulomb_keywords c)
  coulomb_keywords-Keeps = (λ v s w. w, tt)

  dipole_keywords-Keeps : All Keeps (dipole_keywords c)
  dipole_keywords-Keeps = (λ v s w. w, (λ v s w. w, tt))

  evo_keywords-Keeps : All Keeps (evo_keywords c)
  evo_keywords-Keeps = (λ v s w. w, tt)

  anneal_keywords-Keeps : All Keeps (anneal_keywords c)
  anneal_keywords-Keeps = (λ v s w. w, tt)

  bindist_keywords-Keeps : All Keeps (bindist_keywords c)
  bindist_keywords-Keeps = (λ v s w. w, tt)

  stress_keywords-Keeps : All Keeps (stress_keywords c)
  stress_keywords-Keeps = (λ v s w. w, tt)

  if-All :
      (P : Keyword W → Type 0) (t : Bool) (xs ys : List (Keyword W))
      → All P xs
      → All P ys
      → All P (if t then xs else ys)
  if-All P true xs ys h k = h
  if-All P false xs ys h k = k

  none-Keeps : All Keeps []
  none-Keeps = tt

  last_keywords-Keeps : (b : Build) → All Keeps (last_keywords c b)
  last_keywords-Keeps b =
      All-append Keeps (if b.bindist then bindist_keywords c else [])
        (if b.stress then stress_keywords c else [])
        (if-All Keeps b.bindist (bindist_keywords c) [] bindist_keywords-Keeps none-Keeps)
        (if-All Keeps b.stress (stress_keywords c) [] stress_keywords-Keeps none-Keeps)

  charge_keywords-Keeps : (b : Build) → All Keeps (charge_keywords c b)
  charge_keywords-Keeps b =
      All-append Keeps (if b.coulomb then coulomb_keywords c else [])
        (if b.dipole then dipole_keywords c else [])
        (if-All Keeps b.coulomb (coulomb_keywords c) [] coulomb_keywords-Keeps none-Keeps)
        (if-All Keeps b.dipole (dipole_keywords c) [] dipole_keywords-Keeps none-Keeps)

  model_keywords-Keeps : (b : Build) → All Keeps (model_keywords c b)
  model_keywords-Keeps b =
      if-All Keeps b.apot (apot_keywords c ++ (if b.pair then chempot_keywords c else []))
        (table_keywords c)
        (All-append Keeps (apot_keywords c) (if b.pair then chempot_keywords c else [])
          apot_keywords-Keeps
          (if-All Keeps b.pair (chempot_keywords c) [] chempot_keywords-Keeps none-Keeps))
        table_keywords-Keeps

  pub keywords-Keeps : (b : Build) → All Keeps (keywords c b)
  unfolding keywords
  keywords-Keeps b =
      All-append Keeps (common_keywords c)
        (model_keywords c b ++ (charge_keywords c b ++ (search_keywords c b ++ last_keywords c b)))
        common_keywords-Keeps
        (All-append Keeps (model_keywords c b)
          (charge_keywords c b ++ (search_keywords c b ++ last_keywords c b))
          (model_keywords-Keeps b)
          (All-append Keeps (charge_keywords c b) (search_keywords c b ++ last_keywords c b)
            (charge_keywords-Keeps b)
            (All-append Keeps (search_keywords c b) (last_keywords c b)
              (if-All Keeps b.evo (evo_keywords c) (anneal_keywords c) evo_keywords-Keeps
                anneal_keywords-Keeps)
              (last_keywords-Keeps b))))
