-- ===== src/Params/Complete.antt =====
-- What the reader as a whole makes sure of: comments do not matter, and a file that is accepted is
-- complete.
use Prim.Native.String.{String}
use text.Mathlib.Text.{starts_with}
use potfit.Base.{
  ℕ, zero, suc, ◌+◌, ◌≡◌, refl, Bool, true, false, not, ◌&&◌, List, [], ◌∷◌, Option, none, some,
  ◌↔◌, All, ok, through, passed, arith, Bool-cases, inl, inr,
}
use potfit.Base.Int.{ℤ, eq_ℤ, pos, negsuc, ltb_ℤ, ◌≤ℤ◌}
use potfit.Base.Double.{Double, zero_double}
use potfit.Build.{Build}
use potfit.Params.Settings.{Settings, incomplete, CLibrary, IsRead, IsSwitch}
use potfit.Params.Keywords.{Keyword, keywords}
use potfit.Params.Reading.{dispatch, process_line, read_lines, second, skipped, significant}
use potfit.Params.Check.{
  check_parameters_complete, is_null, completed, default_endpot, default_anneal_temp,
  read_parameters, initial,
}
use potfit.Params.Ranges.{run-lineless, run-IsRead, Keeps, keywords-Keeps}

module _ {W : Type 0} ⦃d : Double W⦄ (c : CLibrary W) (b : Build) where
  dispatch-lineless :
      (ks : List (Keyword W)) (token : String) (value : Option String) (i j : ℕ) (s s' : Settings W)
      → dispatch c b ks token value i s ≡ ok s'
      → dispatch c b ks token value j s ≡ ok s'
  unfolding dispatch
  dispatch-lineless [] token value i j s s' e = e
  dispatch-lineless (k ∷ ks) token value i j s s' e = ground (
    arith,
    run-lineless c k.action k.word value i j s s',
    dispatch-lineless ks token value i j s s',
  )

  dispatch-IsRead :
      (ks : List (Keyword W)) (token : String) (value : Option String) (i : ℕ) (s s' : Settings W)
      → All (Keeps c) ks
      → dispatch c b ks token value i s ≡ ok s'
      → IsRead s
      → IsRead s'
  unfolding dispatch
  dispatch-IsRead [] token value i s s' keeps e w = let same : s ≡ s' = cc in rw (← same) w
  dispatch-IsRead (k ∷ ks) token value i s s' keeps e w =
      elim (Bool-cases (c.strcasecmp token k.word)) [
        | inl t ↦ run-IsRead c k.action k.word value i s s' keeps.0 (rw (t, dispatch) at e) w
        | inr f ↦ dispatch-IsRead ks token value i s s' keeps.1 (rw (f, dispatch) at e) w
      ]

  process_line-lineless :
      (ws : List String) (i j : ℕ) (s s' : Settings W)
      → process_line c b ws i s ≡ ok s'
      → process_line c b ws j s ≡ ok s'
  unfolding process_line
  process_line-lineless [] i j s s' e = e
  process_line-lineless (t ∷ ws) i j s s' e = elim (Bool-cases (starts_with t "#")) [
    | inl h ↦ rw (h, process_line) (rw (h, process_line) at e)
    | inr h ↦
        rw (h, process_line)
          (dispatch-lineless (keywords c b) t (second ws) i j s s' (rw (h, process_line) at e))
  ]

  process_line-IsRead :
      (ws : List String) (i : ℕ) (s s' : Settings W)
      → process_line c b ws i s ≡ ok s'
      → IsRead s
      → IsRead s'
  unfolding process_line
  process_line-IsRead [] i s s' e w = let same : s ≡ s' = cc in rw (← same) w
  process_line-IsRead (t ∷ ws) i s s' e w = elim (Bool-cases (starts_with t "#")) [
    | inl h ↦ let same : s ≡ s' = cc (rw (h, process_line) at e) in rw (← same) w
    | inr h ↦
        dispatch-IsRead (keywords c b) t (second ws) i s s' (keywords-Keeps c b)
          (rw (h, process_line) at e) w
  ]

  read_lines-IsRead :
      (n : ℕ) (ls : List String) (s s' : Settings W)
      → read_lines c b n ls s ≡ ok s'
      → IsRead s
      → IsRead s'
  unfolding read_lines
  read_lines-IsRead n [] s s' e w = let same : s ≡ s' = cc in rw (← same) w
  read_lines-IsRead n (l ∷ ls) s s' e w =
      let (t, et, rest) =
        through (process_line c b (c.strtok l) (n + 1) s) (read_lines c b (n + 1) ls) s' e in
      read_lines-IsRead (n + 1) ls t s' rest (process_line-IsRead (c.strtok l) (n + 1) s t et w)

  process_line-skipped :
      (ws : List String) (i : ℕ) (s : Settings W)
      → skipped ws ≡ true
      → process_line c b ws i s ≡ ok s
  unfolding process_line
  process_line-skipped [] i s h = refl
  process_line-skipped (t ∷ ws) i s h = rw (h, process_line) refl

  -- Reading lines from a list, and reading only those that are neither blank nor comments, give the
  -- same settings whatever the line numbers, if either succeeds.
  pub read_lines-significant :
      (i j : ℕ) (ls : List String) (s s' : Settings W)
      → (read_lines c b i ls s ≡ ok s') ↔ (read_lines c b j (significant c b ls) s ≡ ok s')
  unfolding read_lines
  read_lines-significant i j [] s s' = (λ e. e, λ e. e)
  read_lines-significant i j (l ∷ ls) s s' = elim (Bool-cases (skipped (c.strtok l))) [
    | inl h ↦
        let same = process_line-skipped (c.strtok l) (i + 1) s h in
        rw (h, same) (read_lines-significant (i + 1) j ls s s')
    | inr h ↦ rw h (
      λ e.
          let (t, et, rest) =
            through (process_line c b (c.strtok l) (i + 1) s) (read_lines c b (i + 1) ls) s' e in
          rw (process_line-lineless (c.strtok l) (i + 1) (j + 1) s t et)
            ((read_lines-significant (i + 1) (j + 1) ls t s').0 rest),
      λ e.
          let (t, et, rest) =
            through (process_line c b (c.strtok l) (j + 1) s)
              (read_lines c b (j + 1) (significant c b ls)) s' e in
          rw (process_line-lineless (c.strtok l) (j + 1) (i + 1) s t et)
            ((read_lines-significant (i + 1) (j + 1) ls t s').1 rest),
    )
  ]

  initial-IsRead : IsRead (initial c b)
  initial-IsRead = (
    inl refl,
    inl refl,
    inl refl,
    inl refl,
    inl refl,
    inl refl,
    inl refl,
    inl refl,
    omega arith,
    omega arith,
  )

  abbrev Given : Option String → Type 0
  Given o = (t : String) × (o ≡ some t)

  -- What the program relies on behind `read_parameters`.
  abbrev pub IsComplete : Settings W → Type 0
  IsComplete s =
      (pos 1 ≤ℤ s.ntypes)
      × Given s.startpot
      × Given s.endpot
      × Given s.config
      × Given s.tempfile
      × (d.lt s.eweight zero_double ≡ false)
      × (d.le s.global_cell_scale zero_double ≡ false)
      × (b.stress ≡ true → d.lt s.sweight zero_double ≡ false)
      × (s.writeimd ≡ pos 1 → pos 1 ≤ℤ s.imdpotsteps)
      × (b.apot ≡ true → b.pair ≡ true → IsSwitch s.enable_cp)
      × (b.evo ≡ false → s.opt ≡ pos 1 → Given s.anneal_temp)
      × (b.bindist ≡ true → Given s.bindistfile)

  Given-of_not-null : (o : Option String) → is_null o ≡ false → Given o
  Given-of_not-null none h = cc
  Given-of_not-null (some t) h = (t, refl)

  endpot-Given : (o p : Option String) → is_null o ≡ false → Given (default_endpot c b o p)
  endpot-Given o (some t) h = (t, refl)
  endpot-Given none none h = cc
  endpot-Given (some t) none h = (c.append t "_end", refl)

  anneal_temp-Given : (o : Option String) → Given (default_anneal_temp c b o (pos 1))
  anneal_temp-Given none = ("0", refl)
  anneal_temp-Given (some t) = (t, refl)

  IsSwitch-of_tests : (z : ℤ) → (not (eq_ℤ z (pos 0)) && not (eq_ℤ z (pos 1))) ≡ false → IsSwitch z
  IsSwitch-of_tests (pos zero) h = inl refl
  IsSwitch-of_tests (pos (suc n)) h = let e : n ≡ 0 = ground arith in inr (rw e refl)
  IsSwitch-of_tests (negsuc n) h = absurd (ground arith)

  without : {x y : Bool} → (x && y) ≡ false → x ≡ true → y ≡ false
  without h t = cc

  check-IsComplete :
      (s s' : Settings W)
      → check_parameters_complete c b s ≡ ok s'
      → IsRead s
      → IsComplete s' × IsRead s'
  unfolding check_parameters_complete
  check-IsComplete s s' e w =
      let (ntypes, e1) = passed (ltb_ℤ s.ntypes (pos 1)) (incomplete "ntypes") e in
      let (startpot, e2) = passed (is_null s.startpot) (incomplete "startpot") e1 in
      let (config, e3) = passed (is_null s.config) (incomplete "config") e2 in
      let (tempfile, e4) = passed (is_null s.tempfile) (incomplete "tempfile") e3 in
      let (eweight, e5) = passed (d.lt s.eweight zero_double) (incomplete "eng_weight") e4 in
      let (sweight, e6) =
        passed (b.stress && d.lt s.sweight zero_double) (incomplete "stress_weight") e5 in
      let (imdpotsteps, e7) =
        passed (not (eq_ℤ s.writeimd (pos 0)) && ltb_ℤ s.imdpotsteps (pos 1))
          (incomplete "imdpotsteps") e6 in
      let (plotmin, e8) = passed (b.apot && d.lt s.plotmin zero_double) (incomplete "plotmin") e7 in
      let (enable_cp, e9) =
        passed
          (b.apot && b.pair && not (eq_ℤ s.enable_cp (pos 0)) && not (eq_ℤ s.enable_cp (pos 1)))
          (incomplete "enable_cp") e8 in
      let (evo_threshold, e10) =
        passed (b.evo && d.lt s.evo_threshold zero_double) (incomplete "evo_threshold") e9 in
      let (bindist, e11) =
        passed (b.bindist && is_null s.bindistfile) (incomplete "bindist_file") e10 in
      let (cell_scale, e12) =
        passed (d.le s.global_cell_scale zero_double) (incomplete "cell_scale") e11 in
      let same : completed c b s ≡ s' = cc in
      rw (← same) (
        (
          ground arith,
          Given-of_not-null s.startpot startpot,
          endpot-Given s.startpot s.endpot startpot,
          Given-of_not-null s.config config,
          Given-of_not-null s.tempfile tempfile,
          eweight,
          cell_scale,
          λ t. without sweight t,
          λ t. ground (arith, t, imdpotsteps),
          λ t t'. IsSwitch-of_tests s.enable_cp (ground (arith, t, t', enable_cp)),
          λ t t'. rw (t, t') (anneal_temp-Given s.anneal_temp),
          λ t. Given-of_not-null s.bindistfile (without bindist t),
        ),
        w,
      )

  -- If the parameters are read without a fatal error: ntypes is at least 1; startpot, endpot, config
  -- and tempfile are given; eng_weight is not below 0, and cell_scale not at most 0; with STRESS,
  -- stress_weight is not below 0; with writeimd set, imdpotsteps is at least 1; with APOT and PAIR,
  -- enable_cp is 0 or 1; without EVO and with opt set, anneal_temp is given; with BINDIST,
  -- bindist_file is given; the eight switches are 0 or 1, and imdpotsteps is not negative.
  pub read_parameters-IsComplete :
      (lines : List String) (s : Settings W)
      → read_parameters c b lines ≡ ok s
      → IsComplete s × IsRead s
  unfolding read_parameters
  read_parameters-IsComplete lines s e =
      let (t, et, rest) =
        through (read_lines c b 0 lines (initial c b)) (check_parameters_complete c b) s e in
      check-IsComplete t s rest (read_lines-IsRead 0 lines (initial c b) t et initial-IsRead)
