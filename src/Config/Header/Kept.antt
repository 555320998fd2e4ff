-- ===== src/Config/Header/Kept.antt =====
-- What the header of a configuration leaves as it is.
use Prim.Native.String.{String}
use potfit.Base.{
  ℕ, zero, suc, ◌<◌, ◌≡◌, refl, ◌∙◌, Bool, true, false, ◌&&◌, Option, none, some, Outcome, ok, exit,
  ◌>>=◌, through, passed, arith, fetched, if◌then◌else◌,
}
use potfit.Base.Double.{Double, zero_double}
use potfit.PotentialHeader.{behind, cut_line}
use potfit.Config.Names.{read_chemical_elements}
use potfit.Config.Header.{
  Failure, corrupt_energy, corrupt_weight, corrupt_stress, negative_weight, incomplete_header, lift,
  Reader, Source, is_letter, read_box_vector, read_weight, read_item, read_header,
}

module _ {W : Type 0} where
  -- The counts and the atoms so far are as they were.
  abbrev pub Keeps : (r r' : Reader W) → Type 0
  Keeps r r' =
      (r'.natoms ≡ r.natoms)
      × (r'.nconf ≡ r.nconf)
      × (r'.inconf ≡ r.inconf)
      × (r'.cnfstart ≡ r.cnfstart)
      × ((a : ℕ) → a < r.natoms → r'.atoms a ≡ r.atoms a)

  pub Keeps-refl : (r : Reader W) → Keeps r r
  Keeps-refl r = (refl, refl, refl, refl, λ a h. refl)

  pub Keeps-trans : (r s t : Reader W) → Keeps r s → Keeps s t → Keeps r t
  Keeps-trans r s t (n, m, i, c, h) (n', m', i', c', h') =
      (n' ∙ n, m' ∙ m, i' ∙ i, c' ∙ c, λ a lt. h' a (omega (arith, n)) ∙ h a lt)

  abbrev Holds : Reader W → Outcome Failure (Reader W) → Type 0
  Holds r m = (r' : Reader W) → m ≡ ok r' → Keeps r r'

  pick :
      (r : Reader W) (b : Bool) {x y : Outcome Failure (Reader W)}
      → Holds r x
      → Holds r y
      → Holds r (if b then x else y)
  pick r true h k = h
  pick r false h k = k

  then_ok :
      (r : Reader W) {A : Type 0} (m : Outcome Failure A) (g : A → Reader W)
      → ((a : A) → Keeps r (g a))
      → Holds r (m >>= (λ a. ok (g a)))
  then_ok r m g h r' e =
      let (a, _, e') = through m (λ a. ok (g a)) r' e in
      let same : g a ≡ r' = cc in rw (← same) (h a)

  ok_keeps : (r s : Reader W) → Keeps r s → Holds r (ok s)
  ok_keeps r s h r' e = let same : s ≡ r' = cc in rw (← same) h

  scanned :
      (r : Reader W) {A : Type 0} (o : Option A) (reason : Failure)
      (g : A → Outcome Failure (Reader W))
      → ((a : A) → Holds r (g a))
      → Holds r (elim o [ none ↦ exit reason | some a ↦ g a ])
  scanned r none reason g h r' e = cc
  scanned r (some a) reason g h r' e = h a r' e

module _ {F W : Type 0} ⦃d : Double W⦄ (c : Source F W) where
  read_weight-Holds : (rest : String) (r : Reader W) → Holds r (read_weight c rest r)
  read_weight-Holds rest r = scanned r (c.scan_one rest) corrupt_weight _ (λ w r' e.
      let (_, e') = passed (d.lt w zero_double) negative_weight e in
      ok_keeps r _ (Keeps-refl r) r' e')

  read_item-Holds : (line : String) (r : Reader W) → Holds r (read_item c line r)
  unfolding read_item
  read_item-Holds line r =
      let rest = behind 3 line in
      let vector = read_box_vector c rest in
      pick r (is_letter c line "x" "X") (then_ok r vector _ (λ v. Keeps-refl r)) (
        pick r (is_letter c line "y" "Y") (then_ok r vector _ (λ v. Keeps-refl r)) (
          pick r (is_letter c line "z" "Z") (then_ok r vector _ (λ v. Keeps-refl r)) (
            pick r (is_letter c line "e" "E")
              (scanned r (c.scan_one rest) corrupt_energy _ (λ w. ok_keeps r _ (Keeps-refl r)))
              (pick r (is_letter c line "w" "W") (read_weight-Holds rest r) (
                pick r (is_letter c line "c" "C")
                  (then_ok r
                    (lift Failure.names
                      (read_chemical_elements c.strtok c.atoi c.ntypes rest r.names))
                    _ (λ s. Keeps-refl r))
                  (pick r (c.build.stress && is_letter c line "s" "S")
                    (scanned r (c.scan_tensor rest) corrupt_stress _
                      (λ t. ok_keeps r _ (Keeps-refl r)))
                    (ok_keeps r r (Keeps-refl r))))))))

  pub read_header-Keeps :
      (n : ℕ) (f f' : F) (r r' : Reader W) → read_header c n f r ≡ ok (f', r') → Keeps r r'
  unfolding read_header
  read_header-Keeps zero f f' r r' e = cc
  read_header-Keeps (suc n) f f' r r' e =
      let (got, _, e0) = fetched (c.fgets f) incomplete_header _ (f', r') e in
      let line = cut_line got.0 in
      let (_, e1) = passed (c.feof got.1) incomplete_header e0 in
      let (s, e2, e3) = through (read_item c line r) _ (f', r') e1 in
      let first = read_item-Holds line r s e2 in
      elim (is_letter c line "F" "F")
          as (λ last.
            (elim last [ true ↦ ok (got.1, s) | false ↦ read_header c n got.1 s ]) ≡ ok (f', r')
            → Keeps r r') [
              | true ↦ λ e4. let same : s ≡ r' = cc in rw (← same) first
              | false ↦ λ e4. Keeps-trans r s r' first (read_header-Keeps n got.1 f' s r' e4)
            ]
        e3
