-- ===== src/Config/Header/Ends.antt =====
-- What the loop over the lines of a header leaves of the file.
use Prim.Native.String.{String}
use potfit.Base.{
  ℕ, zero, suc, ◌≤◌, ◌<◌, ◌≡◌, ◌≢◌, refl, Bool, true, false, ◌&&◌, Option, none, some, Outcome, ok,
  exit, ◌>>=◌, ◌>>◌, exit_if, arith, if◌then◌else◌,
}
use potfit.Base.Int.{ℤ}
use potfit.Base.Double.{Double, zero_double}
use potfit.PotentialHeader.{behind, cut_line}
use potfit.Config.{Vector}
use potfit.Config.Names.{read_chemical_elements}
use potfit.Config.Header.{
  Failure, out_of_rounds, corrupt_vector, corrupt_energy, corrupt_weight, corrupt_stress,
  negative_weight, incomplete_header, lift, Reader, Source, is_letter, read_box_vector, read_item,
  read_header,
}

-- The rounds did not run out.
abbrev pub Returns {ℓ} : {A : Type ℓ} → Outcome Failure A → Type 0
Returns m = elim m [ exit reason ↦ reason ≢ out_of_rounds | ok a ↦ Unit ]

pub Returns-bind :
    {A B : Type 0} (m : Outcome Failure A) (rest : A → Outcome Failure B)
    → Returns m
    → ((a : A) → Returns (rest a))
    → Returns (m >>= rest)
Returns-bind (exit reason) rest h k = h
Returns-bind (ok a) rest h k = k a

pub Returns-lift :
    {E A : Type 0} (f : E → Failure) (m : Outcome E A)
    → ((reason : E) → f reason ≢ out_of_rounds)
    → Returns (lift f m)
Returns-lift f (exit reason) h = h reason
Returns-lift f (ok a) h = tt

pick :
    {A : Type 0} (b : Bool) (x y : Outcome Failure A)
    → Returns x
    → Returns y
    → Returns (if b then x else y)
pick true x y h k = h
pick false x y h k = k

scanned :
    {A B : Type 0} (o : Option A) (reason : Failure) (g : A → Outcome Failure B)
    → reason ≢ out_of_rounds
    → ((a : A) → Returns (g a))
    → Returns (elim o [ none ↦ exit reason | some a ↦ g a ])
scanned none reason g h k = h
scanned (some a) reason g h k = k a

pub Returns-check :
    {A : Type 0} (bad : Bool) (reason : Failure) (rest : Outcome Failure A)
    → reason ≢ out_of_rounds
    → Returns rest
    → Returns (exit_if bad reason >> rest)
Returns-check true reason rest h k = h
Returns-check false reason rest h k = k

-- The rounds did not run out, and at most `most` is left of the file.
abbrev pub Leaves : {F A : Type 0} → (F → ℕ) → ℕ → Outcome Failure (F × A) → Type 0
Leaves left most m = elim m [ exit reason ↦ reason ≢ out_of_rounds | ok s ↦ left s.0 ≤ most ]

module _ {F A : Type 0} (left : F → ℕ) (most : ℕ) where
  pub Leaves-bind :
      {B : Type 0} (m : Outcome Failure B) (rest : B → Outcome Failure (F × A))
      → Returns m
      → ((b : B) → Leaves left most (rest b))
      → Leaves left most (m >>= rest)
  Leaves-bind (exit reason) rest h k = h
  Leaves-bind (ok b) rest h k = k b

  pub Leaves-after :
      {B : Type 0} (m : Outcome Failure (F × B)) (rest : F × B → Outcome Failure (F × A))
      → Leaves left most m
      → ((s : F × B) → left s.0 ≤ most → Leaves left most (rest s))
      → Leaves left most (m >>= rest)
  Leaves-after (exit reason) rest h k = h
  Leaves-after (ok s) rest h k = k s h

  pub Leaves-check :
      (bad : Bool) (reason : Failure) (rest : Outcome Failure (F × A))
      → reason ≢ out_of_rounds
      → Leaves left most rest
      → Leaves left most (exit_if bad reason >> rest)
  Leaves-check true reason rest h k = h
  Leaves-check false reason rest h k = k

  pub Leaves-le :
      (less : ℕ) (m : Outcome Failure (F × A))
      → less ≤ most
      → Leaves left less m
      → Leaves left most m
  Leaves-le less (exit reason) h k = k
  Leaves-le less (ok s) h k = omega arith

  pub Leaves-pick :
      (b : Bool) (x y : Outcome Failure (F × A))
      → Leaves left most x
      → Leaves left most y
      → Leaves left most (elim b [ true ↦ x | false ↦ y ])
  Leaves-pick true x y h k = h
  Leaves-pick false x y h k = k

  pub Leaves-fetch :
      {B : Type 0} (o : Option B) (reason : Failure) (g : B → Outcome Failure (F × A))
      → reason ≢ out_of_rounds
      → ((b : B) → o ≡ some b → Leaves left most (g b))
      → Leaves left most (elim o [ none ↦ exit reason | some b ↦ g b ])
  Leaves-fetch none reason g h k = h
  Leaves-fetch (some b) reason g h k = k b refl

module _ {F W : Type 0} ⦃d : Double W⦄ (c : Source F W) where
  -- `fgets` takes something from the file, and `fscanf` puts nothing back.
  pub record IsFile (left : F → ℕ) : Type 0 where
    pub fgets-takes : (f f' : F) (line : String) → c.fgets f ≡ some (line, f') → left f' < left f
    pub scan_atom-takes :
        (f f' : F) (x : ℤ × Vector W × Vector W) → c.scan_atom f ≡ some (x, f') → left f' ≤ left f

  vector-Returns : (rest : String) → Returns (read_box_vector c rest)
  unfolding read_box_vector
  vector-Returns rest = scanned (c.scan_vector rest) corrupt_vector _ (λ e. cc) (λ v. tt)

  read_item-Returns : (line : String) (r : Reader W) → Returns (read_item c line r)
  unfolding read_item
  read_item-Returns line r =
      let rest = behind 3 line in
      let vector = read_box_vector c rest in
      pick (is_letter c line "x" "X") _ _ (Returns-bind vector _ (vector-Returns rest) (λ v. tt)) (
        pick (is_letter c line "y" "Y") _ _ (Returns-bind vector _ (vector-Returns rest) (λ v. tt))
          (pick (is_letter c line "z" "Z") _ _
            (Returns-bind vector _ (vector-Returns rest) (λ v. tt))
            (pick (is_letter c line "e" "E") _ _
              (scanned (c.scan_one rest) corrupt_energy _ (λ e. cc) (λ w. tt))
              (pick (is_letter c line "w" "W") _ _
                (scanned (c.scan_one rest) corrupt_weight _ (λ e. cc)
                  (λ w. Returns-check (d.lt w zero_double) negative_weight _ (λ e. cc) tt))
                (pick (is_letter c line "c" "C") _ _
                  (Returns-bind
                    (lift Failure.names
                      (read_chemical_elements c.strtok c.atoi c.ntypes rest r.names))
                    _ (Returns-lift Failure.names _ (λ reason e. cc)) (λ s. tt))
                  (pick (c.build.stress && is_letter c line "s" "S") _ _
                    (scanned (c.scan_tensor rest) corrupt_stress _ (λ e. cc) (λ t. tt)) tt))))))

  pub read_header-Leaves :
      (left : F → ℕ) (n : ℕ) (f : F) (r : Reader W)
      → IsFile left
      → left f < n
      → Leaves left (left f) (read_header c n f r)
  unfolding read_header
  read_header-Leaves left zero f r file h = absurd (omega arith)
  read_header-Leaves left (suc n) f r file h =
      Leaves-fetch left (left f) (c.fgets f) incomplete_header _ (λ e. cc)
        (λ got e.
          let less = file.fgets-takes f got.1 got.0 e in
          let line = cut_line got.0 in
          Leaves-check left (left f) (c.feof got.1) incomplete_header _ (λ e. cc)
            (Leaves-bind left (left f) (read_item c line r) _ (read_item-Returns line r) (λ s.
              Leaves-pick left (left f) (is_letter c line "F" "F") (ok (got.1, s))
                (read_header c n got.1 s) (omega arith)
                (Leaves-le left (left f) (left got.1) (read_header c n got.1 s) (omega arith)
                  (read_header-Leaves left n got.1 s file (omega arith))))))
