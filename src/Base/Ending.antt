-- ===== src/Base/Ending.antt =====
-- What a routine hands back when it may end the program: `error(1, ...)` is `exit` with its reason.
use mathlib.Core.Path.{◌≡◌, refl, ap}
use mathlib.Core.Logic.{◌⊎◌, inl, inr}
use mathlib.Core.Bool.{Bool, true, false}
use mathlib.Core.Option.{Option, none, some}

pub data Outcome {ℓ} (E : Type 0) (A : Type ℓ) : Type ℓ where
  exit : E → Outcome E A
  ok : A → Outcome E A

module _ {ℓ κ} {E : Type 0} {A : Type ℓ} {B : Type κ} where
  infixl 5 ◌>>=◌
  abbrev pub ◌>>=◌ : Outcome E A → (A → Outcome E B) → Outcome E B
  m >>= rest = elim m [ exit reason ↦ exit reason | ok a ↦ rest a ]

  -- A chain that comes through went through its first part.
  pub through :
      (m : Outcome E A) (rest : A → Outcome E B) (b : B)
      → (m >>= rest) ≡ ok b
      → (a : A) × (m ≡ ok a) × (rest a ≡ ok b)
  through (exit reason) rest b e = cc
  through (ok a) rest b e = (a, refl, e)

  -- A chain that ends the program ends it in its first part or behind it.
  pub stopped :
      (m : Outcome E A) (rest : A → Outcome E B) (reason : E)
      → (m >>= rest) ≡ exit reason
      → (m ≡ exit reason) ⊎ ((a : A) × (m ≡ ok a) × (rest a ≡ exit reason))
  stopped (exit why) rest reason e = let same : why ≡ reason = cc in inl (ap exit same)
  stopped (ok a) rest reason e = inr (a, refl, e)

infixl 5 ◌>>◌
abbrev pub ◌>>◌ {ℓ} : {E : Type 0} {B : Type ℓ} → Outcome E (Unit {0}) → Outcome E B → Outcome E B
check >> rest = elim check [ exit reason ↦ exit reason | ok _ ↦ rest ]

-- `if (bad) error(1, ...)`.
abbrev pub exit_if : {E : Type 0} → Bool → E → Outcome E (Unit {0})
exit_if bad reason = elim bad [ true ↦ exit reason | false ↦ ok tt ]

-- A chain that comes through passed its first check.
pub passed {ℓ} :
    {E : Type 0} {B : Type ℓ} (bad : Bool) (reason : E) {rest : Outcome E B} {b : B}
    → (exit_if bad reason >> rest) ≡ ok b
    → (bad ≡ false) × (rest ≡ ok b)
passed true reason e = cc
passed false reason e = (refl, e)

-- A chain behind a read that comes through had something to read.
pub fetched {ℓ κ} :
    {E : Type 0} {A : Type ℓ} {B : Type κ} (o : Option A) (reason : E) (rest : A → Outcome E B)
    (b : B)
    → (elim o [ none ↦ exit reason | some a ↦ rest a ]) ≡ ok b
    → (a : A) × (o ≡ some a) × (rest a ≡ ok b)
fetched none reason rest b e = cc
fetched (some a) reason rest b e = (a, refl, e)

-- A chain that may have nothing to read.
pub read_or_done {ℓ κ} :
    {E : Type 0} {A : Type ℓ} {B : Type κ} (o : Option A) (done : B) (rest : A → Outcome E B)
    (b : B)
    → (elim o [ none ↦ ok done | some a ↦ rest a ]) ≡ ok b
    → (done ≡ b) × (o ≡ none) ⊎ ((a : A) × (o ≡ some a) × (rest a ≡ ok b))
read_or_done none done rest b e = let same : done ≡ b = cc in inl (same, refl)
read_or_done (some a) done rest b e = inr (a, refl, e)

-- The two ways of a test.
pub tested_ways {ℓ} :
    {A : Type ℓ} (test : Bool) (x y z : A)
    → (elim test [ true ↦ x | false ↦ y ]) ≡ z
    → (test ≡ true) × (x ≡ z) ⊎ ((test ≡ false) × (y ≡ z))
tested_ways true x y z e = inl (refl, e)
tested_ways false x y z e = inr (refl, e)
