-- ===== src/Base/Snoc.antt =====
-- Arrays that are filled from the front, and the entries of an index array.
use Prim.Native.Nat.{ℕ, zero, suc, ◌+◌, ◌<◌}
use mathlib.Core.Path.{◌≡◌, refl}
use mathlib.Core.Logic.{◌⊎◌, inl, inr}
use mathlib.Core.List.{List, [], ◌∷◌, ◌++◌}
use mathlib.Core.Option.{some}
use native.Mathlib.Omega.{arith}
use potfit.Base.Lists.{length, get_elem?, lt-length_of_some}

module _ {ℓ} {A : Type ℓ} where
  pub get_elem?-snoc_old :
      (xs : List A) (b : A) (i : ℕ) {a : A}
      → get_elem? xs i ≡ some a
      → get_elem? (xs ++ (b ∷ [])) i ≡ some a
  get_elem?-snoc_old [] b i h = cc
  get_elem?-snoc_old (x ∷ xs) b zero h = h
  get_elem?-snoc_old (x ∷ xs) b (suc i) h = get_elem?-snoc_old xs b i h

  pub get_elem?-snoc_new : (xs : List A) (b : A) → get_elem? (xs ++ (b ∷ [])) (length xs) ≡ some b
  get_elem?-snoc_new [] b = refl
  get_elem?-snoc_new (x ∷ xs) b = get_elem?-snoc_new xs b

  pub snoc_cases :
      (xs : List A) (b : A) (i : ℕ) {a : A}
      → get_elem? (xs ++ (b ∷ [])) i ≡ some a
      → (get_elem? xs i ≡ some a) ⊎ ((i ≡ length xs) × (b ≡ a))
  snoc_cases [] b zero h = inr (refl, cc)
  snoc_cases [] b (suc i) h = cc
  snoc_cases (x ∷ xs) b zero h = inl h
  snoc_cases (x ∷ xs) b (suc i) h = elim (snoc_cases xs b i h) [
    | inl k ↦ inl k
    | inr (e, k) ↦ inr (omega arith, k)
  ]

-- All entries are below `n`.
abbrev pub Below : ℕ → List ℕ → Type 0
Below n xs = (i : ℕ) (a : ℕ) → get_elem? xs i ≡ some a → a < n

-- Every entry is less than all later ones.
abbrev pub Increasing : List ℕ → Type 0
Increasing xs = (i j a b : ℕ) → i < j → get_elem? xs i ≡ some a → get_elem? xs j ≡ some b → a < b

pub Below-snoc : (n : ℕ) (xs : List ℕ) → Below n xs → Below (n + 1) (xs ++ (n ∷ []))
Below-snoc n xs below i a h = elim (snoc_cases xs n i h) [
  | inl k ↦ omega (arith, below i a k)
  | inr (e, k) ↦ omega (arith, k)
]

pub Below-suc : (n : ℕ) (xs : List ℕ) → Below n xs → Below (n + 1) xs
Below-suc n xs below i a h = omega (arith, below i a h)

pub Increasing-snoc :
    (n : ℕ) (xs : List ℕ) → Below n xs → Increasing xs → Increasing (xs ++ (n ∷ []))
Increasing-snoc n xs below inc i j a b lt hi hj = elim (snoc_cases xs n j hj) [
  | inl kj ↦ elim (snoc_cases xs n i hi) [
    | inl ki ↦ inc i j a b lt ki kj
    | inr (e, k) ↦ absurd (omega (arith, e, lt-length_of_some xs j kj))
  ]
  | inr (e, k) ↦ elim (snoc_cases xs n i hi) [
    | inl ki ↦ omega (arith, below i a ki, k)
    | inr (e', k') ↦ absurd (omega (arith, e, e'))
  ]
]
