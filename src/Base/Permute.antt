-- ===== src/Base/Permute.antt =====
-- Exchanging two cells of a list, the `SWAP` of potfit.h on an array.
use Prim.Native.Nat.{ℕ, zero, suc}
use mathlib.Core.Path.{◌≡◌, refl, ◌∙◌, ap}
use mathlib.Core.List.{List, [], ◌∷◌, Perm}
use mathlib.Core.List.Perm
use mathlib.Core.Option.{Option, none, some}
use native.Mathlib.Omega.{arith}
use potfit.Base.Lists.{
  length, get_elem?, set, length-set, get_elem?-set_ne, get_elem?-set_self, lt-length_of_some,
}
use native.Mathlib.Decide.{ℕ_discrete}
use potfit.Base.Tests.{Option-cases}
use mathlib.Core.Logic.{◌≢◌, ◌⊎◌, inl, inr}

module _ {ℓ} {A : Type ℓ} where
  abbrev exchange : List A → ℕ → ℕ → Option A → Option A → List A
  exchange xs i j (some a) (some b) = set (set xs i b) j a
  exchange xs i j _ _ = xs

  -- Outside the list nothing is exchanged.
  unfoldable pub swap : List A → ℕ → ℕ → List A
  swap xs i j = exchange xs i j (get_elem? xs i) (get_elem? xs j)

  perm_exchange :
      (x b : A) (xs : List A) (j : ℕ) → get_elem? xs j ≡ some b → Perm (b ∷ set xs j x) (x ∷ xs)
  perm_exchange x b [] j h = cc
  perm_exchange x b (y ∷ ys) zero h = let e : y ≡ b = cc in rw e (Perm.swap x b ys)
  perm_exchange x b (y ∷ ys) (suc j) h =
      Perm.trans (Perm.swap y b (set ys j x))
        (Perm.trans (Perm.cons y (perm_exchange x b ys j h)) (Perm.swap x y ys))

  exchange-cons :
      (x : A) (xs : List A) (i j : ℕ) (a b : Option A)
      → exchange (x ∷ xs) (suc i) (suc j) a b ≡ x ∷ exchange xs i j a b
  exchange-cons x xs i j (some a) (some b) = refl
  exchange-cons x xs i j (some a) none = refl
  exchange-cons x xs i j none b = refl

  -- An exchange is a permutation, whatever the indices.
  pub swap-perm : (xs : List A) (i j : ℕ) → Perm (swap xs i j) xs
  unfolding swap
  swap-perm [] i j = Perm.refl []
  swap-perm (x ∷ xs) zero zero = Perm.refl (x ∷ xs)
  swap-perm (x ∷ xs) zero (suc j) = elim (Option-cases (get_elem? xs j)) [
    | inl e ↦ rw (e, swap) (Perm.refl (x ∷ xs))
    | inr (b, e) ↦ rw (e, swap) (perm_exchange x b xs j e)
  ]
  swap-perm (x ∷ xs) (suc i) zero = elim (Option-cases (get_elem? xs i)) [
    | inl e ↦ rw (e, swap) (Perm.refl (x ∷ xs))
    | inr (b, e) ↦ rw (e, swap) (perm_exchange x b xs i e)
  ]
  swap-perm (x ∷ xs) (suc i) (suc j) =
      rw (exchange-cons x xs i j (get_elem? xs i) (get_elem? xs j), swap)
        (Perm.cons x (swap-perm xs i j))

  length-exchange :
      (xs : List A) (i j : ℕ) (a b : Option A) → length (exchange xs i j a b) ≡ length xs
  length-exchange xs i j (some a) (some b) = length-set (set xs i b) j a ∙ length-set xs i b
  length-exchange xs i j (some a) none = refl
  length-exchange xs i j none b = refl

  pub length-swap : (xs : List A) (i j : ℕ) → length (swap xs i j) ≡ length xs
  unfolding swap
  length-swap xs i j = length-exchange xs i j (get_elem? xs i) (get_elem? xs j)

  module _ (xs : List A) (i j : ℕ) {a b : A} (hi : get_elem? xs i ≡ some a)
      (hj : get_elem? xs j ≡ some b) where
    swap-eq-set : swap xs i j ≡ set (set xs i b) j a
    unfolding swap
    swap-eq-set = rw (hi, hj, swap)

    pub get_elem?-swap_right : get_elem? (swap xs i j) j ≡ some a
    get_elem?-swap_right = rw (swap-eq-set) (
        get_elem?-set_self (set xs i b) j a
          (omega (arith, length-set xs i b, lt-length_of_some xs j hj)))

    pub get_elem?-swap_left : get_elem? (swap xs i j) i ≡ some b
    get_elem?-swap_left = elim (ℕ_discrete j i) [
      | yes e ↦ cc get_elem?-swap_right
      | no ne ↦
          rw (swap-eq-set, get_elem?-set_ne (set xs i b) a ne)
            (get_elem?-set_self xs i b (lt-length_of_some xs i hi))
    ]

    pub get_elem?-swap_other : (k : ℕ) → i ≢ k → j ≢ k → get_elem? (swap xs i j) k ≡ get_elem? xs k
    get_elem?-swap_other k p q =
        rw (swap-eq-set) (get_elem?-set_ne (set xs i b) a q ∙ get_elem?-set_ne xs b p)

module _ {ℓ κ} {A : Type ℓ} {B : Type κ} where
  -- The pairs of two arrays.
  abbrev pub zip : List A → List B → List (A × B)
  zip [] ys = []
  zip (x ∷ xs) [] = []
  zip (x ∷ xs) (y ∷ ys) = (x, y) ∷ zip xs ys

  zip-set :
      (xs : List A) (ys : List B) (i : ℕ) (a : A) (b : B)
      → zip (set xs i a) (set ys i b) ≡ set (zip xs ys) i (a, b)
  zip-set [] ys i a b = refl
  zip-set (x ∷ xs) [] zero a b = refl
  zip-set (x ∷ xs) [] (suc i) a b = refl
  zip-set (x ∷ xs) (y ∷ ys) zero a b = refl
  zip-set (x ∷ xs) (y ∷ ys) (suc i) a b = ap (◌∷◌ (x, y)) (zip-set xs ys i a b)

  pair : Option A → Option B → Option (A × B)
  pair (some a) (some b) = some (a, b)
  pair _ _ = none

  get_elem?-zip :
      (xs : List A) (ys : List B) (i : ℕ)
      → get_elem? (zip xs ys) i ≡ pair (get_elem? xs i) (get_elem? ys i)
  unfolding pair
  get_elem?-zip [] ys i = refl
  get_elem?-zip (x ∷ xs) [] zero = refl
  get_elem?-zip (x ∷ xs) [] (suc i) = ground (arith, Option-cases (get_elem? xs i))
  get_elem?-zip (x ∷ xs) (y ∷ ys) zero = refl
  get_elem?-zip (x ∷ xs) (y ∷ ys) (suc i) = get_elem?-zip xs ys i

  same_bound :
      (xs : List A) (ys : List B) (i : ℕ)
      → length xs ≡ length ys
      → ((get_elem? xs i ≡ none) × (get_elem? ys i ≡ none))
        ⊎ ((a : A) × (b : B) × (get_elem? xs i ≡ some a) × (get_elem? ys i ≡ some b))
  same_bound [] [] i h = inl (refl, refl)
  same_bound [] (y ∷ ys) i h = absurd (omega arith)
  same_bound (x ∷ xs) [] i h = absurd (omega arith)
  same_bound (x ∷ xs) (y ∷ ys) zero h = inr (x, y, refl, refl)
  same_bound (x ∷ xs) (y ∷ ys) (suc i) h = same_bound xs ys i (omega arith)

  -- The same exchange in two arrays of one length is an exchange of the pairs.
  pub zip-swap :
      (xs : List A) (ys : List B) (i j : ℕ)
      → length xs ≡ length ys
      → zip (swap xs i j) (swap ys i j) ≡ swap (zip xs ys) i j
  unfolding swap pair
  zip-swap xs ys i j h = elim (same_bound xs ys i h) [
    | inl (e, f) ↦ rw (get_elem?-zip xs ys i, e, f, swap) refl
    | inr (a, b, e, f) ↦ elim (same_bound xs ys j h) [
      | inl (e', f') ↦ rw (get_elem?-zip xs ys i, get_elem?-zip xs ys j, e, f, e', f', swap) refl
      | inr (a', b', e', f') ↦
          rw (get_elem?-zip xs ys i, get_elem?-zip xs ys j, e, f, e', f', swap)
            (zip-set (set xs i a') (set ys i b') j a b
              ∙ ap (λ z. set z j (a, b)) (zip-set xs ys i a' b'))
    ]
  ]
