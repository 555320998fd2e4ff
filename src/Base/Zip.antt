-- ===== src/Base/Zip.antt =====
-- A statement about all members of a list, through permutations, prefixes and pairs of lists.
use Prim.Native.Nat.{ℕ, zero, suc}
use mathlib.Core.Path.{◌≡◌, refl, ap}
use mathlib.Core.Logic.{∥∥₁_elim}
use mathlib.Core.HLevel.{×_prop}
use mathlib.Core.List.{List, [], ◌∷◌, ◌++◌, Perm, Permᴰ}
use mathlib.Core.List.Permᴰ.{nil, cons, swap, trans}
use native.Mathlib.Omega.{arith}
use potfit.Base.Lists.{All, length, take}
use potfit.Base.Permute.{zip}

module _ {ℓ κ} {A : Type ℓ} (P : A → Type κ) where
  All-Permᴰ : {xs ys : List A} → Permᴰ xs ys → All P ys → All P xs
  All-Permᴰ nil h = h
  All-Permᴰ (cons e k) (h, hs) = (rw e h, All-Permᴰ k hs)
  All-Permᴰ (swap e f) (h, (i, hs)) = (rw e i, (rw f h, hs))
  All-Permᴰ (trans k l) h = All-Permᴰ k (All-Permᴰ l h)

  All-IsProp : ((x : A) → IsProp (P x)) → (xs : List A) → IsProp (All P xs)
  All-IsProp prop [] = hlevel
  All-IsProp prop (x ∷ xs) = ×_prop (prop x) (All-IsProp prop xs)

  pub All-Perm : ((x : A) → IsProp (P x)) → (xs ys : List A) → Perm xs ys → All P ys → All P xs
  All-Perm prop xs ys k h = ∥∥₁_elim k (All-IsProp prop xs) (λ e. All-Permᴰ e h)

  pub All-take : (n : ℕ) (xs : List A) → All P xs → All P (take n xs)
  All-take zero xs h = tt
  All-take (suc n) [] h = tt
  All-take (suc n) (x ∷ xs) (h, hs) = (h, All-take n xs hs)

module _ {ℓ κ} {A : Type ℓ} {B : Type κ} where
  pub zip-take :
      (n : ℕ) (xs : List A) (ys : List B) → zip (take n xs) (take n ys) ≡ take n (zip xs ys)
  zip-take zero xs ys = refl
  zip-take (suc n) [] ys = refl
  zip-take (suc n) (x ∷ xs) [] = refl
  zip-take (suc n) (x ∷ xs) (y ∷ ys) = ap (λ zs. (x, y) ∷ zs) (zip-take n xs ys)

  pub zip-append :
      (xs xs' : List A) (ys ys' : List B)
      → length xs ≡ length ys
      → zip (xs ++ xs') (ys ++ ys') ≡ zip xs ys ++ zip xs' ys'
  zip-append [] xs' [] ys' h = refl
  zip-append [] xs' (y ∷ ys) ys' h = absurd (omega arith)
  zip-append (x ∷ xs) xs' [] ys' h = absurd (omega arith)
  zip-append (x ∷ xs) xs' (y ∷ ys) ys' h =
      ap (λ zs. (x, y) ∷ zs) (zip-append xs xs' ys ys' (omega arith))
