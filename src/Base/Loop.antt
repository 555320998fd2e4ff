-- ===== src/Base/Loop.antt =====
-- The loop `for (int i = 0; i < n; i++) s = f(i, s)`.
use Prim.Native.Nat.{ℕ, zero, suc, ◌<◌}
use mathlib.Core.Path.{◌≡◌, refl, ap, ◌∙◌}
use native.Mathlib.Omega.{arith}

module _ {ℓ} {A : Type ℓ} where
  abbrev pub for_below : ℕ → (ℕ → A → A) → A → A
  for_below zero f s = s
  for_below (suc n) f s = f n (for_below n f s)

  -- What one round keeps, the loop keeps.
  pub for_below-keeps {κ} :
      (P : A → Type κ) (n : ℕ) (f : ℕ → A → A) (s : A)
      → P s
      → ((i : ℕ) (t : A) → i < n → P t → P (f i t))
      → P (for_below n f s)
  for_below-keeps P zero f s p round = p
  for_below-keeps P (suc n) f s p round =
      round n (for_below n f s) (omega arith)
        (for_below-keeps P n f s p (λ i t h. round i t (omega arith)))

  -- What holds behind the first `i` rounds, for every `i`.
  pub for_below-counts {κ} :
      (P : ℕ → A → Type κ) (n : ℕ) (f : ℕ → A → A) (s : A)
      → P 0 s
      → ((i : ℕ) (t : A) → i < n → P i t → P (suc i) (f i t))
      → P n (for_below n f s)
  for_below-counts P zero f s p round = p
  for_below-counts P (suc n) f s p round =
      round n (for_below n f s) (omega arith)
        (for_below-counts P n f s p (λ i t h. round i t (omega arith)))

  -- Two loops whose rounds agree.
  pub for_below_ext :
      (n : ℕ) (f g : ℕ → A → A) (s : A)
      → ((i : ℕ) (t : A) → i < n → f i t ≡ g i t)
      → for_below n f s ≡ for_below n g s
  for_below_ext zero f g s same = refl
  for_below_ext (suc n) f g s same =
      same n (for_below n f s) (omega arith)
      ∙ ap (g n) (for_below_ext n f g s (λ i t h. same i t (omega arith)))
