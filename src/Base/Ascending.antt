-- ===== src/Base/Ascending.antt =====
-- Lists whose elements stand in an order, what they hold, and the pairs from two of them.
use mathlib.Core.Path.{◌≡◌, refl, sym, ap}
use mathlib.Core.Path.{subst}
use mathlib.Core.Logic.{◌⊎◌, inl, inr}
use mathlib.Core.List.{List, [], ◌∷◌, ◌++◌, map}
use potfit.Base.Lists.{All, All-append, All-map}

module _ {A : Type 0} where
  abbrev pub Has : A → List A → Type 0
  Has a [] = ⊥
  Has a (x ∷ xs) = (a ≡ x) ⊎ Has a xs

  pub Has-append_left : (a : A) (xs ys : List A) → Has a xs → Has a (xs ++ ys)
  Has-append_left a [] ys h = absurd h
  Has-append_left a (x ∷ xs) ys (inl e) = inl e
  Has-append_left a (x ∷ xs) ys (inr h) = inr (Has-append_left a xs ys h)

  pub Has-append_right : (a : A) (xs ys : List A) → Has a ys → Has a (xs ++ ys)
  Has-append_right a [] ys h = h
  Has-append_right a (x ∷ xs) ys h = inr (Has-append_right a xs ys h)

  pub Has-append : (a : A) (xs ys : List A) → Has a (xs ++ ys) → Has a xs ⊎ Has a ys
  Has-append a [] ys h = inr h
  Has-append a (x ∷ xs) ys (inl e) = inl (inl e)
  Has-append a (x ∷ xs) ys (inr h) = elim (Has-append a xs ys h) [
    | inl k ↦ inl (inr k)
    | inr k ↦ inr k
  ]

  pub All-Has : (P : A → Type 0) (a : A) (xs : List A) → All P xs → Has a xs → P a
  All-Has P a [] h k = absurd k
  All-Has P a (x ∷ xs) (h, hs) (inl e) = subst P (sym e) h
  All-Has P a (x ∷ xs) (h, hs) (inr k) = All-Has P a xs hs k

  -- Each element stands in the relation to all that come behind it.
  abbrev pub Ascending : (A → A → Type 0) → List A → Type 0
  Ascending R [] = Unit
  Ascending R (x ∷ xs) = All (R x) xs × Ascending R xs

  pub Ascending-append :
      (R : A → A → Type 0) (xs ys : List A)
      → Ascending R xs
      → Ascending R ys
      → All (λ x. All (R x) ys) xs
      → Ascending R (xs ++ ys)
  Ascending-append R [] ys h k c = k
  Ascending-append R (x ∷ xs) ys (h, hs) k (c, cs) =
      (All-append (R x) xs ys h c, Ascending-append R xs ys hs k cs)

module _ {B : Type 0} where
  pub All-every : (P : B → Type 0) (ys : List B) → ((y : B) → P y) → All P ys
  All-every P [] h = tt
  All-every P (y ∷ ys) h = (h y, All-every P ys h)

-- One list beside another, element by element.
abbrev pub Beside : {A B : Type 0} → (A → B → Type 0) → List A → List B → Type 0
Beside R [] [] = Unit
Beside R [] (y ∷ ys) = ⊥
Beside R (x ∷ xs) [] = ⊥
Beside R (x ∷ xs) (y ∷ ys) = R x y × Beside R xs ys

module _ {A B : Type 0} where
  -- The order of the pairs from two loops, one in the other.
  abbrev pub Lex : (A → A → Type 0) → (B → B → Type 0) → A × B → A × B → Type 0
  Lex R S u v = R u.0 v.0 ⊎ ((u.0 ≡ v.0) × S u.1 v.1)

  pub Has-pair :
      (a : A) (b : B) (x : A) (ys : List B)
      → Has {A = A × B} (a, b) (map (λ y. (x, y)) ys)
      → (a ≡ x) × Has b ys
  Has-pair a b x [] h = absurd h
  Has-pair a b x (y ∷ ys) (inl e) = (ap (λ (p : A × B). p.0) e, inl (ap (λ (p : A × B). p.1) e))
  Has-pair a b x (y ∷ ys) (inr h) = let (e, k) = Has-pair a b x ys h in (e, inr k)

  pub pair-Has :
      (a : A) (b : B) (ys : List B) → Has b ys → Has {A = A × B} (a, b) (map (λ y. (a, y)) ys)
  pair-Has a b [] h = absurd h
  pair-Has a b (y ∷ ys) (inl e) = inl (ap (λ (c : B). (a, c)) e)
  pair-Has a b (y ∷ ys) (inr h) = inr (pair-Has a b ys h)

  pub All-pair :
      (P : A × B → Type 0) (x : A) (ys : List B)
      → All (λ y. P (x, y)) ys
      → All P (map (λ y. (x, y)) ys)
  All-pair P x [] h = tt
  All-pair P x (y ∷ ys) (h, hs) = (h, All-pair P x ys hs)

  pub Ascending-pair :
      (R : A → A → Type 0) (S : B → B → Type 0) (x : A) (ys : List B)
      → Ascending S ys
      → Ascending (Lex R S) (map (λ y. (x, y)) ys)
  Ascending-pair R S x [] h = tt
  Ascending-pair R S x (y ∷ ys) (h, hs) = (
    All-pair (λ v. Lex R S (x, y) v) x ys (All-map (S y) _ ys (λ z s. inr (refl, s)) h),
    Ascending-pair R S x ys hs,
  )

  pub Has-map :
      (f : A → B) (b : B) (xs : List A) → Has b (map f xs) → (a : A) × Has a xs × (b ≡ f a)
  Has-map f b [] h = absurd h
  Has-map f b (x ∷ xs) (inl e) = (x, inl refl, e)
  Has-map f b (x ∷ xs) (inr h) = let (a, k, e) = Has-map f b xs h in (a, inr k, e)

  pub map-Has : (f : A → B) (a : A) (xs : List A) → Has a xs → Has (f a) (map f xs)
  map-Has f a [] h = absurd h
  map-Has f a (x ∷ xs) (inl e) = inl (ap f e)
  map-Has f a (x ∷ xs) (inr h) = inr (map-Has f a xs h)

  All_of_map : (P : B → Type 0) (f : A → B) (xs : List A) → All (λ a. P (f a)) xs → All P (map f xs)
  All_of_map P f [] h = tt
  All_of_map P f (x ∷ xs) (h, hs) = (h, All_of_map P f xs hs)

  pub Ascending-map :
      (R : A → A → Type 0) (S : B → B → Type 0) (f : A → B) (xs : List A)
      → ((a a' : A) → R a a' → S (f a) (f a'))
      → Ascending R xs
      → Ascending S (map f xs)
  Ascending-map R S f [] keeps h = tt
  Ascending-map R S f (x ∷ xs) keeps (h, hs) = (
    All_of_map (S (f x)) f xs (All-map (R x) (λ a. S (f x) (f a)) xs (keeps x) h),
    Ascending-map R S f xs keeps hs,
  )
