-- ===== src/Config/Neighbors/Ranges.antt =====
-- The loops over atoms and periodic images of `init_neighbors`: what they run through, and in which
-- order.
use potfit.Base.{
  ℕ, zero, suc, ◌+◌, ◌-◌, ◌<◌, ◌≤◌, ◌≡◌, ◌⊎◌, refl, sym, ap, ◌∙◌, List, [], ◌∷◌, ◌++◌, map, All,
  All-append, All-map, inl, inr, arith,
}
use mathlib.Core.Path.{subst}
use native.Mathlib.Decide.{ℕ_discrete}
use potfit.Base.Int.{ℤ, pos, negsuc, pos_part, neg_part, sub_ℕ}
use potfit.Base.Ascending.{
  Has-map, map-Has, Ascending-map, Has, Has-append_left, Has-append_right, Has-append, All-Has,
  Ascending, Ascending-append, Lex, Has-pair, pair-Has, All-pair, All-every, Ascending-pair,
}
use potfit.Config.Neighbors.{Image, rounds, span, concat_map, images}

-- Less, on integers.
abbrev pub Less : ℤ → ℤ → Type 0
Less a b = pos_part a + neg_part b < pos_part b + neg_part a

-- From -c to c.
abbrev pub Within : ℕ → ℤ → Type 0
Within c x = (pos_part x ≤ c) × (neg_part x ≤ c)

-- v - c, for some v from `low` to 2c.
abbrev Spot : (c low : ℕ) → ℤ → Type 0
Spot c low x = (v : ℕ) × (x ≡ sub_ℕ v c) × (low ≤ v) × (v ≤ c + c)

rounds-Spot : (c left : ℕ) → left ≤ suc (c + c) → All (Spot c (suc (c + c) - left)) (rounds c left)
rounds-Spot c zero h = tt
rounds-Spot c (suc left) h =
    let more = rounds-Spot c left (omega arith) in
    (
      (c + c - left, refl, omega arith, omega arith),
      All-map (Spot c (suc (c + c) - left)) (Spot c (suc (c + c) - suc left)) (rounds c left)
          (λ x (v, e, l, u). (v, e, omega arith, u)) more,
    )

less : (a b c : ℕ) → a < b → Less (sub_ℕ a c) (sub_ℕ b c)
less a b c h = ground arith

rounds-Ascending : (c left : ℕ) → left ≤ suc (c + c) → Ascending Less (rounds c left)
rounds-Ascending c zero h = tt
rounds-Ascending c (suc left) h = (
  All-map (Spot c (suc (c + c) - left)) (Less (sub_ℕ (c + c - left) c)) (rounds c left)
      (λ x (v, e, l, u).
        subst (Less (sub_ℕ (c + c - left) c)) (sym e) (less (c + c - left) v c (omega arith)))
      (rounds-Spot c left (omega arith)),
  rounds-Ascending c left (omega arith),
)

rounds-Has :
    (c left : ℕ) (x : ℤ)
    → left ≤ suc (c + c)
    → Spot c (suc (c + c) - left) x
    → Has x (rounds c left)
rounds-Has c zero x h (v, e, l, u) = absurd (omega arith)
rounds-Has c (suc left) x h (v, e, l, u) = elim (ℕ_discrete v (c + c - left)) [
  | yes same ↦ inl (e ∙ ap (λ (k : ℕ). sub_ℕ k c) same)
  | no other ↦ inr (rounds-Has c left x (omega arith) (v, e, omega (arith, other), u))
]

Spot-Within : (c low v : ℕ) → v ≤ c + c → Within c (sub_ℕ v c)
Spot-Within c low v h = (ground arith, ground arith)

Within-Spot : (c : ℕ) (x : ℤ) → Within c x → Spot c 0 x
Within-Spot c (pos n) (h, k) = (n + c, ground arith, omega arith, omega arith)
Within-Spot c (negsuc n) (h, k) = (c - suc n, ground arith, omega arith, omega arith)

span-Ascending : (c : ℕ) → Ascending Less (span c)
span-Ascending c = rounds-Ascending c (suc (c + c)) (omega arith)

span-Has : (c : ℕ) (x : ℤ) → Within c x → Has x (span c)
span-Has c x h =
    let (v, e, _, u) = Within-Spot c x h in
    rounds-Has c (suc (c + c)) x (omega arith) (v, e, omega arith, u)

Has-span : (c : ℕ) (x : ℤ) → Has x (span c) → Within c x
Has-span c x h =
    let (v, e, _, u) =
      All-Has (Spot c (suc (c + c) - suc (c + c))) x (span c)
        (rounds-Spot c (suc (c + c)) (omega arith)) h in
    subst (Within c) (sym e) (Spot-Within c 0 v u)

module _ {A B : Type 0} where
  -- A loop in a loop.
  abbrev pub nested : List A → List B → List (A × B)
  nested xs ys = concat_map (λ x. map (λ y. (x, y)) ys) xs

  pub Has-nested :
      (a : A) (b : B) (xs : List A) (ys : List B)
      → Has {A = A × B} (a, b) (nested xs ys)
      → Has a xs × Has b ys
  Has-nested a b [] ys h = absurd h
  Has-nested a b (x ∷ xs) ys h = elim (Has-append (a, b) (map (λ y. (x, y)) ys) (nested xs ys) h) [
    | inl k ↦ let (e, m) = Has-pair a b x ys k in (inl e, m)
    | inr k ↦ let (m, m') = Has-nested a b xs ys k in (inr m, m')
  ]

  pub nested-Has :
      (a : A) (b : B) (xs : List A) (ys : List B)
      → Has a xs
      → Has b ys
      → Has {A = A × B} (a, b) (nested xs ys)
  nested-Has a b [] ys h k = absurd h
  nested-Has a b (x ∷ xs) ys (inl e) k =
      Has-append_left (a, b) (map (λ y. (x, y)) ys) (nested xs ys)
        (subst (λ (z : A). Has {A = A × B} (a, b) (map (λ y. (z, y)) ys)) e (pair-Has a b ys k))
  nested-Has a b (x ∷ xs) ys (inr h) k =
      Has-append_right (a, b) (map (λ y. (x, y)) ys) (nested xs ys) (nested-Has a b xs ys h k)

  module _ (R : A → A → Type 0) (S : B → B → Type 0) where
    behind : (x : A) (xs : List A) (ys : List B) → All (R x) xs → All (λ v. R x v.0) (nested xs ys)
    behind x [] ys h = tt
    behind x (z ∷ xs) ys (h, hs) =
        All-append (λ v. R x v.0) (map (λ y. (z, y)) ys) (nested xs ys)
          (All-pair (λ v. R x v.0) z ys (All-every _ ys (λ y. h))) (behind x xs ys hs)

    pub nested-Ascending :
        (xs : List A) (ys : List B)
        → Ascending R xs
        → Ascending S ys
        → Ascending (Lex R S) (nested xs ys)
    nested-Ascending [] ys h k = tt
    nested-Ascending (x ∷ xs) ys (h, hs) k =
        let later = behind x xs ys h in
        Ascending-append (Lex R S) (map (λ y. (x, y)) ys) (nested xs ys) (Ascending-pair R S x ys k)
          (nested-Ascending xs ys hs k)
          (All-pair _ x ys (
            All-every _ ys (λ y.
              All-map (λ v. R x v.0) (λ v. Lex R S (x, y) v) (nested xs ys) (λ v r. inl r) later)))

module _ {B C : Type 0} (f : B → C) where
  map-append : (xs ys : List B) → map f (xs ++ ys) ≡ map f xs ++ map f ys
  map-append [] ys = refl
  map-append (x ∷ xs) ys = ap (λ (l : List C). f x ∷ l) (map-append xs ys)

  map-map : {A : Type 0} (g : A → B) (xs : List A) → map f (map g xs) ≡ map (λ x. f (g x)) xs
  map-map g [] = refl
  map-map g (x ∷ xs) = ap (λ (l : List C). f (g x) ∷ l) (map-map g xs)

map-nested :
    {A B C : Type 0} (f : A × B → C) (xs : List A) (ys : List B)
    → map f (nested xs ys) ≡ concat_map (λ x. map (λ y. f (x, y)) ys) xs
map-nested f [] ys = refl
map-nested f (x ∷ xs) ys =
    map-append f (map (λ y. (x, y)) ys) (nested xs ys)
    ∙ rw (map-map f (λ y. (x, y)) ys, map-nested f xs ys) refl

-- The order in which the images come.
abbrev pub Later : Image → Image → Type 0
Later (x, y, z) (x', y', z') = Less x x' ⊎ ((x ≡ x') × (Less y y' ⊎ ((y ≡ y') × Less z z')))

abbrev Nest : Type 0
Nest = ℤ × (ℤ × ℤ)

abbrev flat : Nest → Image
flat (x, (y, z)) = (x, y, z)

module _ (cx cy cz : ℕ) where
  abbrev nest : List Nest
  nest = nested (span cx) (nested (span cy) (span cz))

  images-flat : map flat nest ≡ images cx cy cz
  unfolding images
  images-flat = map-nested flat (span cx) (nested (span cy) (span cz)) ∙ (λ i.
      concat_map (λ x. map-nested (λ (p : ℤ × ℤ). (x, p.0, p.1)) (span cy) (span cz) i) (span cx))

  pub images-Ascending : Ascending Later (images cx cy cz)
  images-Ascending = subst (Ascending Later) images-flat (
      Ascending-map (Lex Less (Lex Less Less)) Later flat nest (λ u v r. r)
        (nested-Ascending Less (Lex Less Less) (span cx) (nested (span cy) (span cz))
          (span-Ascending cx)
          (nested-Ascending Less Less (span cy) (span cz) (span-Ascending cy) (span-Ascending cz))))

  pub images-Has :
      (x y z : ℤ)
      → Within cx x
      → Within cy y
      → Within cz z
      → Has {A = Image} (x, y, z) (images cx cy cz)
  images-Has x y z hx hy hz = subst (Has {A = Image} (x, y, z)) images-flat (
      map-Has flat (x, (y, z)) nest
        (nested-Has x (y, z) (span cx) (nested (span cy) (span cz)) (span-Has cx x hx)
          (nested-Has y z (span cy) (span cz) (span-Has cy y hy) (span-Has cz z hz))))

  pub Has-images :
      (x y z : ℤ)
      → Has {A = Image} (x, y, z) (images cx cy cz)
      → Within cx x × Within cy y × Within cz z
  Has-images x y z h =
      let ((x', (y', z')), k, e) =
        Has-map flat (x, y, z) nest (subst (Has {A = Image} (x, y, z)) (sym images-flat) h) in
      let (kx, more) = Has-nested x' (y', z') (span cx) (nested (span cy) (span cz)) k in
      let (ky, kz) = Has-nested y' z' (span cy) (span cz) more in
      (
        subst (Within cx) (sym (ap (λ (im : Image). im.0) e)) (Has-span cx x' kx),
        subst (Within cy) (sym (ap (λ (im : Image). im.1) e)) (Has-span cy y' ky),
        subst (Within cz) (sym (ap (λ (im : Image). im.2) e)) (Has-span cz z' kz),
      )
