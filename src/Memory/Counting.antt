-- ===== src/Memory/Counting.antt =====
-- How often an address stands in a list.
use potfit.Base.{
  ℕ, suc, ◌+◌, ◌-◌, ◌≡◌, refl, List, [], ◌∷◌, ◌++◌, map, if◌then◌else◌, ◌==◌, arith, ◌≢◌,
}

abbrev pub count : ℕ → List ℕ → ℕ
count a [] = 0
count a (x ∷ xs) = if a == x then suc (count a xs) else count a xs

-- Without the first occurrence.
abbrev pub remove : ℕ → List ℕ → List ℕ
remove a [] = []
remove a (x ∷ xs) = if a == x then xs else x ∷ remove a xs

pub count-append : (a : ℕ) (xs ys : List ℕ) → count a (xs ++ ys) ≡ count a xs + count a ys
count-append a [] ys = omega arith
count-append a (x ∷ xs) ys = ground (arith, count-append a xs ys)

pub count-remove :
    (a p : ℕ) (xs : List ℕ)
    → count a (remove p xs) ≡ (if a == p then count a xs - 1 else count a xs)
count-remove a p [] = ground arith
count-remove a p (x ∷ xs) = ground (arith, count-remove a p xs)

pub count-replace :
    (a p q : ℕ) (xs : List ℕ)
    → p ≢ q
    → count q xs ≡ 0
    → count a (map (λ r. if p == r then q else r) xs)
      ≡ (if a == q then count p xs else if a == p then 0 else count a xs)
count-replace a p q [] ne none_q = ground arith
count-replace a p q (x ∷ xs) ne none_q = ground (arith, count-replace a p q xs ne)

pub replace_self : (p : ℕ) (xs : List ℕ) → map (λ r. if p == r then p else r) xs ≡ xs
replace_self p [] = refl
replace_self p (x ∷ xs) = ground (arith, replace_self p xs)

pub nil_of_count : (xs : List ℕ) → ((a : ℕ) → count a xs ≡ 0) → xs ≡ []
nil_of_count [] h = refl
nil_of_count (x ∷ xs) h = ground (arith, h x)
