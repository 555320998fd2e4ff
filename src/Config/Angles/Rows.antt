-- ===== src/Config/Angles/Rows.antt =====
-- The neighbors that a neighbor is paired with.
use potfit.Base.{
  ℕ, zero, suc, ◌+◌, ◌≤◌, ◌<◌, ◌≡◌, refl, List, [], ◌∷◌, ◌++◌, some, length, get_elem?,
  lt-length_of_some, arith,
}
use potfit.Config.{Neighbor}
use potfit.Config.Angles.{half_rows, full_rows, without}

module _ {ℓ} {A : Type ℓ} where
  pub get_elem?-append_left :
      (xs ys : List A) (i : ℕ) {a : A} → get_elem? xs i ≡ some a → get_elem? (xs ++ ys) i ≡ some a
  get_elem?-append_left [] ys i h = cc
  get_elem?-append_left (x ∷ xs) ys zero h = h
  get_elem?-append_left (x ∷ xs) ys (suc i) h = get_elem?-append_left xs ys i h

  pub get_elem?-append_right :
      (xs ys : List A) (i j : ℕ) → i ≡ length xs + j → get_elem? (xs ++ ys) i ≡ get_elem? ys j
  get_elem?-append_right [] ys i j h = let e : i ≡ j = omega arith in rw e refl
  get_elem?-append_right (x ∷ xs) ys zero j h = absurd (omega arith)
  get_elem?-append_right (x ∷ xs) ys (suc i) j h = get_elem?-append_right xs ys i j (omega arith)

module _ {W : Type 0} where
  pub half_rows-at :
      (neigh : List (Neighbor W)) (j p : ℕ) {n k : Neighbor W}
      → get_elem? neigh j ≡ some n
      → get_elem? neigh (j + 1 + p) ≡ some k
      → (ks : List (Neighbor W)) × (get_elem? (half_rows neigh) j ≡ some (n, some ks))
        × (get_elem? ks p ≡ some k)
  unfolding half_rows
  half_rows-at [] j p h h' = cc
  half_rows-at (m ∷ []) j p {k = k} h h' =
      absurd (omega (arith, lt-length_of_some (m ∷ []) (j + 1 + p) h'))
  half_rows-at (m ∷ m' ∷ rest) zero p {n = n} {k = k} h h' =
      let next : 0 + 1 + p ≡ suc p = omega arith in
      let same : m ≡ n = cc in (m' ∷ rest, rw same refl, rw next at h')
  half_rows-at (m ∷ m' ∷ rest) (suc j) p {n = n} {k = k} h h' =
      let next : suc j + 1 + p ≡ suc (j + 1 + p) = omega arith in
      half_rows-at (m' ∷ rest) j p h (rw next at h')

  pub without-before :
      (j k : ℕ) (all : List (Neighbor W)) → k < j → get_elem? (without j all) k ≡ get_elem? all k
  without-before j k [] h = refl
  without-before zero k (n ∷ all) h = absurd (omega arith)
  without-before (suc j) zero (n ∷ all) h = refl
  without-before (suc j) (suc k) (n ∷ all) h = without-before j k all (omega arith)

  pub without-behind :
      (j k : ℕ) (all : List (Neighbor W))
      → j ≤ k
      → get_elem? (without j all) k ≡ get_elem? all (suc k)
  without-behind j k [] h = refl
  without-behind zero k (n ∷ all) h = refl
  without-behind (suc j) zero (n ∷ all) h = absurd (omega arith)
  without-behind (suc j) (suc k) (n ∷ all) h = without-behind j k all (omega arith)

  pub full_rows-at :
      (all rest : List (Neighbor W)) (i j : ℕ) {n : Neighbor W}
      → get_elem? rest j ≡ some n
      → get_elem? (full_rows all i rest) j ≡ some (n, some (without (i + j) all))
  unfolding full_rows
  full_rows-at all [] i j h = cc
  full_rows-at all (m ∷ rest) i zero {n = n} h =
      let same : m ≡ n = cc in let e : i + 0 ≡ i = omega arith in rw (same, e) refl
  full_rows-at all (m ∷ rest) i (suc j) h =
      let e : i + suc j ≡ i + 1 + j = omega arith in rw e (full_rows-at all rest (i + 1) j h)
