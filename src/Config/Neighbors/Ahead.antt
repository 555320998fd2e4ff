-- ===== src/Config/Neighbors/Ahead.antt =====
-- In a half list an atom has no neighbors before itself.
use potfit.Base.{
  get_or, ℕ, suc, ◌+◌, ◌≤◌, ◌<◌, ◌≡◌, ap, Bool, false, List, [], ◌∷◌, map, All, All-append,
  if◌then◌else◌, length, ok, arith, Bool-cases, inl, inr,
}
use mathlib.Core.Path.{subst}
use potfit.Base.Double.{Double}
use potfit.Config.{Neighbor}
use potfit.Config.Neighbors.{Site, Geometry, Visit, Image, in_range, visits_of, init_neighbors}
use potfit.Config.Neighbors.Listed.{kept, Lists, Tables, init_neighbors-Tables}

module _ {W : Type 0} ⦃d : Double W⦄ where
  -- The atoms have the numbers from `start` on.
  abbrev pub IsNumbered : ℕ → List (Site W) → Type 0
  IsNumbered start [] = Unit
  IsNumbered start (i ∷ sites) = (i.nr ≡ start) × IsNumbered (suc start) sites

  abbrev pub Between : (low high : ℕ) → Neighbor W → Type 0
  Between low high n = (low ≤ n.nr) × (n.nr < high)

  -- The neighbors of an atom are atoms from itself on, and of the configuration that ends at `high`.
  abbrev pub Ahead : (start high : ℕ) → List (List (Neighbor W)) → Type 0
  Ahead start high [] = Unit
  Ahead start high (neigh ∷ lists) = All (Between start high) neigh × Ahead (suc start) high lists

  module _ (g : Geometry W) where
    Inside : (low high : ℕ) → Visit g → Type 0
    Inside low high v = (low ≤ (v.0).nr) × ((v.0).nr < high)

    images-Inside :
        (low high : ℕ) (j : Site W) (ims : List Image)
        → low ≤ j.nr
        → j.nr < high
        → All (Inside low high) (map (λ im. (j, im)) ims)
    unfolding Inside
    images-Inside low high j [] h k = tt
    images-Inside low high j (im ∷ ims) h k = ((h, k), images-Inside low high j ims h k)

    visits-Inside :
        (low start high : ℕ) (js : List (Site W))
        → IsNumbered start js
        → low ≤ start
        → start + length js ≤ high
        → All (Inside low high) (visits_of g js)
    visits-Inside low start high [] num h k = tt
    visits-Inside low start high (j ∷ js) (e, num) h k =
        All-append (Inside low high) (map (λ im. (j, im)) g.images) (visits_of g js)
          (images-Inside low high j g.images (omega arith) (omega arith))
          (visits-Inside low (suc start) high js num (omega arith) (omega arith))

    kept-Inside :
        (low high : ℕ) (i : Site W) (vs : List (Visit g))
        → All (Inside low high) vs
        → All (Inside low high) (kept g i vs)
    unfolding kept
    kept-Inside low high i [] h = tt
    kept-Inside low high i (v ∷ vs) (h, hs) = elim (Bool-cases (in_range g i v)) [
      | inl t ↦ rw t (h, kept-Inside low high i vs hs)
      | inr f ↦ rw f (kept-Inside low high i vs hs)
    ]

    Lists-Between :
        (low high : ℕ) (i : Site W) (vs : List (Visit g)) (ns : List (Neighbor W))
        → Lists g i vs ns
        → All (Inside low high) vs
        → All (Between low high) ns
    unfolding Inside
    Lists-Between low high i [] [] h k = tt
    Lists-Between low high i [] (n ∷ ns) h k = absurd h
    Lists-Between low high i (v ∷ vs) [] h k = absurd h
    Lists-Between low high i (v ∷ vs) (n ∷ ns) (e, l, h) (k, ks) =
        let same : n.nr ≡ (v.0).nr = ap (λ (m : Neighbor W). m.nr) e in
        ((omega (arith, same), omega (arith, same)), Lists-Between low high i vs ns h ks)

    Tables-Ahead :
        (start : ℕ) (all sites : List (Site W)) (lists : List (List (Neighbor W)))
        → g.full ≡ false
        → IsNumbered start sites
        → Tables g all sites lists
        → Ahead start (start + length sites) lists
    Tables-Ahead start all [] [] half num t = tt
    Tables-Ahead start all [] (l ∷ ls) half num t = absurd t
    Tables-Ahead start all (i ∷ sites) [] half num t = absurd t
    Tables-Ahead start all (i ∷ sites) (l ∷ ls) half (e, num) (t, ts) =
        let high = start + length (i ∷ sites) in
        let listed =
          subst (λ (b : Bool). Lists g i (kept g i (visits_of g (if b then all else i ∷ sites))) l)
            half t in
        let later : Ahead (suc start) (suc start + length sites) ls =
          Tables-Ahead (suc start) all sites ls half num ts in
        let same : suc start + length sites ≡ high = omega arith in
        (
          Lists-Between start high i (kept g i (visits_of g (i ∷ sites))) l listed (
              kept-Inside start high i (visits_of g (i ∷ sites))
                (visits-Inside start start high (i ∷ sites) (e, num) (omega arith) (omega arith))),
          rw same at later,
        )

    -- If the half lists of a configuration whose atoms have the numbers from `start` on are made: the
    -- neighbors of each atom are itself or later atoms of the configuration.
    pub init_neighbors-Ahead :
        (start : ℕ) (sites : List (Site W)) (mindist low : ℕ → W) (lists : List (List (Neighbor W)))
        → g.full ≡ false
        → IsNumbered start sites
        → init_neighbors g sites sites mindist ≡ ok (lists, low)
        → Ahead start (start + length sites) lists
    init_neighbors-Ahead start sites mindist low lists half num e =
        Tables-Ahead start sites sites lists half num
          (init_neighbors-Tables g sites sites mindist low lists e)

module _ {W : Type 0} ⦃d : Double W⦄ where
  -- The atoms of a configuration have the half lists that `init_neighbors` made for them.
  pub record HasLists (start count : ℕ) (neigh : ℕ → List (Neighbor W)) : Type 0 where
    pub geometry : Geometry W
    pub sites : List (Site W)
    pub mindist : ℕ → W
    pub low : ℕ → W
    pub lists : List (List (Neighbor W))
    pub half : geometry.full ≡ false
    pub numbered : IsNumbered start sites
    pub counted : length sites ≡ count
    pub made : init_neighbors geometry sites sites mindist ≡ ok (lists, low)
    pub stored : (a : ℕ) → a < count → neigh (start + a) ≡ get_or lists a []
