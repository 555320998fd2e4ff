-- ===== src/Config/Neighbors/Within.antt =====
-- The neighbor tables hold the neighbors that are close.
use potfit.Base.{
  ℕ, suc, ◌≤◌, ◌<◌, ◌≡◌, ◌⊎◌, refl, sym, ap, ◌∙◌, Bool, true, false, not, ◌&&◌, List, [], ◌∷◌, All,
  All-map, if◌then◌else◌, ◌==◌, length-replicate, ok, arith, Bool-cases, inl, inr,
}
use mathlib.Core.Path.{subst}
use potfit.Base.Int.{ℤ, pos, negsuc, eq_ℤ}
use potfit.Base.Double.{Double}
use potfit.Base.Ascending.{Has, Ascending, Beside, All-Has}
use potfit.Config.{Neighbor}
use potfit.Config.Neighbors.{
  Site, Geometry, Visit, Image, images, is_self, in_range, visits_of, slot_count, init_neighbors,
}
use potfit.Config.Neighbors.Close.{between, norm, IsNeighbor, Earlier, IsNeighborhood}
use potfit.Config.Neighbors.Listed.{kept, Lists, Tables, init_neighbors-Tables}
use potfit.Config.Neighbors.Ahead.{IsNumbered}
use potfit.Config.Neighbors.Ranges.{
  Later, images-Ascending, images-Has, Has-images, Has-nested, nested-Has, nested-Ascending,
}

module _ {W : Type 0} ⦃d : Double W⦄ (g : Geometry W) where
  same_zero : (x : ℤ) → eq_ℤ x (pos 0) ≡ true → x ≡ pos 0
  same_zero (pos n) h = ground arith
  same_zero (negsuc n) h = ground arith

  both : (a b : Bool) → (a && b) ≡ true → (a ≡ true) × (b ≡ true)
  both true true h = (refl, refl)
  both true false h = cc
  both false b h = cc

  self_of :
      (i j : Site W) (ix iy iz : ℤ)
      → is_self g i (j, (ix, iy, iz)) ≡ true
      → (i.nr ≡ j.nr) × (ix ≡ pos 0) × (iy ≡ pos 0) × (iz ≡ pos 0)
  self_of i j ix iy iz h =
      let a = i.nr == j.nr in
      let x = eq_ℤ ix (pos 0) in
      let y = eq_ℤ iy (pos 0) in
      let z = eq_ℤ iz (pos 0) in
      let (h1, hz) = both (a && x && y) z h in
      let (h2, hy) = both (a && x) y h1 in
      let (h3, hx) = both a x h2 in
      (ground (arith, h3), same_zero ix hx, same_zero iy hy, same_zero iz hz)

  of_self :
      (i j : Site W) (ix iy iz : ℤ)
      → (i.nr ≡ j.nr) × (ix ≡ pos 0) × (iy ≡ pos 0) × (iz ≡ pos 0)
      → is_self g i (j, (ix, iy, iz)) ≡ true
  of_self i j ix iy iz (e, ex, ey, ez) =
      let same : (i.nr == j.nr) ≡ true = ground (arith, e) in rw (ex, ey, ez, same) refl

  -- The tests of the loops are the conditions.
  reached :
      (i j : Site W) (ix iy iz : ℤ)
      → in_range g i (j, (ix, iy, iz)) ≡ true
      → (¬ ((i.nr ≡ j.nr) × (ix ≡ pos 0) × (iy ≡ pos 0) × (iz ≡ pos 0)))
        × (d.le (norm g (between g i j (ix, iy, iz))) (g.rcut i.type j.type) ≡ true)
  reached i j ix iy iz h =
      let (a, b) = both (not (is_self g i (j, (ix, iy, iz)))) _ h in
      (λ self. let is = of_self i j ix iy iz self in cc, b)

  reaches :
      (i j : Site W) (ix iy iz : ℤ)
      → ¬ ((i.nr ≡ j.nr) × (ix ≡ pos 0) × (iy ≡ pos 0) × (iz ≡ pos 0))
      → d.le (norm g (between g i j (ix, iy, iz))) (g.rcut i.type j.type) ≡ true
      → in_range g i (j, (ix, iy, iz)) ≡ true
  reaches i j ix iy iz other near = elim (Bool-cases (is_self g i (j, (ix, iy, iz)))) [
    | inl self ↦ absurd (other (self_of i j ix iy iz self))
    | inr no_self ↦ rw (no_self, near) refl
  ]

  -- The rounds that are kept are those within range.
  Has-kept :
      (i : Site W) (v : Visit g) (vs : List (Visit g))
      → Has v (kept g i vs)
      → Has v vs × (in_range g i v ≡ true)
  unfolding kept
  Has-kept i v [] h = absurd h
  Has-kept i v (u ∷ vs) h = elim (Bool-cases (in_range g i u)) [
    | inl t ↦
        let h' : (v ≡ u) ⊎ Has v (kept g i vs) = rw t at h in
        elim h' [ inl e ↦ (inl e, rw e t) | inr k ↦ let (m, r) = Has-kept i v vs k in (inr m, r) ]
    | inr f ↦
        let h' : Has v (kept g i vs) = rw f at h in let (m, r) = Has-kept i v vs h' in (inr m, r)
  ]

  kept-Has :
      (i : Site W) (v : Visit g) (vs : List (Visit g))
      → Has v vs
      → in_range g i v ≡ true
      → Has v (kept g i vs)
  unfolding kept
  kept-Has i v [] h r = absurd h
  kept-Has i v (u ∷ vs) (inl e) r = let t : in_range g i u ≡ true = rw e at r in rw t (inl e)
  kept-Has i v (u ∷ vs) (inr h) r = elim (Bool-cases (in_range g i u)) [
    | inl t ↦ rw t (inr (kept-Has i v vs h r))
    | inr f ↦ rw f (kept-Has i v vs h r)
  ]

  kept-All :
      (P : Visit g → Type 0) (i : Site W) (vs : List (Visit g)) → All P vs → All P (kept g i vs)
  unfolding kept
  kept-All P i [] h = tt
  kept-All P i (v ∷ vs) (h, hs) = elim (Bool-cases (in_range g i v)) [
    | inl t ↦ rw t (h, kept-All P i vs hs)
    | inr f ↦ rw f (kept-All P i vs hs)
  ]

  kept-Ascending :
      (i : Site W) (vs : List (Visit g))
      → Ascending (Earlier g) vs
      → Ascending (Earlier g) (kept g i vs)
  unfolding kept
  kept-Ascending i [] h = tt
  kept-Ascending i (v ∷ vs) (h, hs) = elim (Bool-cases (in_range g i v)) [
    | inl t ↦ rw t (kept-All (Earlier g v) i vs h, kept-Ascending i vs hs)
    | inr f ↦ rw f (kept-Ascending i vs hs)
  ]

  Lists-Beside :
      (i : Site W) (vs : List (Visit g)) (ns : List (Neighbor W))
      → Lists g i vs ns
      → Beside (IsNeighbor g i) vs ns
  Lists-Beside i [] [] h = tt
  Lists-Beside i [] (n ∷ ns) h = absurd h
  Lists-Beside i (v ∷ vs) [] h = absurd h
  Lists-Beside i (v ∷ vs) (n ∷ ns) (e, l, h) = (
    rw e record {
      type = refl;
      nr = refl;
      r = refl;
      r2 = refl;
      inv_r = refl;
      dist_r = refl;
      dist = refl;
      sqrdist = λ adp. rw adp refl;
      slots = l ∙ length-replicate (slot_count g.build) _;
    },
    Lists-Beside i vs ns h,
  )

  numbered-from :
      (start : ℕ) (js : List (Site W)) → IsNumbered start js → All (λ j. start ≤ j.nr) js
  numbered-from start [] h = tt
  numbered-from start (j ∷ js) (e, h) = (
    omega (arith, e),
    All-map (λ k. suc start ≤ k.nr) (λ k. start ≤ k.nr) js (λ k l. omega arith)
        (numbered-from (suc start) js h),
  )

  numbered-Ascending :
      (start : ℕ) (js : List (Site W)) → IsNumbered start js → Ascending (λ a b. a.nr < b.nr) js
  numbered-Ascending start [] h = tt
  numbered-Ascending start (j ∷ js) (e, h) = (
    All-map (λ k. suc start ≤ k.nr) (λ k. j.nr < k.nr) js (λ k l. omega (arith, e))
        (numbered-from (suc start) js h),
    numbered-Ascending (suc start) js h,
  )

  own :
      (start : ℕ) (i : Site W) (sites : List (Site W))
      → i.nr ≡ start
      → All (λ j. suc start ≤ j.nr) sites
      → (j : Site W) → Has j (i ∷ sites)
      → i.nr ≤ j.nr
  own start i sites e behind j (inl same) =
      let nr : j.nr ≡ i.nr = ap (λ (k : Site W). k.nr) same in omega (arith, nr)
  own start i sites e behind j (inr h) =
      let above = All-Has (λ (k : Site W). suc start ≤ k.nr) j sites behind h in omega (arith, e)

  -- The atoms that the loop over `j` runs through.
  abbrev Runs : (all : List (Site W)) (i : Site W) (js : List (Site W)) → Type 0
  Runs all i js =
      ((j : Site W) → Has j js → Has j all × (g.full ≡ false → i.nr ≤ j.nr))
      × ((j : Site W) → Has j all → (g.full ≡ false → i.nr ≤ j.nr) → Has j js)

  module _ (cx cy cz : ℕ) (reach : g.images ≡ images cx cy cz) where
    neighborhood :
        (low : ℕ) (all js : List (Site W)) (i : Site W) (neigh : List (Neighbor W))
        → IsNumbered low js
        → Runs all i js
        → Lists g i (kept g i (visits_of g js)) neigh
        → IsNeighborhood g cx cy cz all i neigh
    neighborhood low all js i neigh numbered (inside, outside) lists =
        let ordered : Ascending Later g.images = rw reach (images-Ascending cx cy cz) in
        record {
          close = kept g i (visits_of g js);
          ascending = kept-Ascending i (visits_of g js) (
              nested-Ascending (λ a b. a.nr < b.nr) Later js g.images
                (numbered-Ascending low js numbered) ordered);
          only = λ j ix iy iz h.
              let (seen, range) = Has-kept i (j, (ix, iy, iz)) (visits_of g js) h in
              let (candidate, image) = Has-nested j (ix, iy, iz) js g.images seen in
              let (lx, ly, lz) = Has-images cx cy cz ix iy iz (rw reach at image) in
              let (listed, half) = inside j candidate in
              let (other, near) = reached i j ix iy iz range in
              record {
                listed = listed;
                half = half;
                along_x = lx;
                along_y = ly;
                along_z = lz;
                other = other;
                near = near;
              };
          every = λ j ix iy iz c.
              let image : Has {A = Image} (ix, iy, iz) g.images =
                rw reach (images-Has cx cy cz ix iy iz c.along_x c.along_y c.along_z) in
              kept-Has i (j, (ix, iy, iz)) (visits_of g js)
                (nested-Has j (ix, iy, iz) js g.images (outside j c.listed c.half) image)
                (reaches i j ix iy iz c.other c.near);
          entries = Lists-Beside i (kept g i (visits_of g js)) neigh lists;
        }

    neighborhoods :
        (low start : ℕ) (all sites : List (Site W)) (lists : List (List (Neighbor W)))
        → IsNumbered low all
        → IsNumbered start sites
        → ((j : Site W) → Has j sites → Has j all)
        → ((j : Site W) → Has j all → start ≤ j.nr → Has j sites)
        → Tables g all sites lists
        → Beside (IsNeighborhood g cx cy cz all) sites lists
    neighborhoods low start all [] [] whole num into back t = tt
    neighborhoods low start all [] (l ∷ ls) whole num into back t = absurd t
    neighborhoods low start all (i ∷ sites) [] whole num into back t = absurd t
    neighborhoods low start all (i ∷ sites) (l ∷ ls) whole (e, num) into back (t, ts) =
        let behind = numbered-from (suc start) sites num in
        let later : (j : Site W) → Has j all → suc start ≤ j.nr → Has j sites = λ j h le.
          elim (back j h (omega arith)) [
            | inl same ↦
                let nr : j.nr ≡ i.nr = ap (λ (k : Site W). k.nr) same in
                absurd (omega (arith, nr, e))
            | inr k ↦ k
          ] in
        (
          elim (Bool-cases g.full) [
            | inl full ↦
                neighborhood low all all i l whole
                  (λ j h. (h, λ half. let no : true ≡ false = sym full ∙ half in cc), λ j h half. h)
                  (subst
                    (λ (b : Bool).
                      Lists g i (kept g i (visits_of g (if b then all else i ∷ sites))) l)
                    full t)
            | inr half ↦
                neighborhood start all (i ∷ sites) i l (e, num)
                  (
                    λ j h. (into j h, λ _. own start i sites e behind j h),
                    λ j h le. back j h (let le' = le half in omega (arith, e)),
                  )
                  (subst
                    (λ (b : Bool).
                      Lists g i (kept g i (visits_of g (if b then all else i ∷ sites))) l)
                    half t)
          ],
          neighborhoods low (suc start) all sites ls whole num (λ j h. into j (inr h)) later ts,
        )

    -- If the neighbor tables of a configuration are made, whose atoms are numbered in a row and whose
    -- loops over images run from minus `cell_scale` to `cell_scale`: the neighbors of each atom are
    -- exactly the images of atoms, from itself on in a half list, at a distance of at most the cutoff of
    -- the two types, but for itself; each comes once and in the order of the loops, with its type,
    -- number, distance and vectors.
    pub init_neighbors-IsNeighborhood :
        (low : ℕ) (all : List (Site W)) (mindist low_dist : ℕ → W)
        (lists : List (List (Neighbor W)))
        → IsNumbered low all
        → init_neighbors g all all mindist ≡ ok (lists, low_dist)
        → Beside (IsNeighborhood g cx cy cz all) all lists
    init_neighbors-IsNeighborhood low all mindist low_dist lists num e =
        neighborhoods low low all all lists num num (λ j h. h) (λ j h le. h)
          (init_neighbors-Tables g all all mindist low_dist lists e)
