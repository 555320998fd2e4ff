-- ===== src/Config/Reader/Joined.antt =====
-- Where the atoms of the configurations lie that `read_config` has read, and which neighbor lists they
-- have.
use potfit.Base.{
  ℕ, ◌+◌, ◌-◌, ◌≤◌, ◌<◌, ◌≡◌, refl, ap, ◌∙◌, false, List, arith, get_or, ltb, lt→ltb, inl, inr, ◌⊎◌,
}
use potfit.Base.Double.{Double}
use potfit.Config.{Neighbor}
use potfit.Config.Header.{ConfigAtom, Reader, Source}
use potfit.Config.Header.Kept.{Keeps}
use potfit.Config.Neighbors.Ahead.{HasLists}
use potfit.Config.Reader.Placed.{site_of, HasTables, moved_tables}
use potfit.Config.Reader.{Part, with_parts}

module _ {W : Type 0} ⦃d : Double W⦄ where
  pub moved :
      {start start' count count' : ℕ} (neigh neigh' : ℕ → List (Neighbor W))
      → start' ≡ start
      → count' ≡ count
      → ((a : ℕ) → a < count → neigh' (start + a) ≡ neigh (start + a))
      → HasLists start count neigh
      → HasLists start' count' neigh'
  moved {start} {start'} {count} {count'} neigh neigh' es ec same h =
      rw (es, ec)
        (record {
          geometry = h.geometry;
          sites = h.sites;
          mindist = h.mindist;
          low = h.low;
          lists = h.lists;
          half = h.half;
          numbered = h.numbered;
          counted = h.counted;
          made = h.made;
          stored = λ a lt. same a lt ∙ h.stored a lt;
        })

  with_parts-below :
      (start : ℕ) (parts : List (Part W)) (atoms : ℕ → ConfigAtom W) (a : ℕ)
      → a < start
      → with_parts start parts atoms a ≡ atoms a
  with_parts-below start parts atoms a h = let below = lt→ltb a start h in rw below refl

  pub with_parts-at :
      (start : ℕ) (parts : List (Part W)) (atoms : ℕ → ConfigAtom W) (a : ℕ)
      → let at = atoms (start + a) in
        (with_parts start parts atoms (start + a)).neigh
        ≡ (get_or parts a (at.neigh, at.angle_part)).0
  with_parts-at start parts atoms a =
      let above : ltb (start + a) start ≡ false = ground arith in
      let back : start + a - start ≡ a = omega arith in rw (above, back) refl

  -- Types and positions stay.
  pub site_of-with_parts :
      (start : ℕ) (parts : List (Part W)) (atoms : ℕ → ConfigAtom W) (a : ℕ)
      → site_of (with_parts start parts atoms) (start + a) ≡ site_of atoms (start + a)
  site_of-with_parts start parts atoms a =
      let above : ltb (start + a) start ≡ false = ground arith in rw above refl

module _ {F W : Type 0} ⦃d : Double W⦄ (c : Source F W) (f₀ : F) where
  -- The configurations lie one behind the other below `natoms`, with half lists of neighbors, which are
  -- the atoms that are close.
  pub record IsRead (r : Reader W) : Type 0 where
    pub behind : (i j : ℕ) → i < j → j < r.nconf → r.cnfstart i + r.inconf i ≤ r.cnfstart j
    pub inside : (i : ℕ) → i < r.nconf → r.cnfstart i + r.inconf i ≤ r.natoms
    pub lists :
        (i : ℕ) → i < r.nconf → HasLists (r.cnfstart i) (r.inconf i) (λ a. (r.atoms a).neigh)
    pub tables : (i : ℕ) → i < r.nconf → HasTables c f₀ i (r.cnfstart i) (r.inconf i) r.atoms

  pub IsRead-Keeps : (r r' : Reader W) → Keeps r r' → IsRead r → IsRead r'
  IsRead-Keeps r r' (n, m, i, s, same) h =
      let start : (k : ℕ) → r'.cnfstart k ≡ r.cnfstart k = λ k. ap (λ (f : ℕ → ℕ). f k) s in
      let count : (k : ℕ) → r'.inconf k ≡ r.inconf k = λ k. ap (λ (f : ℕ → ℕ). f k) i in
      record {
        behind = λ a b lt k.
            let before = h.behind a b lt (omega (arith, m)) in
            omega (arith, start a, start b, count a);
        inside = λ a lt.
            let in_bounds = h.inside a (omega (arith, m)) in omega (arith, start a, count a, n);
        lists = λ a lt.
            let in_bounds = h.inside a (omega (arith, m)) in
            moved (λ k. (r.atoms k).neigh) (λ k. (r'.atoms k).neigh) (start a) (count a)
              (λ k lt. ap (λ (o : ConfigAtom W). o.neigh) (same (r.cnfstart a + k) (omega arith)))
              (h.lists a (omega (arith, m)));
        tables = λ a lt.
            let in_bounds = h.inside a (omega (arith, m)) in
            moved_tables c f₀ r.atoms r'.atoms (start a) (count a)
              (λ k lt. same (r.cnfstart a + k) (omega arith)) (h.tables a (omega (arith, m)));
      }

  -- A configuration that has been read joins those before it.
  pub joined :
      (r : Reader W) (count : ℕ) (parts : List (Part W)) (mindist : ℕ → W)
      → r.inconf r.nconf ≡ count
      → r.cnfstart r.nconf ≡ r.natoms
      → HasLists r.natoms count (λ a. (with_parts r.natoms parts r.atoms a).neigh)
      → HasTables c f₀ r.nconf r.natoms count (with_parts r.natoms parts r.atoms)
      → IsRead r
      → IsRead (record r {
        atoms = with_parts r.natoms parts r.atoms;
        mindist = mindist;
        natoms = r.natoms + count;
        nconf = r.nconf + 1;
      })
  joined r count parts mindist many start made close h =
      let old : (i : ℕ) → i < r.nconf + 1 → (i < r.nconf) ⊎ (i ≡ r.nconf) = λ i lt. ground arith in
      record {
        behind = λ i j lt k.
            let before = h.inside i (omega arith) in
            elim (old j k) [ inl k' ↦ h.behind i j lt k' | inr same ↦ rw (same, start) before ];
        inside = λ i lt. elim (old i lt) [
          | inl lt' ↦ let in_bounds = h.inside i lt' in omega arith
          | inr same ↦
              let own : r.cnfstart i + r.inconf i ≡ r.natoms + count =
                rw (same, start, many) refl in
              omega arith
        ];
        lists = λ i lt. elim (old i lt) [
          | inl lt' ↦
              let in_bounds = h.inside i lt' in
              moved (λ k. (r.atoms k).neigh) (λ k. (with_parts r.natoms parts r.atoms k).neigh) refl
                refl
                (λ k lk.
                  ap (λ (o : ConfigAtom W). o.neigh)
                    (with_parts-below r.natoms parts r.atoms (r.cnfstart i + k) (omega arith)))
                (h.lists i lt')
          | inr same ↦ rw (same, start, many) made
        ];
        tables = λ i lt. elim (old i lt) [
          | inl lt' ↦
              let in_bounds = h.inside i lt' in
              moved_tables c f₀ r.atoms (with_parts r.natoms parts r.atoms) refl refl
                (λ k lk. with_parts-below r.natoms parts r.atoms (r.cnfstart i + k) (omega arith))
                (h.tables i lt')
          | inr same ↦ rw (same, start, many) close
        ];
      }
