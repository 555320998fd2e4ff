-- ===== src/Config/Reader/Parts.antt =====
-- The atoms, the neighbor lists and the angles of a configuration while `read_config` reads it.
use potfit.Base.{
  ℕ, zero, suc, ◌+◌, ◌<◌, ◌≡◌, ◌≢◌, refl, sym, ap, ◌∙◌, false, List, [], ◌∷◌, Outcome, ok, exit,
  through, arith, fetched, length, get_or,
}
use potfit.Base.Double.{Double}
use potfit.Config.{Neighbor}
use potfit.Config.Header.{Failure, tables, lift, corrupt_atom, ConfigAtom, Reader, Source, update}
use potfit.Config.Header.Kept.{Keeps, Keeps-refl, Keeps-trans}
use potfit.Config.Neighbors.{threebody, Site, Geometry}
use potfit.Config.Neighbors.Ahead.{IsNumbered}
use potfit.Config.Neighbors.Listed.{Tables}
use potfit.Config.Angles.{init_angles}
use potfit.Config.Reader.{checked, stored, read_atoms, sites, Part, angle_parts}

pub update_self : {A : Type 0} (f : ℕ → A) (k : ℕ) (v : A) → update f k v k ≡ v
unfolding update
update_self f k v = ground arith

pub update_other : {A : Type 0} (f : ℕ → A) (k : ℕ) (v : A) (i : ℕ) → i ≢ k → update f k v i ≡ f i
unfolding update
update_other f k v i h = ground (arith, h)

pub get_or_inside :
    {A : Type 0} (xs : List A) (i : ℕ) (x y : A) → i < length xs → get_or xs i x ≡ get_or xs i y
get_or_inside [] i x y h = absurd (omega arith)
get_or_inside (z ∷ xs) zero x y h = refl
get_or_inside (z ∷ xs) (suc i) x y h = get_or_inside xs i x y (omega arith)

pub lifted : {E A : Type 0} (f : E → Failure) (m : Outcome E A) (a : A) → lift f m ≡ ok a → m ≡ ok a
lifted f (exit reason) a e = cc
lifted f (ok b) a e = cc

pub ok_same : {A : Type 0} {a b : A} → let m : Outcome Failure A = ok a in m ≡ ok b → a ≡ b
ok_same e = cc

module _ {W : Type 0} ⦃d : Double W⦄ where
  pub sites-IsNumbered :
      (start left : ℕ) (atoms : ℕ → ConfigAtom W) → IsNumbered start (sites start left atoms)
  sites-IsNumbered start zero atoms = tt
  sites-IsNumbered start (suc left) atoms = (refl, sites-IsNumbered (suc start) left atoms)

  pub length-sites :
      (start left : ℕ) (atoms : ℕ → ConfigAtom W) → length (sites start left atoms) ≡ left
  length-sites start zero atoms = refl
  length-sites start (suc left) atoms = ap suc (length-sites (suc start) left atoms)

  pub length-tables :
      (g : Geometry W) (all sites : List (Site W)) (lists : List (List (Neighbor W)))
      → Tables g all sites lists
      → length lists ≡ length sites
  length-tables g all [] [] h = refl
  length-tables g all [] (l ∷ lists) h = absurd h
  length-tables g all (i ∷ sites) [] h = absurd h
  length-tables g all (i ∷ sites) (l ∷ lists) (h, hs) = ap suc (length-tables g all sites lists hs)

module _ {F W : Type 0} ⦃d : Double W⦄ (c : Source F W) where
  pub read_atoms-Keeps :
      (i left : ℕ) (f f' : F) (r r' : Reader W) → read_atoms c i left f r ≡ ok (f', r') → Keeps r r'
  unfolding read_atoms
  read_atoms-Keeps i zero f f' r r' e = let same : r ≡ r' = cc in rw (← same) (Keeps-refl r)
  read_atoms-Keeps i (suc left) f f' r r' e =
      let (got, _, e1) = fetched (c.scan_atom f) corrupt_atom _ (f', r') e in
      let (type, _, e2) = through (checked c (got.0).0) _ (f', r') e1 in
      let s = stored c i type (got.0).1 (got.0).2 r in
      let own : Keeps r s = (
        refl,
        refl,
        refl,
        refl,
        λ a lt. update_other r.atoms (r.natoms + i) _ a (λ h. omega arith),
      ) in
      Keeps-trans r s r' own (read_atoms-Keeps (i + 1) left got.1 f' s r' e2)

  pub read_atoms-head :
      (i left : ℕ) (f f' : F) (r r' : Reader W)
      → read_atoms c i left f r ≡ ok (f', r')
      → r'.head ≡ r.head
  unfolding read_atoms
  read_atoms-head i zero f f' r r' e = let same : r ≡ r' = cc in rw (← same) refl
  read_atoms-head i (suc left) f f' r r' e =
      let (got, _, e1) = fetched (c.scan_atom f) corrupt_atom _ (f', r') e in
      let (type, _, e2) = through (checked c (got.0).0) _ (f', r') e1 in
      let s = stored c i type (got.0).1 (got.0).2 r in read_atoms-head (i + 1) left got.1 f' s r' e2

  -- Without a three-body interaction the lists stay as they are.
  pub angle_parts-at :
      (lists : List (List (Neighbor W))) (parts : List (Part W)) (i : ℕ) (x : Part W)
      → threebody c.build ≡ false
      → angle_parts c lists ≡ ok parts
      → (get_or parts i x).0 ≡ get_or lists i x.0
  unfolding angle_parts init_angles
  angle_parts-at [] parts i x two e = let same : [] ≡ parts = cc in rw (← same) refl
  angle_parts-at (l ∷ lists) parts i x two e =
      let (part, e1, e2) =
        through (lift tables (init_angles c.build c.format c.table.end c.acos l)) _ parts e in
      let (more, e3, e4) = through (angle_parts c lists) (λ more. ok (part ∷ more)) parts e2 in
      let plain : init_angles c.build c.format c.table.end c.acos l ≡ ok (l, []) = rw two refl in
      let made : ok part ≡ ok (l, []) =
        sym (lifted tables (init_angles c.build c.format c.table.end c.acos l) part e1) ∙ plain in
      let own : part ≡ (l, []) = cc in
      let all : part ∷ more ≡ parts = cc in
      rw (← all) (elim i as (λ i. (get_or (part ∷ more) i x).0 ≡ get_or (l ∷ lists) i x.0) [
        | zero ↦ rw own refl
        | suc i' ↦ angle_parts-at lists more i' x two e3
      ])
