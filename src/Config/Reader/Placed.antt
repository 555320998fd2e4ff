-- ===== src/Config/Reader/Placed.antt =====
-- The neighbors of the atoms of a configuration, in terms of what its header and its lines say.
use potfit.Base.{
  ℕ, zero, suc, ◌+◌, ◌<◌, ◌≡◌, sym, ap, ◌∙◌, List, [], ◌∷◌, some, ok, length, get_elem?, get_or,
  arith,
}
use mathlib.Core.Path.{subst}
use potfit.Base.Double.{Double}
use potfit.Base.Ascending.{Beside}
use potfit.Config.Box.{Frame, make_box, init_box_vectors}
use potfit.Config.Header.{ConfigAtom, Reader, Source, reset_cstate, read_header}
use potfit.Config.Counts.Tally.{Reads}
use potfit.Config.Neighbors.{Site, Geometry, images, threebody}
use potfit.Config.Neighbors.Close.{IsNeighborhood}
use potfit.Config.Reader.{sites}

module _ {W : Type 0} where
  -- An atom with its number, as the neighbor tables see it.
  abbrev pub site_of : (ℕ → ConfigAtom W) → ℕ → Site W
  site_of atoms a = record { nr = a; type = (atoms a).type; pos = (atoms a).pos }

  pub sites-at :
      (start count a : ℕ) (atoms : ℕ → ConfigAtom W)
      → a < count
      → get_elem? (sites start count atoms) a ≡ some (site_of atoms (start + a))
  sites-at start zero a atoms h = absurd (omega arith)
  sites-at start (suc count) zero atoms h =
      let same : start ≡ start + 0 = omega arith in ap (λ (k : ℕ). some (site_of atoms k)) same
  sites-at start (suc count) (suc a) atoms h =
      let same : suc start + a ≡ start + suc a = omega arith in
      sites-at (suc start) count a atoms (omega arith) ∙ ap (λ (k : ℕ). some (site_of atoms k)) same

pub Beside-at :
    {A B : Type 0} (R : A → List B → Type 0) (xs : List A) (ys : List (List B)) (a : ℕ) (x : A)
    → Beside R xs ys
    → get_elem? xs a ≡ some x
    → R x (get_or ys a [])
Beside-at R [] ys a x h e = cc
Beside-at R (z ∷ xs) [] a x h e = absurd h
Beside-at R (z ∷ xs) (y ∷ ys) zero x (h, hs) e = let same : z ≡ x = cc in subst (λ k. R k y) same h
Beside-at R (z ∷ xs) (y ∷ ys) (suc a) x (h, hs) e = Beside-at R xs ys a x hs e

module _ {F W : Type 0} ⦃d : Double W⦄ (c : Source F W) where
  -- What the neighbor tables depend on: the vectors of the box, the cutoffs, and whether the lists are
  -- whole or half.
  abbrev pub surroundings : Frame W → (cx cy cz : ℕ) → Geometry W
  surroundings box cx cy cz = record {
    build = c.build;
    ntypes = c.ntypes;
    format = c.format;
    table = c.table;
    truncate = c.truncate;
    rcut = c.rcut;
    box_x = box.along_x;
    box_y = box.along_y;
    box_z = box.along_z;
    images = images cx cy cz;
    full = threebody c.build;
  }

  -- The configuration `i`, whose `count` atoms have the numbers from `start` on: its header is read at
  -- a place of the file, from the state of a new configuration; the reciprocal vectors of the box that
  -- the header gives say how many images the cutoff reaches; and each atom has the neighbors that are
  -- close in this box, at the positions and of the types of its atoms.
  pub record HasTables (f₀ : F) (i start count : ℕ) (atoms : ℕ → ConfigAtom W) : Type 0 where
    pub lines : ℕ
    pub file : F
    pub rest : F
    pub before : Reader W
    pub behind : Reader W
    pub place : Reads c f₀ file
    pub number : before.nconf ≡ i
    pub first : before.natoms ≡ start
    pub new : before.head ≡ reset_cstate c
    pub header : read_header c lines file before ≡ ok (rest, behind)
    pub volume : W
    pub tbox : Frame W
    pub framed : make_box behind.head.box ≡ ok (volume, tbox)
    pub cx : ℕ
    pub cy : ℕ
    pub cz : ℕ
    pub scale : init_box_vectors c.ceil c.truncate c.rcutmax tbox ≡ ok (cx, cy, cz)
    pub all : List (Site W)
    pub counted : length all ≡ count
    pub listed : (a : ℕ) → a < count → get_elem? all a ≡ some (site_of atoms (start + a))
    pub close :
        (a : ℕ)
        → a < count
        → IsNeighborhood
            (surroundings behind.head.box cx cy cz)
            cx
            cy
            cz
            all
            (site_of atoms (start + a))
            (atoms (start + a)).neigh

  -- It holds of atoms that are the same.
  pub moved_tables :
      (f₀ : F) {i start start' count count' : ℕ} (atoms atoms' : ℕ → ConfigAtom W)
      → start' ≡ start
      → count' ≡ count
      → ((a : ℕ) → a < count → atoms' (start + a) ≡ atoms (start + a))
      → HasTables f₀ i start count atoms
      → HasTables f₀ i start' count' atoms'
  moved_tables f₀ {i} {start} {start'} {count} {count'} atoms atoms' es ec same h =
      rw (es, ec)
        (record {
          lines = h.lines;
          file = h.file;
          rest = h.rest;
          before = h.before;
          behind = h.behind;
          place = h.place;
          number = h.number;
          first = h.first;
          new = h.new;
          header = h.header;
          volume = h.volume;
          tbox = h.tbox;
          framed = h.framed;
          cx = h.cx;
          cy = h.cy;
          cz = h.cz;
          scale = h.scale;
          all = h.all;
          counted = h.counted;
          listed = λ a lt.
              h.listed a lt
              ∙ ap
                  (λ (o : ConfigAtom W).
                    some (record { nr = start + a; type = o.type; pos = o.pos }))
                  (sym (same a lt));
          close = λ a lt.
              subst
                (λ (o : ConfigAtom W).
                  IsNeighborhood (surroundings h.behind.head.box h.cx h.cy h.cz) h.cx h.cy h.cz
                    h.all (record { nr = start + a; type = o.type; pos = o.pos }) o.neigh)
                (sym (same a lt)) (h.close a lt);
        })
