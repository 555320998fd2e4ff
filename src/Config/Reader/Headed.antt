-- ===== src/Config/Reader/Headed.antt =====
-- The neighbor tables that `finish` makes for a configuration, whose header has been read.
use potfit.Base.{ℕ, ◌+◌, ◌<◌, ◌≡◌, refl, sym, ap, ◌∙◌, List, [], some, ok, get_or}
use mathlib.Core.Path.{subst}
use potfit.Base.Double.{Double}
use potfit.Base.Ascending.{Beside}
use potfit.Config.{Neighbor}
use potfit.Config.Box.{Frame, make_box, init_box_vectors}
use potfit.Config.Header.{Head, Reader, Source, reset_cstate, read_header}
use potfit.Config.Counts.Tally.{Reads}
use potfit.Config.Neighbors.{Site, init_neighbors}
use potfit.Config.Neighbors.Close.{IsNeighborhood}
use potfit.Config.Neighbors.Within.{init_neighbors-IsNeighborhood}
use potfit.Config.Reader.{Part, sites, with_parts, geometry}
use potfit.Config.Reader.Joined.{site_of-with_parts}
use potfit.Config.Reader.Parts.{sites-IsNumbered, length-sites}
use potfit.Config.Reader.Placed.{site_of, sites-at, Beside-at, surroundings, HasTables}

module _ {F W : Type 0} ⦃d : Double W⦄ (c : Source F W) (f₀ : F) where
  -- The header of a configuration, the box that it gives, and the state behind the atoms.
  pub record IsHeaded (r : Reader W) (made : W × Frame W) : Type 0 where
    pub lines : ℕ
    pub file : F
    pub rest : F
    pub before : Reader W
    pub behind : Reader W
    pub place : Reads c f₀ file
    pub number : before.nconf ≡ r.nconf
    pub first : before.natoms ≡ r.natoms
    pub new : before.head ≡ reset_cstate c
    pub header : read_header c lines file before ≡ ok (rest, behind)
    pub framed : make_box behind.head.box ≡ ok made
    pub head : r.head ≡ behind.head

  module _ (count : ℕ) (r : Reader W) (made : W × Frame W) (headed : IsHeaded r made)
      (scale : ℕ × ℕ × ℕ) (scaled : init_box_vectors c.ceil c.truncate c.rcutmax made.1 ≡ ok scale)
      (lists : List (List (Neighbor W))) (low : ℕ → W)
      (filled : init_neighbors
          (geometry c r.head.box scale)
          (sites r.natoms count r.atoms)
          (sites r.natoms count r.atoms)
          r.mindist
        ≡ ok (lists, low))
      (parts : List (Part W))
      (stored : (a : ℕ)
        → a < count
        → (with_parts r.natoms parts r.atoms (r.natoms + a)).neigh ≡ get_or lists a []) where
    abbrev all : List (Site W)
    all = sites r.natoms count r.atoms

    abbrev Close : Frame W → Site W → List (Neighbor W) → Type 0
    Close box =
        IsNeighborhood (surroundings c box scale.0 scale.1 scale.2) scale.0 scale.1 scale.2 all

    all-Close :
        (a : ℕ)
        → a < count
        → Close headed.behind.head.box
            (site_of (with_parts r.natoms parts r.atoms) (r.natoms + a))
            (with_parts r.natoms parts r.atoms (r.natoms + a)).neigh
    all-Close a lt =
        let every : Beside (Close r.head.box) all lists =
          init_neighbors-IsNeighborhood (geometry c r.head.box scale) scale.0 scale.1 scale.2 refl
            r.natoms all r.mindist low lists (sites-IsNumbered r.natoms count r.atoms) filled in
        let own : Close r.head.box (site_of r.atoms (r.natoms + a)) (get_or lists a []) =
          Beside-at (Close r.head.box) all lists a (site_of r.atoms (r.natoms + a)) every
            (sites-at r.natoms count a r.atoms lt) in
        let boxed : Close headed.behind.head.box (site_of r.atoms (r.natoms + a))
            (get_or lists a []) =
          subst (λ (h : Head W). Close h.box (site_of r.atoms (r.natoms + a)) (get_or lists a []))
            headed.head own in
        let placed =
          subst (λ (i : Site W). Close headed.behind.head.box i (get_or lists a []))
            (sym (site_of-with_parts r.natoms parts r.atoms a)) boxed in
        subst
          (Close headed.behind.head.box
            (site_of (with_parts r.natoms parts r.atoms) (r.natoms + a)))
          (sym (stored a lt)) placed

    pub finish-HasTables : HasTables c f₀ r.nconf r.natoms count (with_parts r.natoms parts r.atoms)
    finish-HasTables = record {
      lines = headed.lines;
      file = headed.file;
      rest = headed.rest;
      before = headed.before;
      behind = headed.behind;
      place = headed.place;
      number = headed.number;
      first = headed.first;
      new = headed.new;
      header = headed.header;
      volume = made.0;
      tbox = made.1;
      framed = headed.framed;
      cx = scale.0;
      cy = scale.1;
      cz = scale.2;
      scale = scaled;
      all = all;
      counted = length-sites r.natoms count r.atoms;
      listed = λ a lt.
          sites-at r.natoms count a r.atoms lt
          ∙ ap some (sym (site_of-with_parts r.natoms parts r.atoms a));
      close = all-Close;
    }
