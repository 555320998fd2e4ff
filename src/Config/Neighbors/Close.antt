-- ===== src/Config/Neighbors/Close.antt =====
-- Which neighbors an atom has, in terms of the positions, the box and the cutoff.
use potfit.Base.{ℕ, ◌≤◌, ◌<◌, ◌≡◌, ◌⊎◌, true, false, List, length}
use potfit.Base.Int.{ℤ, pos}
use potfit.Base.Double.{Double, ◌⊕◌, ◌⊖◌, ◌⊗◌, ◌⊘◌}
use potfit.Base.Ascending.{Has, Ascending, Beside}
use potfit.Config.{Vector, Neighbor, of_int}
use potfit.Config.Neighbors.{Site, Geometry, Image, slot_count}
use potfit.Config.Neighbors.Ranges.{Within, Later}

module _ {W : Type 0} ⦃d : Double W⦄ (g : Geometry W) where
  -- The vector from the atom `i` to an image of the atom `j`.
  abbrev pub between : Site W → Site W → Image → Vector W
  between i j (ix, iy, iz) = record {
    x =
        (((j.pos.x ⊖ i.pos.x) ⊕ (of_int ix ⊗ g.box_x.x)) ⊕ (of_int iy ⊗ g.box_y.x))
        ⊕ (of_int iz ⊗ g.box_z.x);
    y =
        (((j.pos.y ⊖ i.pos.y) ⊕ (of_int ix ⊗ g.box_x.y)) ⊕ (of_int iy ⊗ g.box_y.y))
        ⊕ (of_int iz ⊗ g.box_z.y);
    z =
        (((j.pos.z ⊖ i.pos.z) ⊕ (of_int ix ⊗ g.box_x.z)) ⊕ (of_int iy ⊗ g.box_y.z))
        ⊕ (of_int iz ⊗ g.box_z.z);
  }

  abbrev pub norm : Vector W → W
  norm v = d.sqrt (((v.x ⊗ v.x) ⊕ (v.y ⊗ v.y)) ⊕ (v.z ⊗ v.z))

  -- An atom of the configuration, from `i` on in a half list, and an image of it that the loops reach,
  -- other than `i` itself, within the cutoff of the two types.
  pub record IsClose (cx cy cz : ℕ) (all : List (Site W)) (i j : Site W) (ix iy iz : ℤ)
      : Type 0 where
    pub listed : Has j all
    pub half : g.full ≡ false → i.nr ≤ j.nr
    pub along_x : Within cx ix
    pub along_y : Within cy iy
    pub along_z : Within cz iz
    pub other : ¬ ((i.nr ≡ j.nr) × (ix ≡ pos 0) × (iy ≡ pos 0) × (iz ≡ pos 0))
    pub near : d.le (norm (between i j (ix, iy, iz))) (g.rcut i.type j.type) ≡ true

  -- A neighbor with the distance and the vectors to this image.
  pub record IsNeighbor (i : Site W) (v : Site W × Image) (n : Neighbor W) : Type 0 where
    pub type : n.type ≡ (v.0).type
    pub nr : n.nr ≡ (v.0).nr
    pub r : n.r ≡ norm (between i v.0 v.1)
    pub r2 : n.r2 ≡ n.r ⊗ n.r
    pub inv_r : n.inv_r ≡ d.lit 1 1 ⊘ n.r
    pub dist_r :
        let at = between i v.0 v.1 in
        n.dist_r ≡ record { x = at.x ⊘ n.r; y = at.y ⊘ n.r; z = at.z ⊘ n.r }
    pub dist : n.dist ≡ record { x = n.dist_r.x ⊗ n.r; y = n.dist_r.y ⊗ n.r; z = n.dist_r.z ⊗ n.r }
    pub sqrdist :
        g.build.adp ≡ true
        → n.sqrdist ≡ record {
          xx = ((n.dist_r.x ⊗ n.dist_r.x) ⊗ n.r) ⊗ n.r;
          yy = ((n.dist_r.y ⊗ n.dist_r.y) ⊗ n.r) ⊗ n.r;
          zz = ((n.dist_r.z ⊗ n.dist_r.z) ⊗ n.r) ⊗ n.r;
          xy = ((n.dist_r.x ⊗ n.dist_r.y) ⊗ n.r) ⊗ n.r;
          yz = ((n.dist_r.y ⊗ n.dist_r.z) ⊗ n.r) ⊗ n.r;
          zx = ((n.dist_r.z ⊗ n.dist_r.x) ⊗ n.r) ⊗ n.r;
        }
    pub slots : length n.slots ≡ slot_count g.build

  -- Two of them in the order of the loops: by the number of the atom, then by the image.
  abbrev pub Earlier : Site W × Image → Site W × Image → Type 0
  Earlier u v = ((u.0).nr < (v.0).nr) ⊎ ((u.0 ≡ v.0) × Later u.1 v.1)

  -- The neighbors of an atom are all that are close, each once and in the order of the loops.
  pub record IsNeighborhood (cx cy cz : ℕ) (all : List (Site W)) (i : Site W)
      (neigh : List (Neighbor W)) : Type 0 where
    pub close : List (Site W × Image)
    pub ascending : Ascending Earlier close
    pub only :
        (j : Site W) (ix iy iz : ℤ)
        → Has {A = Site W × Image} (j, (ix, iy, iz)) close
        → IsClose cx cy cz all i j ix iy iz
    pub every :
        (j : Site W) (ix iy iz : ℤ)
        → IsClose cx cy cz all i j ix iy iz
        → Has {A = Site W × Image} (j, (ix, iy, iz)) close
    pub entries : Beside (IsNeighbor i) close neigh
