-- ===== src/Config/Neighbors.antt =====
-- `init_neighbors`: the neighbor tables of a configuration. The nested loops over atoms and periodic
-- images are the list of their rounds.
pub mod Columns
pub mod Listed
pub mod Ahead
pub mod Ranges
pub mod Close
pub mod Within
pub mod Examples
use potfit.Base.{
  ℕ, zero, suc, ◌+◌, ◌-◌, ◌*◌, Bool, true, false, not, ◌&&◌, ◌||◌, List, [], ◌∷◌, ◌++◌, map, Option,
  none, some, if◌then◌else◌, ◌==◌, length, replicate, Outcome, ok, exit, ◌>>=◌, ◌>>◌, exit_if,
}
use potfit.Base.Double.{Double, zero_double, ◌⊕◌, ◌⊖◌, ◌⊗◌, ◌⊘◌}
use potfit.Base.Int.{ℤ, pos, sub_ℕ, eq_ℤ}
use potfit.Build.{Build, embedded}
use potfit.PairIndex.{paircol, pair_index}
use potfit.PotentialHeader.{Format}
use potfit.Cutoffs.{min}
use potfit.Splines.{PotTable}
use potfit.Config.{
  Failure, count_mismatch, Vector, Tensor, Slot, Neighbor, sprod, of_int, zero_slot, zero_tensor,
}
use potfit.Config.Slots.{set_neighbor_slot}

-- `#define THREEBODY` and `SLOTS` of defines.h.
abbrev pub threebody : Build → Bool
threebody b = b.meam || b.stiweb || b.tersoff || b.ang

abbrev pub slot_count : Build → ℕ
slot_count b =
    if b.adp
    then 4
    else if b.tbeam || b.meam
    then 3
    else if b.eam || b.stiweb || b.ang
    then 2
    else 1

-- The calls of `set_neighbor_slot` for a neighbor of type `type2`, each with its slot and its column.
abbrev pub embedding_columns : Build → ℕ → ℕ → List (ℕ × ℕ)
embedding_columns b n type2 =
    if embedded b
    then (1, paircol n + type2) ∷ (if b.tbeam then (2, paircol n + 2 * n + type2) ∷ [] else [])
    else []

pub columns : Build → (ntypes type1 type2 : ℕ) → List (ℕ × ℕ)
unfolding paircol pair_index
columns b n type1 type2 =
    let pair = pair_index n type1 type2 in
    ((0, pair) ∷ embedding_columns b n type2)
    ++ (if b.meam then (2, paircol n + 2 * n + pair) ∷ [] else [])
    ++ (if b.ang then (1, paircol n + pair) ∷ [] else [])
    ++ (if b.adp
        then (2, paircol n + 2 * n + pair) ∷ (3, 2 * paircol n + 2 * n + pair) ∷ []
        else [])
    ++ (if b.stiweb then (1, paircol n + pair) ∷ [] else [])

-- `for (i = -c; i <= c; i++)`.
abbrev rounds : ℕ → ℕ → List ℤ
rounds c zero = []
rounds c (suc left) = sub_ℕ (c + c - left) c ∷ rounds c left

abbrev pub span : ℕ → List ℤ
span c = rounds c (suc (c + c))

abbrev pub concat_map {ℓ κ} : {A : Type ℓ} {B : Type κ} → (A → List B) → List A → List B
concat_map f [] = []
concat_map f (x ∷ xs) = f x ++ concat_map f xs

abbrev pub Image : Type 0
Image = ℤ × ℤ × ℤ

-- The three inner loops, for the `cell_scale` of a configuration.
unfoldable pub images : (cx cy cz : ℕ) → List Image
images cx cy cz =
    concat_map (λ ix. concat_map (λ iy. map (λ iz. (ix, iy, iz)) (span cz)) (span cy)) (span cx)

-- An atom of the configuration with its number in `g_config.atoms`.
pub record Site (W : Type 0) : Type 0 where
  pub nr : ℕ
  pub type : ℕ
  pub pos : Vector W

-- What `init_neighbors` reads. `rcut` is a function of the two types.
pub record Geometry (W : Type 0) : Type 0 where
  pub build : Build
  pub ntypes : ℕ
  pub format : Format
  pub table : PotTable W
  pub truncate : W → ℕ
  pub rcut : ℕ → ℕ → W
  pub box_x : Vector W
  pub box_y : Vector W
  pub box_z : Vector W
  pub images : List Image
  -- THREEBODY, or KIM without half neighbor lists
  pub full : Bool

module _ {W : Type 0} ⦃d : Double W⦄ (g : Geometry W) where
  -- A round of the four inner loops.
  abbrev pub Visit : Type 0
  Visit = Site W × Image

  abbrev pub is_self : Site W → Visit → Bool
  is_self i (j, (ix, iy, iz)) =
      (i.nr == j.nr) && eq_ℤ ix (pos 0) && eq_ℤ iy (pos 0) && eq_ℤ iz (pos 0)

  abbrev shifted : W → Image → (Vector W → W) → W
  shifted from (ix, iy, iz) part =
      ((from ⊕ (of_int ix ⊗ part g.box_x)) ⊕ (of_int iy ⊗ part g.box_y))
      ⊕ (of_int iz ⊗ part g.box_z)

  abbrev pub difference : Site W → Visit → Vector W
  difference i (j, im) = record {
    x = shifted (j.pos.x ⊖ i.pos.x) im (λ v. v.x);
    y = shifted (j.pos.y ⊖ i.pos.y) im (λ v. v.y);
    z = shifted (j.pos.z ⊖ i.pos.z) im (λ v. v.z);
  }

  abbrev pub distance : Site W → Visit → W
  distance i v = d.sqrt (sprod (difference i v) (difference i v))

  abbrev pub in_range : Site W → Visit → Bool
  in_range i v = not (is_self i v) && d.le (distance i v) (g.rcut i.type (v.0).type)

  -- The first pass counts.
  pub count_neighbors : Site W → List Visit → ℕ
  count_neighbors i [] = 0
  count_neighbors i (v ∷ visits) =
      let others = count_neighbors i visits in if in_range i v then suc others else others

  -- The neighbor as the second pass enters it, before its slots are set.
  abbrev over : Vector W → W → Vector W
  over v r = record { x = v.x ⊘ r; y = v.y ⊘ r; z = v.z ⊘ r }

  abbrev squares : Vector W → W → Tensor W
  squares v r = record {
    xx = ((v.x ⊗ v.x) ⊗ r) ⊗ r;
    yy = ((v.y ⊗ v.y) ⊗ r) ⊗ r;
    zz = ((v.z ⊗ v.z) ⊗ r) ⊗ r;
    xy = ((v.x ⊗ v.y) ⊗ r) ⊗ r;
    yz = ((v.y ⊗ v.z) ⊗ r) ⊗ r;
    zx = ((v.z ⊗ v.x) ⊗ r) ⊗ r;
  }

  abbrev pub entered : Site W → Visit → Neighbor W
  entered i v =
      let r = distance i v in
      let dd = over (difference i v) r in
      record {
        type = (v.0).type;
        nr = (v.0).nr;
        r = r;
        r2 = r ⊗ r;
        inv_r = d.lit 1 1 ⊘ r;
        dist = record { x = dd.x ⊗ r; y = dd.y ⊗ r; z = dd.z ⊗ r };
        dist_r = dd;
        sqrdist = if g.build.adp then squares dd r else zero_tensor;
        slots = replicate (slot_count g.build) zero_slot;
        ijk_start = 0;
      }

  pub set_slots : List (ℕ × ℕ) → Neighbor W → Outcome Failure (Neighbor W)
  unfolding set_neighbor_slot
  set_slots [] n = ok n
  set_slots ((store, col) ∷ more) n =
      set_neighbor_slot g.table g.truncate g.format col n.r store n >>= set_slots more

  -- `mindist[col] = MIN(mindist[col], r)`.
  abbrev pub lowered : (ℕ → W) → ℕ → W → ℕ → W
  lowered mindist col r c = if c == col then min (mindist c) r else mindist c

  -- The second pass, with the list so far and `mindist`.
  pub fill_neighbors :
      Site W
      → List Visit
      → List (Neighbor W)
      → (ℕ → W)
      → Outcome Failure (List (Neighbor W) × (ℕ → W))
  unfolding set_slots columns
  fill_neighbors i [] neigh mindist = ok (neigh, mindist)
  fill_neighbors i (v ∷ visits) neigh mindist = elim (in_range i v) [
    | false ↦ fill_neighbors i visits neigh mindist
    | true ↦ set_slots (columns g.build g.ntypes i.type (v.0).type) (entered i v) >>= (λ n.
        fill_neighbors i visits (neigh ++ (n ∷ []))
          (lowered mindist (pair_index g.ntypes i.type (v.0).type) (distance i v)))
  ]

  abbrev pub visits_of : List (Site W) → List Visit
  visits_of js = concat_map (λ j. map (λ im. (j, im)) g.images) js

  -- The outer loop, from some atom on; `all` are the atoms of the configuration.
  unfoldable pub init_neighbors :
      (all sites : List (Site W)) → (ℕ → W) → Outcome Failure (List (List (Neighbor W)) × (ℕ → W))
  unfolding fill_neighbors count_neighbors
  init_neighbors all [] mindist = ok ([], mindist)
  init_neighbors all (i ∷ sites) mindist =
      let visits = visits_of (if g.full then all else i ∷ sites) in
      let num_neigh = count_neighbors i visits in
      fill_neighbors i visits [] mindist >>= (λ s.
        exit_if (not (num_neigh == 0) && not (num_neigh == length s.0)) count_mismatch
        >> (init_neighbors all sites s.1 >>= (λ r. ok (s.0 ∷ r.0, r.1))))
