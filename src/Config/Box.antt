-- ===== src/Config/Box.antt =====
-- `make_box` and `init_box_vectors`: the volume and the reciprocal vectors of a box, and how many periodic
-- images of it the cutoff reaches; with `vec_prod` of utils.c.
use potfit.Base.{ℕ, ◌||◌, Outcome, ok, ◌>>◌, exit_if}
use potfit.Base.Double.{Double, gt, zero_double, ◌⊖◌, ◌⊗◌, ◌⊘◌}
use potfit.Config.{Failure, parallel_edges, tiny_cell, Vector, sprod}

-- The three vectors of a box, or the three reciprocal ones.
pub record Frame (W : Type 0) : Type 0 where
  pub along_x : Vector W
  pub along_y : Vector W
  pub along_z : Vector W

module _ {W : Type 0} ⦃d : Double W⦄ where
  abbrev vec_prod : Vector W → Vector W → Vector W
  vec_prod u v = record {
    x = (u.y ⊗ v.z) ⊖ (u.z ⊗ v.y);
    y = (u.z ⊗ v.x) ⊖ (u.x ⊗ v.z);
    z = (u.x ⊗ v.y) ⊖ (u.y ⊗ v.x);
  }

  abbrev shrunk : Vector W → W → Vector W
  shrunk v volume = record { x = v.x ⊘ volume; y = v.y ⊘ volume; z = v.z ⊘ volume }

  unfoldable pub make_box : Frame W → Outcome Failure (W × Frame W)
  make_box box =
      let tbox_x = vec_prod box.along_y box.along_z in
      let tbox_y = vec_prod box.along_z box.along_x in
      let tbox_z = vec_prod box.along_x box.along_y in
      let volume = sprod box.along_x tbox_x in
      let tbox : Frame W = record {
        along_x = shrunk tbox_x volume;
        along_y = shrunk tbox_y volume;
        along_z = shrunk tbox_z volume;
      } in
      exit_if (d.eq zero_double volume) parallel_edges >> ok (volume, tbox)

  -- `ceil` is the function of math.h, `truncate` the conversion to int.
  module _ (ceil : W → W) (truncate : W → ℕ) (rcutmax : W) where
    abbrev reach : Vector W → W
    reach tbox = ceil (rcutmax ⊗ d.sqrt (sprod tbox tbox))

    -- `cell_scale`.
    unfoldable pub init_box_vectors : Frame W → Outcome Failure (ℕ × ℕ × ℕ)
    init_box_vectors tbox =
        let most = d.lit 30000 1 in
        exit_if
          (gt (reach tbox.along_x) most
            || gt (reach tbox.along_y) most
            || gt (reach tbox.along_z) most)
          tiny_cell
        >> ok (
          truncate (reach tbox.along_x),
          truncate (reach tbox.along_y),
          truncate (reach tbox.along_z),
        )
