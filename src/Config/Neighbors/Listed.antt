-- ===== src/Config/Neighbors/Listed.antt =====
-- What the neighbor tables hold.
use potfit.Base.{
  ℕ, suc, ◌≡◌, ◌≢◌, refl, sym, ap, ◌∙◌, false, not, ◌&&◌, List, [], ◌∷◌, ◌++◌, if◌then◌else◌, ◌==◌,
  length, ok, exit, ◌>>=◌, ◌>>◌, exit_if, through, stopped, passed, arith, Bool-cases, inl, inr,
}
use mathlib.Core.List.{append-nil, append_assoc}
use potfit.Base.Double.{Double}
use potfit.PairIndex.{pair_index}
use potfit.Config.{count_mismatch, Neighbor}
use potfit.Config.Slots.{set_neighbor_slot, set_neighbor_slot-keeps, set_neighbor_slot-ne-mismatch}
use potfit.Config.Neighbors.{
  Site, Geometry, Visit, in_range, distance, entered, lowered, columns, set_slots, count_neighbors,
  fill_neighbors, visits_of, init_neighbors,
}

module _ {W : Type 0} ⦃d : Double W⦄ (g : Geometry W) where
  -- The rounds in which the atom `i` gets a neighbor.
  unfoldable pub kept : Site W → List (Visit g) → List (Visit g)
  kept i [] = []
  kept i (v ∷ visits) = if in_range g i v then v ∷ kept i visits else kept i visits

  -- The neighbors are those of the rounds, one for each and in their order; the slots are another matter.
  abbrev pub Lists : Site W → List (Visit g) → List (Neighbor W) → Type 0
  Lists i [] [] = Unit
  Lists i [] (n ∷ neigh) = ⊥
  Lists i (v ∷ visits) [] = ⊥
  Lists i (v ∷ visits) (n ∷ neigh) =
      (n ≡ record (entered g i v) { slots = n.slots })
      × (length n.slots ≡ length (entered g i v).slots)
      × Lists i visits neigh

  length-Lists :
      (i : Site W) (vs : List (Visit g)) (ns : List (Neighbor W))
      → Lists i vs ns
      → length ns ≡ length vs
  length-Lists i [] [] h = refl
  length-Lists i [] (n ∷ ns) h = absurd h
  length-Lists i (v ∷ vs) [] h = absurd h
  length-Lists i (v ∷ vs) (n ∷ ns) (e, l, h) = ap suc (length-Lists i vs ns h)

  count_neighbors-kept :
      (i : Site W) (visits : List (Visit g)) → count_neighbors g i visits ≡ length (kept i visits)
  unfolding count_neighbors kept
  count_neighbors-kept i [] = refl
  count_neighbors-kept i (v ∷ visits) = elim (Bool-cases (in_range g i v)) [
    | inl t ↦ rw t (ap suc (count_neighbors-kept i visits))
    | inr f ↦ rw f (count_neighbors-kept i visits)
  ]

  set_slots-keeps :
      (calls : List (ℕ × ℕ)) (n n' : Neighbor W)
      → set_slots g calls n ≡ ok n'
      → (n' ≡ record n { slots = n'.slots }) × (length n'.slots ≡ length n.slots)
  unfolding set_slots
  set_slots-keeps [] n n' e = let same : n ≡ n' = cc in rw (← same) (refl, refl)
  set_slots-keeps ((store, col) ∷ calls) n n' e =
      let (m, e1, e2) =
        through (set_neighbor_slot g.table g.truncate g.format col n.r store n) (set_slots g calls)
          n' e in
      let (here, size) = set_neighbor_slot-keeps g.table g.truncate g.format col n.r store n m e1 in
      let (there, size') = set_slots-keeps calls m n' e2 in
      (there ∙ ap (λ (k : Neighbor W). record k { slots = n'.slots }) here, size' ∙ size)

  fill_neighbors-Lists :
      (i : Site W) (visits : List (Visit g)) (neigh out : List (Neighbor W)) (mindist low : ℕ → W)
      → fill_neighbors g i visits neigh mindist ≡ ok (out, low)
      → (more : List (Neighbor W)) × (out ≡ neigh ++ more) × Lists i (kept i visits) more
  unfolding fill_neighbors kept
  fill_neighbors-Lists i [] neigh out mindist low e =
      let same : neigh ≡ out = cc in ([], sym same ∙ sym (append-nil neigh), tt)
  fill_neighbors-Lists i (v ∷ visits) neigh out mindist low e = elim (Bool-cases (in_range g i v)) [
    | inl t ↦
        let low' = lowered g mindist (pair_index g.ntypes i.type (v.0).type) (distance g i v) in
        let (n, e1, e2) =
          through (set_slots g (columns g.build g.ntypes i.type (v.0).type) (entered g i v))
            (λ n. fill_neighbors g i visits (neigh ++ (n ∷ [])) low') (out, low)
            (rw (t, fill_neighbors) at e) in
        let (more, same, listed) =
          fill_neighbors-Lists i visits (neigh ++ (n ∷ [])) out low' low e2 in
        let (fields, size) =
          set_slots-keeps (columns g.build g.ntypes i.type (v.0).type) (entered g i v) n e1 in
        (n ∷ more, same ∙ append_assoc neigh (n ∷ []) more, rw t (fields, size, listed))
    | inr f ↦
        let (more, same, listed) =
          fill_neighbors-Lists i visits neigh out mindist low (rw (f, fill_neighbors) at e) in
        (more, same, rw f listed)
  ]

  -- The neighbors of each atom, for the atoms from some on.
  abbrev pub Tables : (all sites : List (Site W)) → List (List (Neighbor W)) → Type 0
  Tables all [] [] = Unit
  Tables all [] (neigh ∷ lists) = ⊥
  Tables all (i ∷ sites) [] = ⊥
  Tables all (i ∷ sites) (neigh ∷ lists) =
      Lists i (kept i (visits_of g (if g.full then all else i ∷ sites))) neigh
      × Tables all sites lists

  -- If the neighbor tables are made: each atom has one neighbor for each atom of the configuration, from
  -- itself on in a half list, and each periodic image within the cutoff of the two types, but for itself,
  -- in the order of the loops, with the distance and the vectors of that image.
  pub init_neighbors-Tables :
      (all sites : List (Site W)) (mindist low : ℕ → W) (lists : List (List (Neighbor W)))
      → init_neighbors g all sites mindist ≡ ok (lists, low)
      → Tables all sites lists
  unfolding init_neighbors
  init_neighbors-Tables all [] mindist low lists e = let same : [] ≡ lists = cc in rw (← same) tt
  init_neighbors-Tables all (i ∷ sites) mindist low lists e =
      let visits = visits_of g (if g.full then all else i ∷ sites) in
      let num_neigh = count_neighbors g i visits in
      let (s, e1, e2) =
        through (fill_neighbors g i visits [] mindist)
          (λ s.
            exit_if (not (num_neigh == 0) && not (num_neigh == length s.0)) count_mismatch
            >> (init_neighbors g all sites s.1 >>= (λ r. ok (s.0 ∷ r.0, r.1))))
          (lists, low) e in
      let (_, e3) =
        passed (not (num_neigh == 0) && not (num_neigh == length s.0)) count_mismatch e2 in
      let (r, e4, e5) =
        through (init_neighbors g all sites s.1) (λ r. ok (s.0 ∷ r.0, r.1)) (lists, low) e3 in
      let (more, same, listed) = fill_neighbors-Lists i visits [] s.0 mindist s.1 e1 in
      let first : s.0 ∷ r.0 ≡ lists = cc in
      rw (← first) (rw same listed, init_neighbors-Tables all sites s.1 r.1 r.0 e4)

  set_slots-ne-mismatch :
      (calls : List (ℕ × ℕ)) (n : Neighbor W) → set_slots g calls n ≢ exit count_mismatch
  unfolding set_slots
  set_slots-ne-mismatch [] n e = cc
  set_slots-ne-mismatch ((store, col) ∷ calls) n e =
      elim (stopped (set_neighbor_slot g.table g.truncate g.format col n.r store n)
        (set_slots g calls) count_mismatch e) [
          | inl e' ↦ set_neighbor_slot-ne-mismatch g.table g.truncate g.format col n.r store n e'
          | inr (m, _, e') ↦ set_slots-ne-mismatch calls m e'
        ]

  fill_neighbors-ne-mismatch :
      (i : Site W) (visits : List (Visit g)) (neigh : List (Neighbor W)) (mindist : ℕ → W)
      → fill_neighbors g i visits neigh mindist ≢ exit count_mismatch
  unfolding fill_neighbors
  fill_neighbors-ne-mismatch i [] neigh mindist e = cc
  fill_neighbors-ne-mismatch i (v ∷ visits) neigh mindist e = elim (Bool-cases (in_range g i v)) [
    | inl t ↦
        let calls = columns g.build g.ntypes i.type (v.0).type in
        let low = lowered g mindist (pair_index g.ntypes i.type (v.0).type) (distance g i v) in
        elim (stopped (set_slots g calls (entered g i v))
          (λ n. fill_neighbors g i visits (neigh ++ (n ∷ [])) low) count_mismatch
          (rw (t, fill_neighbors) at e)) [
            | inl e' ↦ set_slots-ne-mismatch calls (entered g i v) e'
            | inr (n, _, e') ↦ fill_neighbors-ne-mismatch i visits (neigh ++ (n ∷ [])) low e'
          ]
    | inr f ↦ fill_neighbors-ne-mismatch i visits neigh mindist (rw (f, fill_neighbors) at e)
  ]

  -- The two passes count alike: the program never ends for a mismatch of the neighbor counts.
  pub init_neighbors-ne-mismatch :
      (all sites : List (Site W)) (mindist : ℕ → W)
      → init_neighbors g all sites mindist ≢ exit count_mismatch
  unfolding init_neighbors
  init_neighbors-ne-mismatch all [] mindist e = cc
  init_neighbors-ne-mismatch all (i ∷ sites) mindist e =
      let visits = visits_of g (if g.full then all else i ∷ sites) in
      let num_neigh = count_neighbors g i visits in
      elim (stopped (fill_neighbors g i visits [] mindist)
        (λ s.
          exit_if (not (num_neigh == 0) && not (num_neigh == length s.0)) count_mismatch
          >> (init_neighbors g all sites s.1 >>= (λ r. ok (s.0 ∷ r.0, r.1))))
        count_mismatch e) [
          | inl e' ↦ fill_neighbors-ne-mismatch i visits [] mindist e'
          | inr (s, e1, e') ↦
              let (more, same, listed) = fill_neighbors-Lists i visits [] s.0 mindist s.1 e1 in
              let size : num_neigh ≡ length s.0 =
                count_neighbors-kept i visits
                ∙ sym (ap length same ∙ length-Lists i (kept i visits) more listed) in
              let agree : (not (num_neigh == 0) && not (num_neigh == length s.0)) ≡ false =
                ground (arith, size) in
              elim (stopped (init_neighbors g all sites s.1) (λ r. ok (s.0 ∷ r.0, r.1))
                count_mismatch (rw agree at e')) [
                  | inl e'' ↦ init_neighbors-ne-mismatch all sites s.1 e''
                  | inr (r, _, e'') ↦ cc
                ]
        ]
