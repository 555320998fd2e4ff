-- ===== src/Functions/Assign.antt =====
-- The assignment of function pointers to the potentials of a file.
use Prim.Native.String.{String}
use potfit.Base.{
  ℕ, zero, suc, ◌+◌, ◌<◌, ◌≡◌, ◌≢◌, refl, ◌∙◌, false, List, [], ◌∷◌, some, arith, get_elem?, set,
  length, length-set, get_elem?-set_self, get_elem?-set_ne, Option-cases, Bool-cases, inl, inr,
}
use mathlib.Core.Option.{some-injective}
use potfit.Base.Int.{pos, negsuc}
use potfit.Functions.{
  Function, Assigned, find_function, assign_from, apot_assign_function_pointers,
  apot_get_num_parameters, is_empty, apot_assign_punish_functions,
}

module _ {F : Type 0} (table : List (Function F)) where
  abbrev stored : ℕ → String → Function F → Assigned F → Assigned F
  stored i n f s =
      apot_assign_punish_functions n i (record s { fvalue = set s.fvalue i (some f.fvalue) })

  stored-fvalue :
      (i : ℕ) (n : String) (f : Function F) (s : Assigned F)
      → (stored i n f s).fvalue ≡ set s.fvalue i (some f.fvalue)
  unfolding apot_assign_punish_functions
  stored-fvalue i n f s = ground arith

  -- Cells before `i` are left alone.
  assign_from_before :
      (i : ℕ) (names : List String) (s : Assigned F) (j : ℕ)
      → j < i
      → get_elem? (assign_from i names table s).1.fvalue j ≡ get_elem? s.fvalue j
  unfolding assign_from
  assign_from_before i [] s j h = refl
  assign_from_before i (n ∷ ns) s j h = elim (Option-cases (find_function n table)) [
    | inr (f, e) ↦
        rw (e, assign_from)
          (assign_from_before (i + 1) ns (stored i n f s) j (omega arith)
            ∙ rw (stored-fvalue i n f s) (get_elem?-set_ne s.fvalue (some f.fvalue) (omega arith)))
    | inl e ↦ elim (Bool-cases (is_empty table)) [
      | inl e' ↦ rw (e, e', assign_from) (assign_from_before (i + 1) ns s j (omega arith))
      | inr e' ↦ rw (e, e', assign_from) refl
    ]
  ]

  first_cell :
      (i : ℕ) (n : String) (ns : List String) (f : Function F) (s : Assigned F)
      → i < length s.fvalue
      → get_elem? (assign_from (i + 1) ns table (stored i n f s)).1.fvalue i ≡ some (some f.fvalue)
  first_cell i n ns f s h =
      assign_from_before (i + 1) ns (stored i n f s) i (omega arith)
      ∙ rw (stored-fvalue i n f s) (get_elem?-set_self s.fvalue i (some f.fvalue) h)

  abbrev AllKnown : List String → Type 0
  AllKnown names =
      (j : ℕ) (n : String) → get_elem? names j ≡ some n → apot_get_num_parameters n table ≢ negsuc 0

  known :
      (n : String)
      → apot_get_num_parameters n table ≢ negsuc 0
      → (f : Function F) × (find_function n table ≡ some f)
  unfolding apot_get_num_parameters
  known n h = elim (Option-cases (find_function n table)) [
    | inl e ↦ absurd (h (rw (e, apot_get_num_parameters) refl))
    | inr (f, e) ↦ (f, e)
  ]

  number_of_found :
      (n : String) (f : Function F)
      → find_function n table ≡ some f
      → apot_get_num_parameters n table ≡ pos f.num_params
  unfolding apot_get_num_parameters
  number_of_found n f e = rw (e, apot_get_num_parameters) refl

  assign_from_known :
      (i : ℕ) (names : List String) (s : Assigned F)
      → AllKnown names
      → length s.fvalue ≡ i + length names
      → ((assign_from i names table s).0 ≡ pos 0)
        × ((j : ℕ) (n : String) (f : Function F)
            → get_elem? names j ≡ some n
            → find_function n table ≡ some f
            → get_elem? (assign_from i names table s).1.fvalue (i + j) ≡ some (some f.fvalue))
  unfolding assign_from
  assign_from_known i [] s all h = (refl, λ j n f e. cc)
  assign_from_known i (n ∷ ns) s all h =
      let (f, e) = known n (all 0 n refl) in
      let s' : Assigned F = stored i n f s in
      let (code, cells) =
        assign_from_known (i + 1) ns s' (λ j. all (suc j))
          (rw (stored-fvalue i n f s) (omega (arith, length-set s.fvalue i (some f.fvalue)))) in
      rw (e, assign_from)
        (
          code,
          λ j.
              elim j
                as (λ j.
                  (m : String) (g : Function F)
                  → get_elem? (n ∷ ns) j ≡ some m
                  → find_function m table ≡ some g
                  → get_elem? (assign_from (i + 1) ns table s').1.fvalue (i + j)
                    ≡ some (some g.fvalue)) [
                      | zero ↦ λ m g em eg.
                          let same : some g ≡ some f = cc in
                          let here : i + 0 ≡ i = omega arith in
                          rw (here, some-injective g f same) (first_cell i n ns f s (omega arith))
                      | suc j ↦ λ m g em eg.
                          let shift : i + suc j ≡ i + 1 + j = omega arith in
                          rw shift (cells j m g em eg)
                    ],
        )

  assign_from_unknown :
      (i : ℕ) (names : List String) (s : Assigned F) (j : ℕ) (n : String)
      → is_empty table ≡ false
      → get_elem? names j ≡ some n
      → apot_get_num_parameters n table ≡ negsuc 0
      → (assign_from i names table s).0 ≡ negsuc 0
  unfolding assign_from
  assign_from_unknown i [] s j n full en unknown = cc
  assign_from_unknown i (m ∷ ms) s j n full en unknown =
      elim (Option-cases (find_function m table)) [
        | inl e ↦ rw (e, full, assign_from) refl
        | inr (f, e) ↦
            elim j
                as (λ j.
                  get_elem? (m ∷ ms) j ≡ some n → (assign_from i (m ∷ ms) table s).0 ≡ negsuc 0) [
                    | zero ↦ λ e0. cc (number_of_found m f e)
                    | suc k ↦ λ ek.
                        rw (e, assign_from)
                          (assign_from_unknown (i + 1) ms (stored i m f s) k n full ek unknown)
                  ]
              en
      ]

  -- If every name is known to the table, the function pointers are assigned: the result is 0, and the
  -- cell of each potential holds the function that the table has under the potential's name.
  pub assign_known :
      (names : List String) (s : Assigned F)
      → AllKnown names
      → length s.fvalue ≡ length names
      → ((apot_assign_function_pointers names table s).0 ≡ pos 0)
        × ((j : ℕ) (n : String) (f : Function F)
            → get_elem? names j ≡ some n
            → find_function n table ≡ some f
            → get_elem? (apot_assign_function_pointers names table s).1.fvalue j
              ≡ some (some f.fvalue))
  unfolding apot_assign_function_pointers
  assign_known names s all h =
      let (code, cells) = assign_from_known 0 names s all (omega arith) in
      (code, λ j n f en ef. let here : 0 + j ≡ j = omega arith in rw here at (cells j n f en ef))

  -- If the table is not empty and some name is unknown to it, the result is -1.
  pub assign_unknown :
      (names : List String) (s : Assigned F) (j : ℕ) (n : String)
      → is_empty table ≡ false
      → get_elem? names j ≡ some n
      → apot_get_num_parameters n table ≡ negsuc 0
      → (apot_assign_function_pointers names table s).0 ≡ negsuc 0
  unfolding apot_assign_function_pointers
  assign_unknown names s = assign_from_unknown 0 names s
