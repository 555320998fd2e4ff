-- ===== src/Elements/Lookup.antt =====
-- The look-ups agree with one another and with the table.
use Prim.Native.String.{String, len}
use text.Mathlib.Text.{◌==◌ as str_eq}
use text.Mathlib.TextEquality.{eq_iff}
use potfit.Base.{
  ℕ, zero, suc, ◌+◌, ◌-◌, ◌≡◌, refl, Bool, true, false, List, [], ◌∷◌, some, arith, if◌then◌else◌,
  ltb, ◌==◌, ◌&&◌, get_elem?, length, lt-length_of_some, sym, ◌∙◌, Bool-cases, inl, inr, ◌≢◌, ◌⊎◌,
}
use potfit.Base.Int.{pos, ltb_ℤ}
use potfit.Base.Double.{Double}
use potfit.Elements.{
  elements, search_number, search_mass, ele_number_from_name, ele_mass_from_name,
  ele_mass_from_number, zero_mass,
}
use potfit.Elements.Table.{Element}

-- The field that the look-ups compare with a name: the symbol for names of one or two bytes.
abbrev pub column : String → Element → String
column name e = if ltb (len name) 3 then e.short_name else e.name

module _ {W : Type 0} ⦃d : Double W⦄ (field : Element → String) (name : String) where
  -- Both searches from index `i` find nothing, or the first element that has the name.
  abbrev Agree : ℕ → List Element → ℕ → W → Type 0
  Agree i es n m =
      ((n ≡ 0)
        × (m ≡ zero_mass)
        × ((k : ℕ) (e : Element) → get_elem? es k ≡ some e → field e ≢ name))
      ⊎ ((k : ℕ) × (e : Element) × (n ≡ i + k + 1)
          × (m ≡ d.lit e.mass e.scale)
          × (get_elem? es k ≡ some e)
          × (field e ≡ name))

  searches-Agree :
      (i : ℕ) (es : List Element)
      → Agree i es (search_number field name i es) (search_mass field name es)
  unfolding search_number search_mass
  searches-Agree i [] = inl (refl, refl, λ k e h. cc)
  searches-Agree i (e ∷ es) = elim (Bool-cases (str_eq name (field e))) [
    | inl same ↦ rw same (inr (0, e, omega arith, refl, refl, cc ((eq_iff name (field e)).0 same)))
    | inr other ↦ rw other (elim (searches-Agree (i + 1) es) [
      | inl (n, m, absent) ↦ inl (
        n,
        m,
        λ k. elim k as (λ k. (e' : Element) → get_elem? (e ∷ es) k ≡ some e' → field e' ≢ name) [
          | zero ↦ λ e' h eq. let same : name ≡ field e = cc in cc ((eq_iff name (field e)).1 same)
          | suc k ↦ λ e' h. absent k e' h
        ],
      )
      | inr (k, e', n, m, at, eq) ↦ inr (suc k, e', omega (arith, n), m, at, eq)
    ])
  ]

length-elements : length elements ≡ 110
unfolding elements
length-elements = refl

module _ {W : Type 0} ⦃d : Double W⦄ (name : String) where
  lookups-Agree :
      Agree {W = W}
        (column name)
        name
        0
        elements
        (ele_number_from_name name)
        (ele_mass_from_name name)
  unfolding ele_number_from_name ele_mass_from_name
  lookups-Agree = elim (Bool-cases (ltb (len name) 3)) [
    | inl e ↦ rw e (searches-Agree (λ e. e.short_name) name 0 elements)
    | inr e ↦ rw e (searches-Agree (λ e. e.name) name 0 elements)
  ]

  mass_from_number_zero : ele_mass_from_number {W = W} (pos 0) ≡ zero_mass
  unfolding ele_mass_from_number
  mass_from_number_zero = ground (arith, length-elements)

  mass_from_number_suc :
      (k : ℕ) (e : Element)
      → get_elem? elements k ≡ some e
      → ele_mass_from_number (pos (k + 1)) ≡ d.lit e.mass e.scale
  unfolding ele_mass_from_number
  mass_from_number_suc k e at =
      let bound = lt-length_of_some elements k at in
      let same : k + 1 - 1 ≡ k = omega arith in
      let big : ltb (length elements) (k + 1) ≡ false = ground arith in
      let small : ltb_ℤ (pos (k + 1)) (pos 1) ≡ false = ground arith in
      rw (big, small, same, at) refl

  -- The mass of a name is the mass of its atomic number; an unknown name has number 0 and mass 0.
  pub mass-number :
      ele_mass_from_name {W = W} name ≡ ele_mass_from_number (pos (ele_number_from_name name))
  mass-number = elim lookups-Agree [
    | inl (n, m, absent) ↦ rw n (m ∙ sym mass_from_number_zero)
    | inr (k, e, n, m, at, eq) ↦
        let n' : ele_number_from_name name ≡ k + 1 = omega (arith, n) in
        rw n' (m ∙ sym (mass_from_number_suc k e at))
  ]

-- The table names its own elements: `name` and `short_name` of row `i` have the number `i + 1`.
abbrev numbered : ℕ → List Element → Bool
numbered i [] = true
numbered i (e ∷ es) =
    (ele_number_from_name e.name == i + 1)
    && (ele_number_from_name e.short_name == i + 1)
    && numbered (i + 1) es

numbered-elements : numbered 0 elements ≡ true
unfolding elements ele_number_from_name
numbered-elements = refl

numbered_sound :
    (i : ℕ) (es : List Element) (k : ℕ) (e : Element)
    → numbered i es ≡ true
    → get_elem? es k ≡ some e
    → (ele_number_from_name e.name ≡ i + k + 1) × (ele_number_from_name e.short_name ≡ i + k + 1)
numbered_sound i [] k e h at = cc
numbered_sound i (x ∷ es) zero e h at = ground arith
numbered_sound i (x ∷ es) (suc k) e h at = ground (arith, numbered_sound (i + 1) es k e)

-- Every row of the table is found by its name and by its symbol, under the row's number.
pub number-names :
    (k : ℕ) (e : Element)
    → get_elem? elements k ≡ some e
    → (ele_number_from_name e.name ≡ k + 1) × (ele_number_from_name e.short_name ≡ k + 1)
number-names k e at =
    let (n, s) = numbered_sound 0 elements k e numbered-elements at in
    (omega (arith, n), omega (arith, s))
