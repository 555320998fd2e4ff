-- ===== src/Evo/Partition.antt =====
-- What one `partition` does to the pool.
use mathlib.Core.List.{Perm}
use mathlib.Core.List.Perm
use potfit.Base.{
  ℕ, zero, suc, ◌+◌, ◌<◌, ◌≡◌, refl, true, false, List, some, arith, Bool-cases, Option-cases, inl,
  inr, get_elem?, length, length-swap, swap-perm, some_of_lt-length, zip, zip-swap, sym,
  get_elem?-swap_right, get_elem?-swap_left, get_elem?-swap_other, ◌≢◌, ◌∙◌,
}
use potfit.Base.Double.{Double}
use potfit.Evo.{Pool, swap_both, moves, partition_loop}

-- The two arrays are as long as one another.
abbrev pub IsPool : {W P : Type 0} → Pool W P → Type 0
IsPool p = length p.population ≡ length p.cost

-- The individuals with their costs.
abbrev pub members : {W P : Type 0} → Pool W P → List (W × P)
members p = zip p.cost p.population

-- The second pool holds the members of the first, each with its cost, in some order.
pub record IsReordered {W P : Type 0} (p q : Pool W P) : Type 0 where
  pub same_length : length q.cost ≡ length p.cost
  pub is_pool : IsPool q
  pub same_members : Perm (members q) (members p)

module _ {W P : Type 0} where
  pub IsReordered-refl : (p : Pool W P) → IsPool p → IsReordered p p
  IsReordered-refl p h = record { same_length = refl; is_pool = h; same_members = Perm.refl _ }

  pub IsReordered-trans : {p q r : Pool W P} → IsReordered p q → IsReordered q r → IsReordered p r
  IsReordered-trans a b = record {
    same_length = b.same_length ∙ a.same_length;
    is_pool = b.is_pool;
    same_members = Perm.trans b.same_members a.same_members;
  }

module _ {W P : Type 0} ⦃d : Double W⦄ where
  pub swap_both-IsReordered : (p : Pool W P) (i j : ℕ) → IsPool p → IsReordered p (swap_both p i j)
  unfolding swap_both
  swap_both-IsReordered p i j h = record {
    same_length = length-swap p.cost i j;
    is_pool = omega (arith, length-swap p.cost i j, length-swap p.population i j);
    same_members = rw (zip-swap p.cost p.population i j (sym h)) (swap-perm (members p) i j);
  }

  -- The rule of the loop: what each round keeps holds at its end, where `i` is `high`.
  pub partition_loop_inv :
      (v : W) (high : ℕ) (Inv : ℕ → ℕ → Pool W P → Type 0)
      → ((i c : ℕ) (p : Pool W P)
          → i < high
          → moves p i c v ≡ true
          → Inv i c p
          → Inv (i + 1) (c + 1) (swap_both p i c))
      → ((i c : ℕ) (p : Pool W P) → i < high → moves p i c v ≡ false → Inv i c p → Inv (i + 1) c p)
      → (left i c : ℕ) (p : Pool W P) → i + left ≡ high
      → Inv i c p
      → Inv high (partition_loop left i c v p).1 (partition_loop left i c v p).0
  unfolding partition_loop
  partition_loop_inv v high Inv hit miss zero i c p e h =
      let e' : i ≡ high = omega arith in rw (← e') h
  partition_loop_inv v high Inv hit miss (suc left) i c p e h =
      let next = partition_loop_inv v high Inv hit miss left (i + 1) in
      elim (Bool-cases (moves p i c v)) [
        | inl m ↦
            rw (m, partition_loop)
              (next (c + 1) (swap_both p i c) (omega arith) (hit i c p (omega arith) m h))
        | inr m ↦ rw (m, partition_loop) (next c p (omega arith) (miss i c p (omega arith) m h))
      ]

  -- The cell `k` holds a cost that is at most `v`; that is more than `v`.
  abbrev pub AtMost : W → Pool W P → ℕ → Type 0
  AtMost v p k = (w : W) × (get_elem? p.cost k ≡ some w) × (d.le w v ≡ true)

  abbrev pub Above : W → Pool W P → ℕ → Type 0
  Above v p k = (w : W) × (get_elem? p.cost k ≡ some w) × (d.le w v ≡ false)

  pub moves→AtMost :
      (p : Pool W P) (i c : ℕ) (v : W) → moves p i c v ≡ true → AtMost v p i × (i ≢ c)
  unfolding moves
  moves→AtMost p i c v m = elim (Option-cases (get_elem? p.cost i)) [
    | inl e ↦ ground arith
    | inr (w, e) ↦ ((w, e, ground arith), ground arith)
  ]

  module _ (p : Pool W P) (i c : ℕ) (hi : i < length p.cost) (hc : c < length p.cost) where
    pub swap_both_cells :
        (get_elem? (swap_both p i c).cost i ≡ get_elem? p.cost c)
        × (get_elem? (swap_both p i c).cost c ≡ get_elem? p.cost i)
        × ((k : ℕ) → i ≢ k → c ≢ k → get_elem? (swap_both p i c).cost k ≡ get_elem? p.cost k)
    unfolding swap_both
    swap_both_cells =
        let (a, ea) = some_of_lt-length p.cost i hi in
        let (b, eb) = some_of_lt-length p.cost c hc in
        (
          get_elem?-swap_left p.cost i c ea eb ∙ sym eb,
          get_elem?-swap_right p.cost i c ea eb ∙ sym ea,
          get_elem?-swap_other p.cost i c ea eb,
        )

  pub miss→Above :
      (p : Pool W P) (i c : ℕ) (v : W)
      → i < length p.cost
      → moves p i c v ≡ false
      → i ≢ c
      → Above v p i
  unfolding moves
  miss→Above p i c v h m ne = let (w, e) = some_of_lt-length p.cost i h in (w, e, ground arith)
