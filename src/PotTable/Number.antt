-- ===== src/PotTable/Number.antt =====
-- How many functions a table has.
use potfit.Base.{
  ℕ, ◌+◌, ◌*◌, ◌≡◌, refl, ◌∙◌, Bool, true, false, not, ◌&&◌, ◌||◌, List, [], ◌++◌, length,
  length-append, length-replicate, replicate, if◌then◌else◌, arith,
}
use potfit.Build.{Build, embedded}
use potfit.PairIndex.{paircol}
use potfit.PotentialHeader.{npots}
use potfit.PotTable.{
  Kind, functions, pair_function, transfer, embedding, transfer_s, embedding_s, dipole, quadrupole,
  second_pair, angular,
}

-- A binary for tables with pair functions only, or with one of EAM (or TBEAM), ADP and MEAM.
pub record IsTableBuild (b : Build) : Type 0 where
  pub no_other : (b.ang || b.stiweb || b.tersoff || b.kim) ≡ false
  pub at_most_one : (b.eam && b.adp || b.eam && b.meam || b.adp && b.meam) ≡ false
  pub tbeam_of_eam : (b.tbeam && not b.eam) ≡ false

count : (n pairs : ℕ) (eam tbeam adp meam : Bool) → ℕ
count n pairs eam tbeam adp meam =
    pairs
    + (if eam || adp || meam then n + (n + (if tbeam then n + n else 0)) else 0)
    + (if adp then pairs + pairs else 0)
    + (if meam then pairs + n else 0)

length-if :
    {A : Type 0} (c : Bool) (xs : List A) (n : ℕ)
    → length xs ≡ n
    → length (if c then xs else []) ≡ (if c then n else 0)
length-if true xs n h = h
length-if false xs n h = refl

length-replicate2 :
    {A : Type 0} (m n : ℕ) (a b : A) → length (replicate m a ++ replicate n b) ≡ m + n
length-replicate2 m n a b = omega (
  arith,
  length-append (replicate m a) (replicate n b),
  length-replicate m a,
  length-replicate n b,
)

length-functions :
    (b : Build) (n : ℕ) → length (functions b n) ≡ count n (paircol n) b.eam b.tbeam b.adp b.meam
unfolding functions count
length-functions b n =
    let pairs = paircol n in
    let s_band : List Kind =
      if b.tbeam then replicate n transfer_s ++ replicate n embedding_s else [] in
    let eam : List Kind = replicate n transfer ++ (replicate n embedding ++ s_band) in
    let eam_if : List Kind = if embedded b then eam else [] in
    let adp_if : List Kind =
      if b.adp then replicate pairs dipole ++ replicate pairs quadrupole else [] in
    let meam_if : List Kind =
      if b.meam then replicate pairs second_pair ++ replicate n angular else [] in
    let size_s : length s_band ≡ (if b.tbeam then n + n else 0) =
      length-if b.tbeam (replicate n transfer_s ++ replicate n embedding_s) (n + n)
        (length-replicate2 n n transfer_s embedding_s) in
    let size_eam : length eam ≡ n + (n + (if b.tbeam then n + n else 0)) = omega (
      arith,
      length-append (replicate n transfer) (replicate n embedding ++ s_band),
      length-append (replicate n embedding) s_band,
      length-replicate n transfer,
      length-replicate n embedding,
      size_s,
    ) in
    let size_eam_if =
      length-if (embedded b) eam (n + (n + (if b.tbeam then n + n else 0))) size_eam in
    let size_adp =
      length-if b.adp (replicate pairs dipole ++ replicate pairs quadrupole) (pairs + pairs)
        (length-replicate2 pairs pairs dipole quadrupole) in
    let size_meam =
      length-if b.meam (replicate pairs second_pair ++ replicate n angular) (pairs + n)
        (length-replicate2 pairs n second_pair angular) in
    omega (
      arith,
      length-append (replicate pairs pair_function) (eam_if ++ (adp_if ++ meam_if)),
      length-append (replicate pairs pair_function ++ eam_if ++ adp_if) meam_if,
      length-append (replicate pairs pair_function ++ eam_if) adp_if,
      length-append (replicate pairs pair_function) eam_if,
      length-append eam_if (adp_if ++ meam_if),
      length-append adp_if meam_if,
      length-replicate pairs pair_function,
      size_eam_if,
      size_adp,
      size_meam,
    )

count_cases :
    (n pairs : ℕ) (eam tbeam adp meam : Bool)
    → (eam && adp || eam && meam || adp && meam) ≡ false
    → (tbeam && not eam) ≡ false
    → count n pairs eam tbeam adp meam ≡ (
        if meam
        then 2 * pairs + 3 * n
        else if adp
        then 3 * pairs + 2 * n
        else if eam
        then (if tbeam then pairs + 2 * n + 2 * n else pairs + 2 * n)
        else pairs)
unfolding count
count_cases n pairs true true true meam h k = cc
count_cases n pairs true false true meam h k = cc
count_cases n pairs true true false true h k = cc
count_cases n pairs true false false true h k = cc
count_cases n pairs true true false false h k = omega arith
count_cases n pairs true false false false h k = omega arith
count_cases n pairs false true adp meam h k = cc
count_cases n pairs false false true true h k = cc
count_cases n pairs false false true false h k = omega arith
count_cases n pairs false false false true h k = omega arith
count_cases n pairs false false false false h k = omega arith

others :
    (a b c e : Bool)
    → (a || b || c || e) ≡ false
    → (a ≡ false) × (b ≡ false) × (c ≡ false) × (e ≡ false)
others true b c e h = cc
others false true c e h = cc
others false false true e h = cc
others false false false true h = cc
others false false false false h = (refl, refl, refl, refl)

-- The loops read as many functions as the header announces.
pub functions-npots : (b : Build) (n : ℕ) → IsTableBuild b → length (functions b n) ≡ npots b n
unfolding npots functions
functions-npots b n t =
    let (no_ang, no_stiweb, no_tersoff, no_kim) =
      others b.ang b.stiweb b.tersoff b.kim t.no_other in
    let size =
      length-functions b n
      ∙ count_cases n (paircol n) b.eam b.tbeam b.adp b.meam t.at_most_one t.tbeam_of_eam in
    rw (no_kim, no_tersoff, no_stiweb, no_ang) size
