-- ===== src/Brent/Tracking.antt =====
-- Behind every round `z` and `w` have their values and force vectors, and the value of `z` did not
-- grow.
use potfit.Base.{ℕ, zero, suc, ◌≡◌, ◌≢◌, refl, sym, ◌∙◌, true, ◌||◌, Bool-cases, inl, inr, ok, exit}
use potfit.Base.Double.{Double}
use potfit.Base.Order.{IsTransitive, Down, Down-le}
use potfit.Bracket.Buffers.{Buffer, vec1, write, write_self, write_ne}
use potfit.Bracket.Tracking.{IsAt}
use potfit.Brent.{
  State, Minimum, close, worse, better, evaluated, update, advance, result, iterate, start, brent,
}

module _ {W V : Type 0} ⦃d : Double W⦄ (o : IsTransitive d) (calc_forces : W → W × V)
    (tol : W) where
  -- The two points with their values and buffers, and a third buffer that is free.
  record Points (f₀ z w f_z f_w : W) (p_z p_w p_u : Buffer) (vec : Buffer → V) : Type 0 where
    apart_zw : p_z ≢ p_w
    apart_zu : p_z ≢ p_u
    apart_wu : p_w ≢ p_u
    at_z : IsAt calc_forces z f_z (vec p_z)
    at_w : IsAt calc_forces w f_w (vec p_w)
    not_above : Down o f_z f₀

  abbrev IsTracked : W → State W V → Type 0
  IsTracked f₀ s = Points f₀ s.z s.w s.f_z s.f_w s.p_z s.p_w s.p_u s.vec

  -- What an evaluation at `u` stores.
  abbrev AtU : W → State W V → Type 0
  AtU u s =
      (write s.vec s.p_u (calc_forces u).1 s.p_u ≡ (calc_forces u).1)
      × (write s.vec s.p_u (calc_forces u).1 s.p_z ≡ s.vec s.p_z)
      × (write s.vec s.p_u (calc_forces u).1 s.p_w ≡ s.vec s.p_w)

  stored : (f₀ u : W) (s : State W V) → IsTracked f₀ s → AtU u s
  stored f₀ u s t = (
    write_self s.vec s.p_u (calc_forces u).1,
    write_ne s.vec s.p_u s.p_z (calc_forces u).1 (λ e. t.apart_zu (sym e)),
    write_ne s.vec s.p_u s.p_w (calc_forces u).1 (λ e. t.apart_wu (sym e)),
  )

  worse-IsTracked :
      (f₀ u : W) (s : State W V)
      → IsTracked f₀ s
      → IsTracked f₀ (worse calc_forces tol u (calc_forces u).0 (evaluated calc_forces tol u s))
  unfolding worse
  worse-IsTracked f₀ u s t =
      let (new, old_z, old_w) = stored f₀ u s t in
      let kept : Points f₀ s.z s.w s.f_z s.f_w s.p_z s.p_w s.p_u
          (write s.vec s.p_u (calc_forces u).1) =
        record {
          apart_zw = t.apart_zw;
          apart_zu = t.apart_zu;
          apart_wu = t.apart_wu;
          at_z = (t.at_z.0, old_z ∙ t.at_z.1);
          at_w = (t.at_w.0, old_w ∙ t.at_w.1);
          not_above = t.not_above;
        } in
      elim (Bool-cases (d.le (calc_forces u).0 s.f_w || d.eq s.w s.z)) [
        | inl a ↦
            rw (a, worse)
              record {
                apart_zw = t.apart_zu;
                apart_zu = t.apart_zw;
                apart_wu = λ e. t.apart_wu (sym e);
                at_z = kept.at_z;
                at_w = (refl, new);
                not_above = t.not_above;
              }
        | inr a ↦ elim (Bool-cases (d.le (calc_forces u).0 s.f_v || d.eq s.v s.z || d.eq s.v s.w)) [
          | inl b ↦ rw (a, b, worse) kept
          | inr b ↦ rw (a, b, worse) kept
        ]
      ]

  better-IsTracked :
      (f₀ u : W) (s : State W V)
      → IsTracked f₀ s
      → d.le (calc_forces u).0 s.f_z ≡ true
      → IsTracked f₀ (better calc_forces tol u (calc_forces u).0 (evaluated calc_forces tol u s))
  unfolding better
  better-IsTracked f₀ u s t h =
      let (new, old_z, old_w) = stored f₀ u s t in
      record {
        apart_zw = λ e. t.apart_zu (sym e);
        apart_zu = λ e. t.apart_wu (sym e);
        apart_wu = t.apart_zw;
        at_z = (refl, new);
        at_w = (t.at_z.0, old_z ∙ t.at_z.1);
        not_above = Down-le o (calc_forces u).0 s.f_z f₀ h t.not_above;
      }

  update-IsTracked :
      (f₀ u : W) (s t : State W V)
      → IsTracked f₀ s
      → update calc_forces tol u s ≡ ok t
      → IsTracked f₀ t
  unfolding update
  update-IsTracked f₀ u s t k e = elim (Bool-cases (d.lt s.f_z (calc_forces u).0)) [
    | inl a ↦
        let same : worse calc_forces tol u (calc_forces u).0 (evaluated calc_forces tol u s) ≡ t =
          cc (rw (a, update) at e) in
        rw (← same) (worse-IsTracked f₀ u s k)
    | inr a ↦ elim (Bool-cases (d.le (calc_forces u).0 s.f_z)) [
      | inl b ↦
          let same : better calc_forces tol u (calc_forces u).0 (evaluated calc_forces tol u s)
              ≡ t =
            cc (rw (a, b, update) at e) in
          rw (← same) (better-IsTracked f₀ u s k b)
      | inr b ↦ cc (rw (a, b, update) at e)
    ]
  ]

  -- What a caller of `brent` may rely on, for the value of the middle of the bracket.
  pub record IsLowered (f₀ : W) (m : Minimum W V) : Type 0 where
    pub minimum : IsAt calc_forces m.xmin m.f_z m.fxmin
    pub second : m.fxmin2 ≡ (calc_forces m.xmin2).1
    pub not_above : Down o m.f_z f₀

  iterate-IsLowered :
      (left : ℕ) (f₀ : W) (s : State W V) (m : Minimum W V)
      → IsTracked f₀ s
      → iterate calc_forces tol left s ≡ ok m
      → IsLowered f₀ m
  unfolding iterate advance
  iterate-IsLowered zero f₀ s m t e = cc
  iterate-IsLowered (suc left) f₀ s m t e = elim (Bool-cases (close calc_forces tol s)) [
    | inl stop ↦
        let same : result calc_forces tol s ≡ m = cc (rw (stop, iterate) at e) in
        rw (← same) record { minimum = t.at_z; second = t.at_w.1; not_above = t.not_above }
    | inr go ↦
        elim (advance calc_forces tol s) as (λ r. advance calc_forces tol s ≡ r → IsLowered f₀ m) [
          | exit f ↦ λ er. cc (rw (go, er, iterate) at e)
          | ok u ↦ λ er.
              iterate-IsLowered left f₀ u m (update-IsTracked f₀ _ _ u t er)
                (rw (go, er, iterate) at e)
        ]
          refl
  ]

  -- With transitive comparisons: if `brent` is called with the middle of a bracket, its value and its force
  -- vector in `fxmin`, and
  -- returns, then the value that it returns belongs to `xmin` and is at most that of the middle, and
  -- `fxmin` and `fxmin2` hold the force vectors of `xmin` and `xmin2`.
  pub brent-IsLowered :
      (ax bx cx fbx : W) (vec : Buffer → V) (m : Minimum W V)
      → IsAt calc_forces bx fbx (vec vec1)
      → brent calc_forces tol ax bx cx fbx vec ≡ ok m
      → IsLowered fbx m
  unfolding brent
  brent-IsLowered ax bx cx fbx vec m at =
      iterate-IsLowered 100 fbx (start calc_forces tol ax bx cx fbx vec) m record {
        apart_zw = λ e. cc;
        apart_zu = λ e. cc;
        apart_wu = λ e. cc;
        at_z = at;
        at_w = (refl, refl);
        not_above = inl refl;
      }
