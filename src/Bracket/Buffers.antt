-- ===== src/Bracket/Buffers.antt =====
-- The three force vectors of `bracket`, and a write through a pointer.
use potfit.Base.{◌≡◌, ◌≢◌, refl, Bool, true, false, if◌then◌else◌}

pub data Buffer : Type 0 where
  vec1 : Buffer
  vec2 : Buffer
  vec3 : Buffer

abbrev same_buffer : Buffer → Buffer → Bool
same_buffer vec1 vec1 = true
same_buffer vec2 vec2 = true
same_buffer vec3 vec3 = true
same_buffer _ _ = false

unfoldable pub write : {V : Type 0} → (Buffer → V) → Buffer → V → Buffer → V
write vec p v q = if same_buffer p q then v else vec q

pub write_self : {V : Type 0} (vec : Buffer → V) (p : Buffer) (v : V) → write vec p v p ≡ v
unfolding write
write_self vec vec1 v = refl
write_self vec vec2 v = refl
write_self vec vec3 v = refl

pub write_ne :
    {V : Type 0} (vec : Buffer → V) (p q : Buffer) (v : V) → p ≢ q → write vec p v q ≡ vec q
unfolding write
write_ne vec vec1 vec1 v h = absurd (h refl)
write_ne vec vec1 vec2 v h = refl
write_ne vec vec1 vec3 v h = refl
write_ne vec vec2 vec1 v h = refl
write_ne vec vec2 vec2 v h = absurd (h refl)
write_ne vec vec2 vec3 v h = refl
write_ne vec vec3 vec1 v h = refl
write_ne vec vec3 vec2 v h = refl
write_ne vec vec3 vec3 v h = absurd (h refl)
