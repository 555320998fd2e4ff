-- ===== src/Memory/Examples.antt =====
-- A run of the registry: two blocks, of which one is enlarged and moves.
use potfit.Base.{refl, true, [], ◌∷◌}
use potfit.Memory.{Heap, malloc_checked, realloc_checked}
use potfit.Memory.Registry.{Step, Reach}

abbrev after_two : Heap
after_two = record { live = 32 ∷ 16 ∷ []; pointers = 16 ∷ 32 ∷ [] }

abbrev after_move : Heap
after_move = record { live = 64 ∷ 32 ∷ []; pointers = 64 ∷ 32 ∷ [] }

run : Reach after_move
unfolding malloc_checked realloc_checked
run =
    Reach.next
      (Reach.next (Reach.next Reach.begin (Step.allocate _ _ 8 16 16 true refl refl)) (
        Step.allocate (record { live = 16 ∷ []; pointers = 16 ∷ [] }) after_two 8 32 32 true refl
          refl))
      (Step.move after_two after_move 16 24 64 64 true refl (λ _. refl) refl)
