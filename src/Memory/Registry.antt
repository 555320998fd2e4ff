-- ===== src/Memory/Registry.antt =====
-- Every block in use is noted once, so the clean-up frees each block and frees none twice.
use potfit.Base.{ℕ, ◌≡◌, ◌≤◌, ◌≢◌, Bool, ◌∷◌, if◌then◌else◌, ◌==◌, ok, map}
use potfit.Memory.{Heap, empty_heap, malloc_checked, realloc_checked}
use potfit.Memory.Counting.{count, remove}

-- What a program may do with the heap. The C library hands out NULL or an address that is not in
-- use; a block that moves goes to such an address, or stays. Only a block in use is reallocated.
pub data Step : Heap → Heap → Type 0 where
  allocate :
      (h h' : Heap) (size p q : ℕ) (grown : Bool)
      → count p h.live ≡ 0
      → malloc_checked size p grown h ≡ ok (q, h')
      → Step h h'
  move :
      (h h' : Heap) (pvoid size p q : ℕ) (grown : Bool)
      → count pvoid h.live ≡ 1
      → (p ≢ pvoid → count p h.live ≡ 0)
      → realloc_checked pvoid size p grown h ≡ ok (q, h')
      → Step h h'

-- The heaps that a run reaches after `initialize_global_variables`.
pub data Reach : Heap → Type 0 where
  begin : Reach empty_heap
  next : {h h' : Heap} → Reach h → Step h h' → Reach h'

-- The registry notes exactly the blocks in use, each once, and NULL is none of them.
pub record IsNoted (h : Heap) : Type 0 where
  pub same : (a : ℕ) → count a h.pointers ≡ count a h.live
  pub once : (a : ℕ) → count a h.live ≤ 1
  pub no_null : count 0 h.live ≡ 0

module _ (h : Heap) (pvoid p : ℕ) (used : count pvoid h.live ≡ 1)
    (fresh : p ≢ pvoid → count p h.live ≡ 0) (nonnull : p ≢ 0) (n : IsNoted h) where
  abbrev moved : Heap
  moved = record {
    live = p ∷ remove pvoid h.live;
    pointers = map (λ r. if pvoid == r then p else r) h.pointers;
  }
