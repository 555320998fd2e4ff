-- ===== src/Memory.antt =====
-- The registry of allocated blocks in memory.c: `Malloc` and `Realloc` note every block in
-- `g_memory`, and `free_allocated_memory` frees what is noted. Addresses are numbers, NULL is 0.
pub mod Counting
pub mod Registry
mod Examples
use potfit.Base.{
  ℕ, zero, suc, ◌≡◌, ◌<◌, Bool, true, false, not, List, [], ◌∷◌, ◌++◌, map, Option, none, some,
  if◌then◌else◌, ◌==◌, Outcome, ok, ◌>>=◌, ◌>>◌, exit_if,
}
use Counting.{count, remove}

-- The blocks that the C library holds for the program, less the registry's own array; and
-- `g_memory.pointers`, whose length is `g_memory.num_pointers`.
pub record Heap : Type 0 where
  pub live : List ℕ
  pub pointers : List ℕ

pub data Failure : Type 0 where
  size_zero : Failure
  no_resources : Failure

-- `initialize_global_variables` on the registry, before any block is allocated.
abbrev pub empty_heap : Heap
empty_heap = record { live = []; pointers = [] }

-- `p` is what `malloc` returns, and `grown` whether the registry's own array could be enlarged.
pub malloc_checked : ℕ → ℕ → Bool → Heap → Outcome Failure (ℕ × Heap)
malloc_checked size p grown h = do
  exit_if (size == 0) size_zero
  exit_if (p == 0) no_resources
  exit_if (not grown) no_resources
  ok (p, record { live = p ∷ h.live; pointers = h.pointers ++ (p ∷ []) })

-- `Realloc` behind the call of `realloc`, which returned `q`.
reallocated : ℕ → ℕ → Heap → Outcome Failure (ℕ × Heap)
reallocated pvoid q h = do
  exit_if (q == 0) no_resources
  let live = q ∷ remove pvoid h.live
  let pointers = map (λ r. if pvoid == r then q else r) h.pointers
  ok (q, record { live = live; pointers = pointers })

-- `q` is what `realloc` returns; for a NULL argument the block comes from `Malloc`, with `q` and
-- `grown` as there.
pub realloc_checked : ℕ → ℕ → ℕ → Bool → Heap → Outcome Failure (ℕ × Heap)
unfolding malloc_checked reallocated
realloc_checked pvoid size q grown h = do
  exit_if (size == 0) size_zero
  if pvoid == 0 then malloc_checked size q grown h else reallocated pvoid q h

-- The blocks in use after `free` of each pointer in turn; `none` if one of them is not in use, as in
-- a double free.
pub free_each : List ℕ → List ℕ → Option (List ℕ)
free_each [] live = some live
free_each (p ∷ ps) live = if count p live == 0 then none else free_each ps (remove p live)

pub free_allocated_memory : Heap → Option (List ℕ)
unfolding free_each
free_allocated_memory h = free_each h.pointers h.live
