-- ===== src/Memory/Arena.antt =====
-- The arena allocator: src/memory/arena_allocator.cpp and its header. `mmap` is a parameter: for
-- one call, the address that it returns for a size, or none, which the source turns into
-- `bad_alloc`. `munmap` is a list of the regions that are given back.
pub mod Invariant
pub mod Accounting
mod Tests
use novaboot.Base.{
  ℕ, ◌+◌, ◌-◌, List, [], ◌∷◌, ◌++◌, Option, some, none, if◌then◌else◌, ltb, leb, ◌==◌, max,
}
use novaboot.Memory.Region.{Region, total, round_page, align_up}

-- The last of `blocks` is the current one.
pub record Arena : Type 0 where
  pub block_size : ℕ
  pub blocks : List Region
  pub large_allocs : List Region
  pub current_ptr : ℕ
  pub current_end : ℕ

abbrev pub large_alloc_threshold : ℕ
large_alloc_threshold = 32768

infixl 5 ◌>>=◌
abbrev pub ◌>>=◌ {ℓ κ} : {A : Type ℓ} {B : Type κ} → Option A → (A → Option B) → Option B
none >>= f = none
some a >>= f = f a

pub bump : ℕ → ℕ → Arena → ℕ × Arena
bump n alignment a =
    let aligned = align_up a.current_ptr alignment in
    (aligned, record a { current_ptr = aligned + n })

abbrev pub at_least_one : ℕ → ℕ
at_least_one bytes = if bytes == 0 then 1 else bytes

module _ (mmap : ℕ → Option ℕ) where
  pub allocate_new_block : Arena → Option Arena
  allocate_new_block a = do
    start ← mmap a.block_size
    some (record a {
      blocks = a.blocks ++ record { start = start; size = a.block_size } ∷ [];
      current_ptr = start;
      current_end = start + a.block_size;
    })

  pub new_arena : ℕ → Option Arena
  new_arena block_size = allocate_new_block (record {
    block_size = max block_size 4096;
    blocks = [];
    large_allocs = [];
    current_ptr = 0;
    current_end = 0;
  })

  -- A region of its own for one allocation.
  pub allocate_large : ℕ → Arena → Option (ℕ × Arena)
  allocate_large size a = do
    start ← mmap size
    some (
      start,
      record a { large_allocs = a.large_allocs ++ record { start = start; size = size } ∷ [] },
    )

  -- From the current block, or a new one when the current block is exhausted.
  pub allocate_small : ℕ → ℕ → Arena → Option (ℕ × Arena)
  allocate_small n alignment a =
      if ltb a.current_end (align_up a.current_ptr alignment + n)
      then (if ltb a.block_size (n + alignment)
          then allocate_large (round_page (n + alignment)) a
          else (allocate_new_block a >>= λ b. some (bump n alignment b)))
      else some (bump n alignment a)

  pub do_allocate : ℕ → ℕ → Arena → Option (ℕ × Arena)
  do_allocate bytes alignment a =
      let n = at_least_one bytes in
      if leb large_alloc_threshold n
      then allocate_large (round_page n) a
      else allocate_small n alignment a

-- `do_deallocate` gives nothing back.
pub do_deallocate : ℕ → ℕ → ℕ → Arena → Arena
do_deallocate ptr bytes alignment a = a

abbrev pub with_first : Region → Arena → Arena
with_first r a = record a {
  blocks = r ∷ [];
  large_allocs = [];
  current_ptr = r.start;
  current_end = r.start + r.size;
}

abbrev pub reset_blocks : List Region → Arena → Arena × List Region
reset_blocks [] a = (record a { large_allocs = [] }, a.large_allocs)
reset_blocks (r ∷ rs) a = (with_first r a, rs ++ a.large_allocs)

-- The arena after `reset`, and the regions that it unmaps.
pub reset : Arena → Arena × List Region
reset a = reset_blocks a.blocks a

-- The regions that the destructor unmaps.
pub destroy : Arena → List Region
destroy a = a.blocks ++ a.large_allocs

pub total_allocated : Arena → ℕ
total_allocated a = total a.blocks + total a.large_allocs

-- All blocks but the last in full, and of the last what lies below the current pointer.
abbrev pub used_in_blocks : List Region → ℕ → ℕ
used_in_blocks [] ptr = 0
used_in_blocks (r ∷ []) ptr = ptr - r.start
used_in_blocks (r ∷ q ∷ rs) ptr = r.size + used_in_blocks (q ∷ rs) ptr

pub bytes_used : Arena → ℕ
bytes_used a = used_in_blocks a.blocks a.current_ptr + total a.large_allocs
