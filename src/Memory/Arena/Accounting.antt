-- ===== src/Memory/Arena/Accounting.antt =====
-- The sizes that the arena reports, construction, and what a reset gives back.
use novaboot.Base.{
  ℕ, ◌+◌, ◌≤◌, ◌≡◌, refl, List, [], ◌∷◌, Option, some, arith, All, Last, max, inl, inr,
  Option-cases,
}
use novaboot.Memory.Region.{Region, Inside, total, total-append}
use novaboot.Memory.Arena.{
  Arena, allocate_new_block, new_arena, reset, reset_blocks, total_allocated, used_in_blocks,
  bytes_used,
}
use novaboot.Memory.Arena.Invariant.{Inv, MapsFresh, space, free_part}

used_in_blocks-le :
    (rs : List Region) (free : Region)
    → Last (Inside free) rs
    → used_in_blocks rs free.start ≤ total rs
used_in_blocks-le [] free l = absurd l
used_in_blocks-le (r ∷ []) free l = omega arith
used_in_blocks-le (r ∷ q ∷ rs) free l = omega (arith, used_in_blocks-le (q ∷ rs) free l)

-- An arena with the invariant never reports more bytes used than it has mapped.
bytes_used-le-total_allocated :
    (a : Arena) (live : List Region) → Inv a live → bytes_used a ≤ total_allocated a
unfolding bytes_used total_allocated
bytes_used-le-total_allocated a live inv =
    omega (arith, used_in_blocks-le a.blocks (free_part a) inv.in_last)

-- What a reset leaves and unmaps.
pub record IsReset (a : Arena) (result : Arena × List Region) : Type 0 where
  pub kept : Inv result.0 []
  pub unused : bytes_used result.0 ≡ 0
  pub balanced : total_allocated result.0 + total result.1 ≡ total_allocated a

reset_blocks-IsReset :
    (a : Arena) (bs : List Region)
    → a.blocks ≡ bs
    → Last (Inside (free_part a)) bs
    → All (λ r. r.start + r.size ≤ space) bs
    → IsReset a (reset_blocks bs a)
unfolding bytes_used total_allocated
reset_blocks-IsReset a [] e l s = absurd l
reset_blocks-IsReset a (r ∷ rs) e l s = record {
  kept = record {
    in_order = omega arith;
    in_space = s.0;
    in_last = omega arith;
    blocks_in_space = (s.0, tt);
    held = tt;
  };
  unused = omega arith;
  balanced = rw e (omega (arith, total-append rs a.large_allocs));
}

-- A reset keeps one block, with nothing used in it, and unmaps all the rest.
reset-IsReset : (a : Arena) (live : List Region) → Inv a live → IsReset a (reset a)
unfolding reset
reset-IsReset a live inv = reset_blocks-IsReset a a.blocks refl inv.in_last inv.blocks_in_space

abbrev pub unmapped_arena : ℕ → Arena
unmapped_arena block_size = record {
  block_size = max block_size 4096;
  blocks = [];
  large_allocs = [];
  current_ptr = 0;
  current_end = 0;
}

abbrev fresh_arena : ℕ → ℕ → Arena
fresh_arena start block_size = record {
  block_size = max block_size 4096;
  blocks = record { start = start; size = max block_size 4096 } ∷ [];
  large_allocs = [];
  current_ptr = start;
  current_end = start + max block_size 4096;
}

new_block_eq :
    (mmap : ℕ → Option ℕ) (block_size : ℕ) (start : ℕ)
    → mmap (max block_size 4096) ≡ some start
    → new_arena mmap block_size ≡ some (fresh_arena start block_size)
unfolding new_arena allocate_new_block
new_block_eq mmap block_size start e = rw e

-- A new arena holds nothing, in one mapped block of at least a page.
new_arena-Inv :
    (mmap : ℕ → Option ℕ) (block_size : ℕ) (a : Arena)
    → MapsFresh mmap (unmapped_arena block_size)
    → new_arena mmap block_size ≡ some a
    → Inv a [] × (bytes_used a ≡ 0) × (4096 ≤ total_allocated a)
unfolding new_arena allocate_new_block bytes_used total_allocated
new_arena-Inv mmap block_size a fresh e = elim (Option-cases (mmap (max block_size 4096))) [
  | inl failed ↦ absurd (cc (rw (failed, new_arena, allocate_new_block) at e))
  | inr (start, mapped) ↦
      let top = fresh.in_space (max block_size 4096) start mapped in
      let built : a ≡ fresh_arena start block_size =
        cc (new_block_eq mmap block_size start mapped) in
      rw built (
        record {
          in_order = omega arith;
          in_space = top;
          in_last = omega arith;
          blocks_in_space = (top, tt);
          held = tt;
        },
        omega arith,
        omega arith,
      )
]
