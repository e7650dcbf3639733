-- ===== src/Memory/Arena/Tests.antt =====
-- Runs of the arena allocator, and instances of the theorems.
use novaboot.Base.{
  ℕ, ◌%◌, ◌^◌, ◌≡◌, refl, ◌≢◌, inl, List, [], ◌∷◌, Option, some, none, arith, if◌then◌else◌, ltb,
  ◌==◌,
}
use novaboot.Memory.Region.{Region, round_page, align_up}
use novaboot.Memory.Arena.{
  Arena, allocate_new_block, new_arena, allocate_large, bump, allocate_small, do_allocate,
}
use novaboot.Memory.Arena.Invariant.{Inv, MapsFresh, Granted, do_allocate-Granted}
use novaboot.Memory.Arena.Accounting.{unmapped_arena}

arena : Unit {0}
unfolding do_allocate allocate_small allocate_large allocate_new_block new_arena bump align_up
    round_page
arena = tt

-- Every request up to 2^40 bytes is mapped at 2^20 + 4096.
abbrev pages : ℕ → Option ℕ
pages size = if size == 0 then none else if ltb (2 ^ 40) size then none else some 0x101000

-- One block of 8192 bytes at 65536, with the first ten bytes taken.
abbrev started : Arena
started = record {
  block_size = 8192;
  blocks = record { start = 65536; size = 8192 } ∷ [];
  large_allocs = [];
  current_ptr = 65546;
  current_end = 73728;
}

abbrev ten : List Region
ten = record { start = 65536; size = 10 } ∷ []

started-Inv : Inv started ten
started-Inv = record {
  in_order = omega arith;
  in_space = omega arith;
  in_last = omega arith;
  blocks_in_space = omega arith;
  held = ((inl (inl (omega arith)), omega arith), tt);
}

pages-MapsFresh : MapsFresh pages started
pages-MapsFresh = record {
  nonempty = refl;
  on_page = λ size start e. ground arith;
  in_space = λ size start e. ground arith;
  apart_blocks = λ size start e. (ground arith, tt);
  apart_large = λ size start e. tt;
}

bumped : do_allocate pages 100 16 started ≡ some (65552, record started { current_ptr = 65652 })
unfolding arena
bumped = refl

do_allocate-Granted_example :
    Granted (record started { current_ptr = 65652 }) ten 65552 100
    × (4096 % 16 ≡ 0 → 65552 % 16 ≡ 0)
do_allocate-Granted_example =
    do_allocate-Granted pages-MapsFresh started-Inv 100 16 65552 (omega arith) (omega arith)
      (omega arith) bumped

-- A large request with an alignment above the page size gets the page that `mmap` returns.
over_aligned :
    (r : Arena) × (do_allocate pages 40000 8192 started ≡ some (0x101000, r))
    × (0x101000 % 8192 ≢ 0)
unfolding arena
over_aligned = (_, refl, omega arith)

first_pages-MapsFresh : MapsFresh pages (unmapped_arena 100)
first_pages-MapsFresh = record {
  nonempty = refl;
  on_page = λ size start e. ground arith;
  in_space = λ size start e. ground arith;
  apart_blocks = λ size start e. tt;
  apart_large = λ size start e. tt;
}

abbrev built : Option Arena
unfolding arena
built = new_arena pages 100

abbrev or_started : Option Arena → Arena
or_started none = started
or_started (some a) = a
