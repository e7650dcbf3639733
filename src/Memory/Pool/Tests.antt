-- ===== src/Memory/Pool/Tests.antt =====
-- Runs of include/novaboot/memory/pool_allocator.h.
use novaboot.Base.{ℕ, ◌≤◌, ◌≡◌, refl, ◌↔◌, [], ◌∷◌, none, some, arith, length}
use novaboot.Memory.Region.{round_page}
use novaboot.Memory.Pool.{Pool, chain, new_pool, allocate}
use novaboot.Memory.Pool.Slots.{times, Users, allocates, Runs, starts, then_step, Runs-new_pool}

abbrev two_slots : Pool
two_slots = record {
  storage = 8192;
  storage_size = 4096;
  capacity = 2;
  in_use = 0;
  free_head = 8192 ∷ 8256 ∷ [];
}

two_slots_lem : new_pool 64 8 2 (some 8192) ≡ some two_slots
unfolding new_pool chain round_page
two_slots_lem = refl

abbrev one_used : Users
one_used = record { pool = (allocate two_slots).0; live = 8192 ∷ [] }

one_used-Runs : Runs two_slots one_used
unfolding allocate
one_used-Runs = then_step starts (allocates _)

Runs-new_pool_example :
    ((p : ℕ) → times p (8192 ∷ []) ≤ 1)
    × (one_used.pool.in_use ≡ length one_used.live)
    × (((allocate one_used.pool).1 ≡ none) ↔ (length one_used.live ≡ 2))
Runs-new_pool_example =
    Runs-new_pool 64 8 2 (some 8192) two_slots one_used (omega arith) two_slots_lem one_used-Runs
