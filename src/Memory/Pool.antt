-- ===== src/Memory/Pool.antt =====
-- The pool allocator: include/novaboot/memory/pool_allocator.h, over addresses. The chain of free
-- nodes, which runs through the free slots themselves, is the list of their addresses. `mmap` gives
-- the address of the storage.
pub mod Slots
mod Tests
use novaboot.Base.{
  ℕ, zero, suc, ◌+◌, ◌-◌, ◌*◌, max, Bool, true, false, ◌&&◌, List, [], ◌∷◌, Option, none, some,
  if◌then◌else◌, ltb, leb,
}
use novaboot.Memory.Region.{round_page}

pub record Pool : Type 0 where
  pub storage : ℕ
  pub storage_size : ℕ
  pub capacity : ℕ
  pub in_use : ℕ
  pub free_head : List ℕ

abbrev pub slot_size : (size_of align_of : ℕ) → ℕ
slot_size size_of align_of = max size_of align_of

-- The loop that chains the slots, from the last to the first.
unfoldable pub chain : (storage slot capacity : ℕ) → List ℕ → List ℕ
chain storage slot zero free = free
chain storage slot (suc i) free = chain storage slot i ((storage + i * slot) ∷ free)

-- The constructor, once the storage is mapped; it throws when it cannot be.
unfoldable pub new_pool : (size_of align_of capacity : ℕ) → (mapped : Option ℕ) → Option Pool
new_pool size_of align_of capacity none = none
new_pool size_of align_of capacity (some storage) = some (record {
  storage = storage;
  storage_size = round_page (slot_size size_of align_of * capacity);
  capacity = capacity;
  in_use = 0;
  free_head = chain storage (slot_size size_of align_of) capacity [];
})

abbrev pub take_head : Pool → List ℕ → Pool × Option ℕ
take_head p [] = (p, none)
take_head p (node ∷ next) = (record p { free_head = next; in_use = p.in_use + 1 }, some node)

unfoldable pub allocate : Pool → Pool × Option ℕ
allocate p = take_head p p.free_head

unfoldable pub deallocate : ℕ → Pool → Pool
deallocate ptr p = record p { free_head = ptr ∷ p.free_head; in_use = p.in_use - 1 }

unfoldable pub owns : ℕ → Pool → Bool
owns ptr p = leb p.storage ptr && ltb ptr (p.storage + p.storage_size)

abbrev pub available : Pool → ℕ
available p = p.capacity - p.in_use
