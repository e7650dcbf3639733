-- ===== src/Memory.antt =====
-- Memory management: src/memory and include/novaboot/memory.
pub mod Region
pub mod Arena
pub mod Pool
