-- ===== src/Router.antt =====
-- The URL router: src/router/router.cpp with include/novaboot/router/{router,route,path_params}.h.
pub mod Method
pub mod Params
pub mod Tree
pub mod Finding
pub mod Patterns
pub mod Insertion
pub mod Reaching
pub mod Table
pub mod Lookup
pub mod History
pub mod Groups
mod Tests
