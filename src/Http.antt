-- ===== src/Http.antt =====
-- HTTP messages.
pub mod Headers
pub mod Texts
pub mod Messages
pub mod Cookies
pub mod Multipart
pub mod Static
