-- ===== src/WebSocket.antt =====
-- The WebSocket transport: src/websocket/websocket.cpp and include/novaboot/websocket/websocket.h.
pub mod Utf8
pub mod Frame
pub mod Shared
pub mod Session
pub mod Registry
pub mod Connection
mod Tests
