-- ===== src/Messaging.antt =====
-- STOMP over WebSocket: src/messaging/stomp.cpp.
pub mod Escape
pub mod Decoder
pub mod Acks
pub mod Authorization
pub mod Broker
pub mod Endpoint
pub mod RoundTrip
mod Tests
