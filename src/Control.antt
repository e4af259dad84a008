-- ===== src/Control.antt =====
-- The control channel's wire format: src/control/.
pub mod Bytes
pub mod Identity
pub mod Message
pub mod RoundTrip
