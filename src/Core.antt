-- ===== src/Core.antt =====
-- The crate stunny-core: messages, attributes and transports.
pub mod Message
pub mod Attributes
pub mod Transport
