-- ===== src/Persistence.antt =====
-- persistence/: what the program keeps of an authorization and of a broker's secrets.
pub mod NonceStore
pub mod Envelope
pub mod Schema
