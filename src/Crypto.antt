-- ===== src/Crypto.antt =====
-- The cryptographic layer, src/crypto/: what it binds into signatures and envelopes. The primitives
-- themselves are an interface.
pub mod Primitives
pub mod Transcript
pub mod Identity
pub mod Envelope
