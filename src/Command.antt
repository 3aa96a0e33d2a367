-- ===== src/Command.antt =====
-- Commands that a user types, src/command.rs.
pub mod Color
pub mod Syntax
pub mod Line
pub mod Route
pub mod Typed
pub mod Arguments
pub mod RoundTrip
pub mod Meaning
