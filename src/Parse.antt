-- ===== src/Parse.antt =====
-- internal/parse: feed documents as one normalized feed.
pub mod Types
pub mod Runes
pub mod Library
pub mod Normalize
pub mod Fields
pub mod Documents
pub mod Detect
mod Normalized
mod Headlines
mod QueryValues
mod Canonical
pub mod Sample
mod Tests
