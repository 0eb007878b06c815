-- ===== src/Fetch.antt =====
-- internal/fetch: the guarded HTTP client.
pub mod Types
pub mod Address
pub mod Public
pub mod Guard
pub mod Vetted
pub mod Client
pub mod Requests
mod Tests
