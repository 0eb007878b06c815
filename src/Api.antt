-- ===== src/Api.antt =====
-- internal/api: the HTTP surface.
pub mod Dedupe
pub mod Stories
pub mod Deduped
pub mod Query
mod Reading
pub mod Answers
mod Response
mod Handlers
mod Requests
mod Lookups
mod Served
mod Revalidate
mod Items
mod Samples
mod Tests
