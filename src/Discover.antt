-- ===== src/Discover.antt =====
-- internal/discover: the feeds of a site.
pub mod Links
pub mod Search
mod Found
mod Sites
mod Results
mod Tests
