-- ===== src/Store.antt =====
-- internal/store: the SQLite persistence layer.
pub mod Rows
pub mod Conn
pub mod Feeds
pub mod Claims
pub mod Items
pub mod Keeps
pub mod Invariant
pub mod Preserve
pub mod Lift
pub mod Calls
pub mod Success
pub mod Claimed
pub mod Lease
pub mod Batch
pub mod Upsert
pub mod Retention
pub mod Atomic
pub mod Outcomes
pub mod Ensure
pub mod Orphan
pub mod Timeline
pub mod Runs
mod Tests
