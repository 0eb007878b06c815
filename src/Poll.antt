-- ===== src/Poll.antt =====
-- internal/poll: when a feed is polled again, and the fetch of one feed.
pub mod Schedule
pub mod Bounds
pub mod Fetch
pub mod Steps
pub mod Reschedules
pub mod Run
pub mod Spares
pub mod Ticks
pub mod HostLimit
pub mod HostSlots
pub mod HostInvariant
pub mod HostSteps
pub mod HostSpacing
mod HostTests
mod Tests
