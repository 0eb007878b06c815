-- ===== src/Config.antt =====
-- internal/config and the wiring of cmd/feeds/main.go: the service's configuration.
mod Load
mod Loads
mod Wiring
mod Tests
