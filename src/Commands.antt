-- ===== src/Commands.antt =====
-- cmd/: the pure parts of the programs. Config is of cmd/api/main.go, Seed of cmd/seed/main.go, and
-- Loadgen, Mixed and Report of cmd/loadgen/main.go. What is left out of them is flags, HTTP, the
-- database, goroutines and output.
pub mod Config
pub mod Loadgen
pub mod Seed
pub mod Mixed
pub mod Report
pub mod Tests
