-- ===== src/App.antt =====
-- The applications' side: lib/app/main.c and applications/sample.
pub mod Main
pub mod Start
pub mod Ticker
pub mod Version
