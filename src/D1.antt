-- ===== src/D1.antt =====
-- The D1 bridge of deploy/worker/index.mjs: the registry of prepared statements behind the integer
-- handles that the wasm side holds.
pub mod Values
pub mod Registry
pub mod Statements
pub mod Columns
mod Tests
