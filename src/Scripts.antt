-- ===== src/Scripts.antt =====
-- The scripts at the root of the repository that use the platform from outside: benchmark.js,
-- failure-benchmark.js, load-test.js and run-file.js
pub mod Statistics
pub mod Percentiles
pub mod Pool
pub mod Draining
pub mod Recovery
pub mod Reports
pub mod RunFile
pub mod Printing
pub mod Waiting
pub mod Pollers
