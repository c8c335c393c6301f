-- ===== src/Scripts.antt =====
-- scripts/ and docker/log-generator/: the programs that set the system up, check it and feed it.
pub mod HealthCheck
pub mod Topics
pub mod Audit
pub mod Replay
pub mod Lakehouse
pub mod AlertImport
pub mod GenerateLogs
pub mod Submit
mod Tests
