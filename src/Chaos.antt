-- ===== src/Chaos.antt =====
-- chaos/: the scenarios that stop parts of the running system, and the orchestrator that reports on
-- them. A scenario acts on the host through the interface of Host.antt.
pub mod Host
pub mod Text
pub mod Polling
pub mod Fluentd
pub mod Kafka
pub mod Delta
pub mod Latency
pub mod Runner
pub mod Config
pub mod Suite
pub mod Scripted
pub mod Tests
