-- ===== src/Core.antt =====
-- packages/core: the orchestration service.
pub mod Adapter
pub mod Watchdog
pub mod Dispatcher
pub mod Modbus
pub mod Aggregator
pub mod InfluxWriter
pub mod Orchestrator
pub mod ConfigApi
