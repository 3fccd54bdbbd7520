-- ===== src/Common.antt =====
-- packages/common: what both services share.
pub mod Points
pub mod Json
pub mod DataModel
pub mod Conformity
pub mod RegisterMap
pub mod ModbusCodec
pub mod Config
pub mod ConfigManager
