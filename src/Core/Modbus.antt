-- ===== src/Core/Modbus.antt =====
-- packages/core/src/core/adapters/modbus_tcp.py.
pub mod Link
pub mod Plan
pub mod Transfer
