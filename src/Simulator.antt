-- ===== src/Simulator.antt =====
-- packages/simulator: the simulated devices.
pub mod Device
